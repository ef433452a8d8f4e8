-- ===== src/Sawa.antt =====
-- server/sawa_srv.cpp: the file server. A session is the server with one connection: its stream on
-- the filesystem file, the connection's thread record, and the bytes written to the socket so far.
-- `none` is undefined behaviour: an access outside the request's buffer. The screen's debug lines
-- and `sync()` leave no trace in the state.
pub mod Protocol
pub mod Refinement
pub mod Serving
pub mod Durability
pub mod Faults
use sa_wa.Base.{
  ℕ, zero, suc, ◌+◌, ◌-◌, ◌*◌, ◌%◌, ◌^◌, Bool, true, false, Option, none, some, List, [], ◌∷◌, ◌++◌,
  length, get_elem?, take, drop, replicate, ltb, leb, ◌==◌, if◌then◌else◌, ◌>>=◌,
}
use sa_wa.Bytes.{bytes_of_u32, load_u32, fill}
use sa_wa.Storage.{FileOps, Recv, got, failed}
use sa_wa.Thread.{ConnectionThread, update_screen}

-- The codes of sawa.h.
abbrev pub sawa_info : ℕ
sawa_info = 0x01

abbrev pub sawa_read : ℕ
sawa_read = 0x02

abbrev pub sawa_write : ℕ
sawa_write = 0x03

abbrev pub msg_ok : ℕ
msg_ok = 0x42

abbrev pub msg_err : ℕ
msg_err = 0x43

abbrev pub msg_noauth : ℕ
msg_noauth = 0x44

pub record Session (F : FileOps) : Type 0 where
  pub nb_sectors : ℕ
  pub fp : F.File
  pub thread : ConnectionThread
  pub output : List ℕ

unfoldable pub default_sectors : ℕ
default_sectors = 2048

-- The sums and products of uint32_t wrap.
unfoldable pub is_in_bounds : ℕ → ℕ → ℕ → Bool
is_in_bounds nb_sectors offset size = leb ((size + offset) % 2 ^ 32) (nb_sectors * 512 % 2 ^ 32)

-- The size that a message announces; none where readData returns.
unfoldable pub announced : Recv → Option ℕ
announced failed = none
announced (got header) = elim (load_u32 (take 4 header) 0) [
  | none ↦ none
  | some size ↦ if ltb 32768 size then none else some size
]

module _ (F : FileOps) where
  open F use {fseek, fread, fwrite}

  -- write(2) on the connection's socket.
  abbrev pub send : Session F → List ℕ → Session F
  send s bytes = record s { output = s.output ++ bytes }

  unfoldable pub send_info : Session F → Session F
  send_info s = send s (bytes_of_u32 s.nb_sectors)

  unfoldable pub check_valid_request : Session F → ℕ → ℕ → Session F × Bool
  unfolding is_in_bounds
  check_valid_request s offset size =
      if is_in_bounds s.nb_sectors offset size then (s, true) else (send s (msg_noauth ∷ []), false)

  -- The buffer is as large as the request asks, whatever fread delivers.
  unfoldable pub send_range : (ℕ → ℕ) → Session F → ℕ → ℕ → Session F
  send_range stale s offset size =
      let (fp, _) = fseek s.fp offset in
      let (fp', bytes) = fread fp size in send (record s { fp = fp' }) (fill stale size bytes)

  unfoldable pub read_file : (ℕ → ℕ) → Session F → ℕ → ℕ → Session F
  unfolding check_valid_request
  read_file stale s offset size =
      let (s', valid) = check_valid_request s offset size in
      if valid then send_range stale s' offset size else s'

  -- fwrite returns a size_t, so the test `>= 0` on its result passes.
  unfoldable pub store_range : Session F → List ℕ → ℕ → Session F
  store_range s bytes offset =
      let (fp, moved) = fseek s.fp offset in
      if moved
      then (let (fp', _) = fwrite fp bytes in send (record s { fp = fp' }) (msg_ok ∷ []))
      else send (record s { fp = fp }) (msg_err ∷ [])

  unfoldable pub write_file : Session F → List ℕ → ℕ → ℕ → Option (Session F)
  unfolding check_valid_request
  write_file s addr offset size =
      let (s', valid) = check_valid_request s offset size in
      if valid
      then (if leb size (length addr) then some (store_range s' (take size addr) offset) else none)
      else some s'

  abbrev pub count : ℕ → Session F → Session F
  count column s = record s { thread = update_screen s.thread column }

  -- The switch on the operation, once the offset is loaded.
  unfoldable pub dispatch : (ℕ → ℕ) → Session F → List ℕ → ℕ → ℕ → ℕ → Option (Session F)
  dispatch stale s addr size op offset =
      if op == sawa_read
      then (do n ← load_u32 addr 5; some (count 1 (read_file stale s offset n)))
      else if op == sawa_write
      then (do
        s' ← write_file s (drop 5 addr) offset ((size + 2 ^ 32 - 5) % 2 ^ 32)
        some (count 2 s'))
      else some s

  unfoldable pub process_request : (ℕ → ℕ) → Session F → List ℕ → ℕ → Option (Session F)
  process_request stale s addr size = do
    op ← get_elem? addr 0
    if op == sawa_info
        then some (count 0 (send_info s))
        else do offset ← load_u32 addr 1; dispatch stale s addr size op offset

  -- The message's buffer, and its request. A short read leaves stale bytes at the buffer's end.
  unfoldable pub receive : (ℕ → ℕ) → Session F → ℕ → List ℕ → Option (Session F)
  receive stale s size bytes = process_request stale s (fill stale size bytes) size

  -- The loop of readData over the answers of read; where they end, the peer has closed the
  -- connection and read answers 0. `stale k` is the memory of the buffers allocated when `k`
  -- answers are left.
  unfoldable pub read_data : (ℕ → ℕ → ℕ) → Session F → List Recv → Option (Session F)
  read_data stale s [] = some s
  read_data stale s (header ∷ []) = elim (announced header) [
    | none ↦ some s
    | some zero ↦ some s
    | some (suc n) ↦ receive (stale 0) s (suc n) []
  ]
  read_data stale s (header ∷ body ∷ rest) = elim (announced header) [
    | none ↦ some s
    | some zero ↦ read_data stale s (body ∷ rest)
    | some (suc n) ↦ elim body [
      | failed ↦ some s
      | got bytes ↦ elim (receive (stale (length rest)) s (suc n) bytes) [
        | none ↦ none
        | some s' ↦ read_data stale s' rest
      ]
    ]
  ]

  -- getFilesystemFile: the file as it is, or a new one of zero bytes. `open_file` is fopen with
  -- "r+" and "w+"; an exception carries the failure code.
  unfoldable pub get_filesystem_file : (reopened created : Option F.File) → ℕ → Option F.File
  get_filesystem_file (some fp) created nb_sectors = some fp
  get_filesystem_file none (some fp) nb_sectors =
      some (fwrite fp (replicate (nb_sectors * 512) 0)).0
  get_filesystem_file none none nb_sectors = none

  -- The constructor of SawaServer, with a fresh connection's thread.
  unfoldable pub sawa_server :
      (reopened created : Option F.File) → ConnectionThread → Option (Session F)
  sawa_server reopened created thread = do
    fp ← get_filesystem_file reopened created default_sectors
    some (record { nb_sectors = default_sectors; fp = fp; thread = thread; output = [] })
