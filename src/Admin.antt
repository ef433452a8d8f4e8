-- ===== src/Admin.antt =====
-- server/sawa_admin.cpp: the administrative interface. A session is the pool with one connection of
-- an administrator; `none` is undefined behaviour.
pub mod Reply
pub mod Stat
pub mod Accepting
pub mod Closing
use sa_wa.Base.{
  ℕ, zero, suc, ◌^◌, Bool, true, false, Option, none, some, List, [], ◌∷◌, ◌++◌, length, get_elem?,
  take, ltb, leb, ◌==◌, ◌&&◌, ◌||◌, if◌then◌else◌, ◌>>=◌,
}
use sa_wa.Bytes.{load_u32, fill}
use sa_wa.Storage.{Recv, got, failed}
use sa_wa.Client.{sawa_stop, sawa_stat}
use sa_wa.Pool.{ThreadPool, get_thread_statistics}

pub record AdminSession : Type 0 where
  pub pool : ThreadPool
  pub output : List ℕ
  -- The process has been stopped by ctrl_c_handler and exit.
  pub stopped : Bool

-- It writes as many bytes as the buffer's first number says, from the buffer's start. The number is
-- an int: a negative one is a size behind the buffer.
unfoldable pub stat_command : AdminSession → Option AdminSession
stat_command s = do
  buffer ← get_thread_statistics s.pool
  size ← load_u32 buffer 0
  if ltb size (2 ^ 31) && leb size (length buffer)
      then some (record s { output = s.output ++ take size buffer })
      else none

unfoldable pub process_command : AdminSession → List ℕ → Option AdminSession
process_command s buffer_in = do
  op ← get_elem? buffer_in 0
  if op == sawa_stop
      then some (record s { stopped = true })
      else if op == sawa_stat
      then stat_command s
      else some s

-- The size that a message announces, none where readCommand returns. It is an int: a negative one
-- is neither too large nor read.
unfoldable pub announced_command : Recv → Option ℕ
announced_command failed = none
announced_command (got header) = elim (load_u32 (take 4 header) 0) [
  | none ↦ none
  | some size ↦ if ltb size (2 ^ 31) then (if ltb 1024 size then none else some size) else some 0
]

-- The loop of readCommand over the answers of read, as in module Sawa; a stopped process reads no
-- more.
unfoldable pub read_command : (ℕ → ℕ → ℕ) → AdminSession → List Recv → Option AdminSession
read_command stale s [] = some s
read_command stale s (header ∷ []) = elim (announced_command header) [
  | none ↦ some s
  | some zero ↦ some s
  | some (suc n) ↦ process_command s (fill (stale 0) (suc n) [])
]
read_command stale s (header ∷ body ∷ rest) = elim (announced_command header) [
  | none ↦ some s
  | some zero ↦ read_command stale s (body ∷ rest)
  | some (suc n) ↦ elim body [
    | failed ↦ some s
    | got bytes ↦ elim (process_command s (fill (stale (length rest)) (suc n) bytes)) [
      | none ↦ none
      | some s' ↦ elim s'.stopped [ true ↦ some s' | false ↦ read_command stale s' rest ]
    ]
  ]
]
