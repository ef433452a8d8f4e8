-- ===== src/Client.antt =====
-- server/sawa_client_interface.cpp: the client's side of the protocol. An interface keeps the
-- message under construction and the bytes written to its socket so far; what each read answers is
-- an argument. `none` is undefined behaviour: an access outside an allocation. Printed lines leave
-- no trace, but for those that the result decides.
pub mod CommandLine
pub mod Commands
pub mod EndToEnd
pub mod SelfTest
pub mod Timing
pub mod Running
pub mod Program
pub mod Asking
pub mod Exchange
pub mod Passing
use sa_wa.Base.{
  ℕ, zero, suc, ◌+◌, ◌-◌, ◌*◌, ◌/◌, ◌%◌, ◌^◌, Bool, true, false, Option, none, some, List, [], ◌∷◌,
  ◌++◌, length, get_elem?, replicate, take, drop, leb, ltb, ◌==◌, if◌then◌else◌, ◌>>=◌, ℤ, pos,
  negsuc,
}
use sa_wa.Bytes.{bytes_of_u32, load_u32, fill}
use sa_wa.Storage.{Recv, got, failed, write_at}
use sa_wa.Sawa.{sawa_info, sawa_read, sawa_write}

abbrev pub sawa_stop : ℕ
sawa_stop = 0x04

abbrev pub sawa_stat : ℕ
sawa_stat = 0x05

pub record SawaInterface : Type 0 where
  pub buffer_out : List ℕ
  pub total_size : ℕ
  pub written : List ℕ

-- What a call ends with: a value, an exception that carries a code, or that of an allocation whose
-- size is negative.
pub data Outcome (A : Type 0) : Type 0 where
  returned : A → Outcome A
  thrown : ℕ → Outcome A
  bad_size : Outcome A

-- A store of bytes into an allocation.
unfoldable pub store : List ℕ → ℕ → List ℕ → Option (List ℕ)
store buffer at bytes =
    if leb (at + length bytes) (length buffer) then some (write_at at bytes buffer) else none

-- The payload starts at byte 5 of the buffer.
unfoldable pub prepare_command : (ℕ → ℕ) → SawaInterface → ℕ → ℕ → Option SawaInterface
unfolding store
prepare_command stale sawa op payload_size = do
  buffer ← store (fill stale (4 + 1 + payload_size) []) 4 (op ∷ [])
  buffer' ← store buffer 0 (bytes_of_u32 (payload_size + 1))
  some (record sawa { buffer_out = buffer'; total_size = 4 + 1 + payload_size })

-- A store into the payload that prepareCommand returned.
unfoldable pub store_payload : SawaInterface → ℕ → List ℕ → Option SawaInterface
unfolding store
store_payload sawa at bytes = do
  buffer ← store sawa.buffer_out (5 + at) bytes
  some (record sawa { buffer_out = buffer })

unfoldable pub send_cmd_to_server : SawaInterface → Option SawaInterface
send_cmd_to_server sawa =
    if leb sawa.total_size (length sawa.buffer_out)
    then some (record sawa {
      buffer_out = [];
      written = sawa.written ++ take sawa.total_size sawa.buffer_out;
    })
    else none

unfoldable pub send_single_cmd_to_server : SawaInterface → ℕ → SawaInterface
send_single_cmd_to_server sawa op = record sawa {
  written = sawa.written ++ (bytes_of_u32 1 ++ op ∷ []);
}

-- readFromServer into a buffer of `size` bytes: the buffer behind the call, and whether read
-- returned 1.
unfoldable pub read_from_server : (ℕ → ℕ) → ℕ → Recv → List ℕ × Bool
read_from_server stale size failed = (fill stale size [], false)
read_from_server stale size (got bytes) = (fill stale size bytes, length bytes == 1)

-- readFromServer that allocates: the payload's buffer and size. It is null, and the size 0, where
-- the size did not arrive.
unfoldable pub read_payload : (ℕ → ℕ) → Recv → Recv → Option (List ℕ) × ℕ
read_payload stale failed body = (none, 0)
read_payload stale (got header) body = elim (load_u32 (take 4 header) 0) [
  | none ↦ (none, 0)
  | some size ↦ (some (read_from_server stale size body).0, size)
]

-- The end of sendReadCmd: a reply of one byte is an error code.
unfoldable pub read_result : List ℕ × Bool → Option (Outcome (List ℕ))
read_result (buffer, false) = some (returned buffer)
read_result (buffer, true) = do code ← get_elem? buffer 0; some (thrown code)

-- The message and the reply, behind the allocation of the buffer.
unfoldable pub request_read :
    (ℕ → ℕ) → SawaInterface → ℕ → ℕ → Recv → Option (SawaInterface × Outcome (List ℕ))
request_read stale sawa offset payload_size reply = do
  sawa ← prepare_command stale sawa sawa_read (2 * 4)
  sawa ← store_payload sawa 0 (bytes_of_u32 offset)
  sawa ← store_payload sawa 4 (bytes_of_u32 payload_size)
  sawa ← send_cmd_to_server sawa
  result ← read_result (read_from_server stale payload_size reply)
  some (sawa, result)

-- The offset and the size are ints, here as 32 bits. The allocation of a negative size throws before
-- anything is sent.
unfoldable pub send_read_cmd :
    (ℕ → ℕ) → SawaInterface → ℕ → ℕ → Recv → Option (SawaInterface × Outcome (List ℕ))
unfolding request_read
send_read_cmd stale sawa offset payload_size reply =
    if ltb payload_size (2 ^ 31)
    then request_read stale sawa offset payload_size reply
    else some (sawa, bad_size)

-- A byte that is read as a signed char.
unfoldable pub to_char : ℕ → ℤ
to_char c = if ltb c (2 ^ 7) then pos c else negsuc (2 ^ 8 - 1 - c)

-- The response is 0xFF until a byte arrives.
unfoldable pub write_response : Recv → ℤ
unfolding to_char
write_response failed = to_char 0xFF
write_response (got []) = to_char 0xFF
write_response (got (code ∷ _)) = to_char code

-- Whether an int is this code.
unfoldable pub is_code : ℤ → ℕ → Bool
is_code (pos n) code = n == code
is_code (negsuc n) code = false

-- The overload of sendWriteCmd that takes the payload. The message has room for 4096 bytes.
unfoldable pub send_write_cmd :
    (ℕ → ℕ) → SawaInterface → List ℕ → ℕ → Recv → Option (SawaInterface × ℤ)
send_write_cmd stale sawa payload offset reply = do
  sawa ← prepare_command stale sawa sawa_write (4 + 4096)
  sawa ← store_payload sawa 0 (bytes_of_u32 offset)
  sawa ← store_payload sawa 4 payload
  sawa ← send_cmd_to_server sawa
  some (sawa, write_response reply)

-- The overload that writes `payload_size` bytes 0xFF.
unfoldable pub send_fill_cmd : (ℕ → ℕ) → SawaInterface → ℕ → ℕ → Recv → Option (SawaInterface × ℤ)
send_fill_cmd stale sawa offset payload_size reply =
    send_write_cmd stale sawa (replicate payload_size 0xFF) offset reply

-- The number of sectors; `result` is 0 before the read.
unfoldable pub info_result : List ℕ × Bool → Option (Outcome ℕ)
info_result (buffer, false) = do n ← load_u32 buffer 0; some (returned n)
info_result (buffer, true) = do n ← load_u32 buffer 0; some (thrown n)

unfoldable pub send_info_cmd : SawaInterface → Recv → Option (SawaInterface × Outcome ℕ)
unfolding send_single_cmd_to_server read_from_server info_result
send_info_cmd sawa reply = do
  result ← info_result (read_from_server (λ _. 0) 4 reply)
  some (send_single_cmd_to_server sawa sawa_info, result)

unfoldable pub send_stop_cmd : SawaInterface → SawaInterface
unfolding send_single_cmd_to_server
send_stop_cmd sawa = send_single_cmd_to_server sawa sawa_stop

-- A line of the statistics.
pub record Row : Type 0 where
  pub active : ℕ
  pub nb_connections : ℤ
  pub info0 : ℤ
  pub info1 : ℤ
  pub info2 : ℤ

-- The four bytes of an int.
unfoldable pub to_int : ℕ → ℤ
to_int n = if ltb n (2 ^ 31) then pos n else negsuc (2 ^ 32 - 1 - n)

-- `struct ThreadStat` in memory: five fields in 20 bytes, of which the last three are padding.
abbrev pub sizeof_stat : ℕ
sizeof_stat = 20

unfoldable pub load_row : List ℕ → ℕ → Option Row
unfolding to_int
load_row buffer at = do
  connections ← load_u32 buffer at
  a ← load_u32 buffer (at + 4)
  b ← load_u32 buffer (at + 8)
  c ← load_u32 buffer (at + 12)
  active ← get_elem? buffer (at + 16)
  some (record {
    active = active;
    nb_connections = to_int connections;
    info0 = to_int a;
    info1 = to_int b;
    info2 = to_int c;
  })

-- The loop of sendStatCmd over `left` threads from number `i` on.
unfoldable pub load_rows : List ℕ → ℕ → ℕ → Option (List Row)
unfolding load_row
load_rows buffer i zero = some []
load_rows buffer i (suc left) = do
  row ← load_row buffer (sizeof_stat * i)
  rows ← load_rows buffer (i + 1) left
  some (row ∷ rows)

-- The number of entries: the size as an int, divided as an unsigned 64-bit number, as an int.
unfoldable pub threads_in : ℕ → ℕ
threads_in size =
    if ltb size (2 ^ 31)
    then size / sizeof_stat
    else (let n = (size + 2 ^ 64 - 2 ^ 32) / sizeof_stat % 2 ^ 32 in
        if ltb n (2 ^ 31) then n else 0)

unfoldable pub stat_rows : Option (List ℕ) × ℕ → Option (List Row)
unfolding load_rows threads_in
stat_rows (none, size) = none
stat_rows (some buffer, size) = load_rows buffer 0 (threads_in size)

-- Where no size arrives, sendStatCmd frees a pointer that was never set.
unfoldable pub send_stat_cmd :
    (ℕ → ℕ) → SawaInterface → Recv → Recv → Option (SawaInterface × List Row)
unfolding send_single_cmd_to_server read_payload stat_rows
send_stat_cmd stale sawa header body = do
  rows ← stat_rows (read_payload stale header body)
  some (send_single_cmd_to_server sawa sawa_stat, rows)
