-- ===== src/Driver/Network.antt =====
-- sawa.c: the driver's requests to the file server, each on a connection of its own. `none` is
-- undefined behaviour, or a call that the kernel's answers do not end.
use sa_wa.Base.{
  ℕ, ◌+◌, ◌*◌, ◌%◌, ◌^◌, Bool, true, false, Option, none, some, List, [], ◌∷◌, ◌++◌, ℤ, pos, negsuc,
  nonneg, take, drop, length, get_elem?, leb, ltb, if◌then◌else◌, ◌>>=◌,
}
use sa_wa.Bytes.{bytes_of_u32, load_u32}
use sa_wa.Sawa.{sawa_info, sawa_read, sawa_write}
use sa_wa.Driver.Tcp.{
  Call, returned, waiting, Recvmsg, delivered, refused, tcp_client_connect, tcp_client_send,
  tcp_client_receive,
}

-- What the kernel answers to the calls of one request.
pub record Kernel : Type 0 where
  pub created : ℤ
  pub connected : ℤ
  pub sends : List ℤ
  pub receives : List Recvmsg

-- What a request leaves: the number that it returns, the bytes on its connection's wire, and the
-- buffer that it was given.
pub record Done : Type 0 where
  pub ret : ℤ
  pub wire : List ℕ
  pub buffer : List ℕ

-- The requests do not look at what tcp_client_send returns, but wait for it to return.
unfoldable pub sent_wire : List ℕ × Call → Option (List ℕ)
sent_wire (wire, returned n) = some wire
sent_wire (wire, waiting) = none

-- A received message in front of what the buffer held, and the number of its bytes. Of a negative
-- number only the sign is looked at.
unfoldable pub store_received : List ℕ → Recvmsg → List ℕ × ℕ
store_received buffer (delivered bytes) = (bytes ++ drop (length bytes) buffer, length bytes)
store_received buffer (refused n) = (buffer, 0)

-- The number of sectors behind the call and what it returns. The buffer of the answer holds 0x42
-- and three stale bytes before.
unfoldable pub sawa_send_info : (ℕ → ℕ) → Kernel → ℕ → Option (ℕ × Done)
unfolding sent_wire store_received
sawa_send_info stale kernel nb_sectors =
    elim (nonneg (tcp_client_connect kernel.created kernel.connected)) [
      | false ↦ some (nb_sectors, record { ret = negsuc 0; wire = []; buffer = [] })
      | true ↦ do
        wire ← sent_wire (tcp_client_send false (bytes_of_u32 1 ++ sawa_info ∷ []) kernel.sends)
        answer ← tcp_client_receive kernel.receives
        sectors ← load_u32 (store_received (0x42 ∷ stale 1 ∷ stale 2 ∷ stale 3 ∷ []) answer).0 0
        some (sectors, record { ret = pos 0; wire = wire; buffer = [] })
    ]

-- The offset and the size of a range of sectors, as unsigned ints.
abbrev pub bytes_of_sectors : ℕ → ℕ
bytes_of_sectors n = n * 512 % 2 ^ 32

-- The message of a write, with the bytes that memcpy takes from the buffer.
abbrev pub write_request : ℕ → List ℕ → List ℕ
write_request offset payload =
    bytes_of_u32 (length payload + 5) ++ (sawa_write ∷ (bytes_of_u32 offset ++ payload))

-- `allocated` is whether kmalloc returned memory. The response is not read.
unfoldable pub sawa_write_data : Bool → Kernel → ℕ → ℕ → List ℕ → Option Done
unfolding sent_wire
sawa_write_data allocated kernel sector nb_sectors buffer =
    elim (nonneg (tcp_client_connect kernel.created kernel.connected)) [
      | false ↦ some (record { ret = negsuc 0; wire = []; buffer = buffer })
      | true ↦ elim (allocated) [
        | false ↦ none
        | true ↦ elim (leb (bytes_of_sectors nb_sectors) (length buffer)) [
          | false ↦ none
          | true ↦ do
            wire ← sent_wire (
                tcp_client_send false
                  (write_request (bytes_of_sectors sector)
                    (take (bytes_of_sectors nb_sectors) buffer))
                  kernel.sends)
            some (record { ret = pos 0; wire = wire; buffer = buffer })
        ]
      ]
    ]

abbrev pub read_request : ℕ → ℕ → List ℕ
read_request offset size =
    bytes_of_u32 9 ++ (sawa_read ∷ (bytes_of_u32 offset ++ bytes_of_u32 size))

-- The end of sawa_read_data: more than one byte is success. The buffer's first byte goes to
-- sawa_handle_error otherwise.
unfoldable pub read_outcome : List ℕ → List ℕ × ℕ → Option Done
read_outcome wire (buffer, n) =
    if ltb 1 n then some (record { ret = pos 0; wire = wire; buffer = buffer }) else (do
      code ← get_elem? buffer 0
      some (record { ret = negsuc 0; wire = wire; buffer = buffer }))

unfoldable pub sawa_read_data : Kernel → ℕ → ℕ → List ℕ → Option Done
unfolding sent_wire store_received read_outcome
sawa_read_data kernel sector nb_sectors buffer =
    elim (nonneg (tcp_client_connect kernel.created kernel.connected)) [
      | false ↦ some (record { ret = negsuc 0; wire = []; buffer = buffer })
      | true ↦ do
        wire ← sent_wire (
            tcp_client_send false
              (read_request (bytes_of_sectors sector) (bytes_of_sectors nb_sectors)) kernel.sends)
        answer ← tcp_client_receive kernel.receives
        read_outcome wire (store_received buffer answer)
    ]
