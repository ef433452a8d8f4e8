-- ===== src/Driver/Disk.antt =====
-- The driver's requests to the file server, as bytes on their connections.
use sa_wa.Base.{
  ℕ, suc, ◌+◌, ◌*◌, ◌^◌, ◌≤◌, ◌<◌, ◌≡◌, refl, sym, ap, ◌∙◌, subst, true, false, some, List, ◌∷◌,
  ◌++◌, pos, take, drop, length, arith, take-all, le→leb, leb,
}
use sa_wa.Bytes.{bytes_of_u32}
use sa_wa.Sawa.{sawa_write}
use sa_wa.Sawa.Protocol.{read, write, encode}
use sa_wa.Client.Commands.{framed}
use sa_wa.Driver.Tcp.{delivered, tcp_client_connect, tcp_client_send, tcp_client_receive}
use sa_wa.Driver.Network.{
  Kernel, sent_wire, store_received, bytes_of_sectors, write_request, read_request, read_outcome,
  sawa_write_data, sawa_read_data,
}
use sa_wa.Driver.Sending.{Working, accepting, tcp_client_send-whole}

-- The kernel connects to the server, and sends a message of this many bytes whole.
pub record Online (kernel : Kernel) (n : ℕ) : Type 0 where
  pub connects : tcp_client_connect kernel.created kernel.connected ≡ pos 0
  pub working : Working n kernel.sends
  pub enough : n ≤ accepting kernel.sends

sends_whole :
    (kernel : Kernel) (message : List ℕ)
    → 0 < length message
    → Online kernel (length message)
    → sent_wire (tcp_client_send false message kernel.sends) ≡ some message
unfolding sent_wire
sends_whole kernel message some_bytes v =
    ap sent_wire (tcp_client_send-whole message kernel.sends some_bytes v.working v.enough)

-- The two messages are the protocol's.
write_request_lem :
    (offset : ℕ) (payload : List ℕ) → write_request offset payload ≡ framed (write offset payload)
unfolding framed encode bytes_of_u32
write_request_lem offset payload =
    ap (λ k. bytes_of_u32 k ++ (sawa_write ∷ (bytes_of_u32 offset ++ payload)))
      {x = length payload + 5} {y = suc (suc (suc (suc (suc (length payload)))))} (omega arith)

read_request_lem : (offset size : ℕ) → read_request offset size ≡ framed (read offset size)
unfolding framed encode bytes_of_u32
read_request_lem offset size = refl

length_write :
    (offset : ℕ) (payload : List ℕ) → length (framed (write offset payload)) ≡ 9 + length payload
unfolding framed encode bytes_of_u32
length_write offset payload = omega arith

length_read : (offset size : ℕ) → length (framed (read offset size)) ≡ 13
unfolding framed encode bytes_of_u32
length_read offset size = refl

pub sawa_write_data-framed :
    (kernel : Kernel) (sector nb : ℕ) (buffer : List ℕ)
    → sector * 512 < 2 ^ 32
    → length buffer ≡ nb * 512
    → nb * 512 < 2 ^ 32
    → Online kernel (9 + nb * 512)
    → sawa_write_data true kernel sector nb buffer
      ≡ some (record { ret = pos 0; wire = framed (write (sector * 512) buffer); buffer = buffer })
unfolding sawa_write_data
sawa_write_data-framed kernel sector nb buffer ho hb hn v =
    let message : List ℕ = framed (write (sector * 512) buffer) in
    let offset : bytes_of_sectors sector ≡ sector * 512 = omega arith in
    let size : bytes_of_sectors nb ≡ nb * 512 = omega arith in
    let all : take (nb * 512) buffer ≡ buffer = take-all (nb * 512) buffer (omega arith) in
    let goes : sent_wire (tcp_client_send false (write_request (sector * 512) buffer) kernel.sends)
        ≡ some message =
      ap (λ m. sent_wire (tcp_client_send false m kernel.sends))
        (write_request_lem (sector * 512) buffer)
      ∙ sends_whole kernel message (omega (arith, length_write (sector * 512) buffer))
          (subst (Online kernel) (omega (arith, length_write (sector * 512) buffer)) v) in
    let fits : leb (nb * 512) (length buffer) ≡ true =
      le→leb (nb * 512) (length buffer) (omega arith) in
    ground (arith, v.connects, offset, size, all, fits, goes)

-- A read whose reply is delivered in parts returns success on the first part, if that has two bytes:
-- the rest of the caller's buffer is what it held before.
pub sawa_read_data-part :
    (kernel : Kernel) (sector nb : ℕ) (buffer part : List ℕ)
    → sector * 512 < 2 ^ 32
    → nb * 512 < 2 ^ 32
    → Online kernel 13
    → tcp_client_receive kernel.receives ≡ some (delivered part)
    → 2 ≤ length part
    → sawa_read_data kernel sector nb buffer
      ≡ some (record {
        ret = pos 0;
        wire = framed (read (sector * 512) (nb * 512));
        buffer = part ++ drop (length part) buffer;
      })
unfolding sawa_read_data store_received read_outcome
sawa_read_data-part kernel sector nb buffer part ho hn v got_part long =
    let message : List ℕ = framed (read (sector * 512) (nb * 512)) in
    let offset : bytes_of_sectors sector ≡ sector * 512 = omega arith in
    let size : bytes_of_sectors nb ≡ nb * 512 = omega arith in
    let goes : sent_wire
          (tcp_client_send false (read_request (sector * 512) (nb * 512)) kernel.sends)
        ≡ some message =
      ap (λ m. sent_wire (tcp_client_send false m kernel.sends))
        (read_request_lem (sector * 512) (nb * 512))
      ∙ sends_whole kernel message (omega (arith, length_read (sector * 512) (nb * 512)))
          (subst (Online kernel) (sym (length_read (sector * 512) (nb * 512))) v) in
    ground (arith, v.connects, offset, size, got_part, goes)
