-- ===== src/Client/EndToEnd.antt =====
-- The client against the server: a page written and read back over one connection.
use sa_wa.Base.{
  ℕ, ◌+◌, ◌*◌, ◌≤◌, ◌≡◌, refl, sym, ap, ◌∙◌, some, List, [], ◌∷◌, ◌++◌, pos, arith, length,
  append_assoc, take, drop,
}
use sa_wa.Bytes.{bytes_of_u32}
use sa_wa.Storage.{FileOps, Recv, got}
use sa_wa.Sawa.{Session, read_data, msg_ok}
use sa_wa.Sawa.Protocol.{Request, read, write, answers, frames, IsDisk, Healthy}
use sa_wa.Sawa.Durability.{read_data-write_read}
use sa_wa.Client.{SawaInterface, returned, thrown, send_read_cmd, send_write_cmd, write_response}
use sa_wa.Client.Commands.{
  Sent, framed, send_read_cmd_lem, send_write_cmd_page, read_result_whole, read_result_single,
}

-- The two reads by which the server takes a message off the wire.
abbrev pub two_reads : List ℕ → List Recv
two_reads wire = got (take 4 wire) ∷ got (drop 4 wire) ∷ []

-- What the client puts on the wire is what the server reads.
two_reads-append :
    (r q : Request) → two_reads (framed r) ++ two_reads (framed q) ≡ frames (r ∷ q ∷ [])
unfolding framed frames bytes_of_u32
two_reads-append r q = refl

module _ (F : FileOps) where
  -- Against a server whose disk is well formed, whose reads are whole and whose stream calls do not
  -- fail: a client that writes a page of 4096 bytes inside the disk and reads it back over one
  -- connection, and whose own reads deliver the server's replies, gets OK and then the page itself.
  pub page_roundtrip :
      Healthy F
      → (stale : ℕ → ℕ) (memory : ℕ → ℕ → ℕ) (s : Session F) (sawa : SawaInterface) (offset : ℕ)
        (page : List ℕ)
      → IsDisk F s
      → length page ≡ 4096
      → offset + 4096 ≤ s.nb_sectors * 512
      → (s' : Session F) × (sawa₁ : SawaInterface) × (sawa₂ : SawaInterface) × (read_data F memory s
            (two_reads (framed (write offset page)) ++ two_reads (framed (read offset 4096)))
          ≡ some s')
        × (s'.output ≡ s.output ++ msg_ok ∷ page)
        × (send_write_cmd stale sawa page offset (got (msg_ok ∷ [])) ≡ some (sawa₁, pos msg_ok))
        × (send_read_cmd stale sawa₁ offset 4096 (got page) ≡ some (sawa₂, returned page))
        × (sawa₂.written
            ≡ sawa.written ++ (framed (write offset page) ++ framed (read offset 4096)))
  unfolding answers write_response
  page_roundtrip ok stale memory s sawa offset page d h k =
      let (s', e, out) =
        read_data-write_read F ok memory s offset page [] d (omega arith) tt
          ((omega (arith, d.fits), omega arith), (omega (arith, d.fits), tt)) in
      let (sawa₁, e₁, sent₁) = send_write_cmd_page stale sawa offset page (got (msg_ok ∷ [])) h in
      let (sawa₂, e₂, sent₂) =
        send_read_cmd_lem stale sawa₁ offset 4096 (got page) (returned page)
          (read_result_whole stale sawa offset 4096 page h (omega arith)) (omega arith) in
      (
        s',
        sawa₁,
        sawa₂,
        ap (read_data F memory s)
              (two_messages ∙ ap (λ n. frames (write offset page ∷ read offset n ∷ [])) (sym h))
            ∙ e,
        out,
        e₁,
        e₂,
        sent₂.wire
            ∙ ap (λ w. w ++ framed (read offset 4096)) sent₁.wire
            ∙ append_assoc sawa.written (framed (write offset page)) (framed (read offset 4096)),
      )
    where
      two_messages :
          two_reads (framed (write offset page)) ++ two_reads (framed (read offset 4096))
          ≡ frames (write offset page ∷ read offset 4096 ∷ [])
      two_messages = two_reads-append (write offset page) (read offset 4096)

-- A read of one byte is never returned: whatever byte the server sends is thrown as an error code.
pub send_read_cmd_one_byte :
    (stale : ℕ → ℕ) (sawa : SawaInterface) (offset byte : ℕ)
    → (sawa' : SawaInterface) × (send_read_cmd stale sawa offset 1 (got (byte ∷ []))
        ≡ some (sawa', thrown byte))
      × Sent sawa (read offset 1) sawa'
send_read_cmd_one_byte stale sawa offset byte =
    send_read_cmd_lem stale sawa offset 1 (got (byte ∷ [])) (thrown byte)
      (read_result_single stale sawa offset 1 byte (omega arith)) (omega arith)
