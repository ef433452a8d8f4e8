-- ===== src/Driver/RoundTrip.antt =====
-- The driver against the file server: sectors that are written and read back, each over its own
-- connection.
use sa_wa.Base.{
  ℕ, ◌+◌, ◌*◌, ◌≤◌, ◌<◌, ◌≡◌, refl, sym, ap, ◌∙◌, true, false, some, List, [], ◌∷◌, ◌++◌, pos, drop,
  length, arith, append-nil, le→leb, drop-all,
}
use sa_wa.Bytes.{bytes_of_u32}
use sa_wa.Storage.{FileOps, read_at, write_at, read_at-write_at, length-write_at}
use sa_wa.Sawa.{Session, read_data, msg_ok}
use sa_wa.Sawa.Protocol.{Request, read, write, IsRequest, answer, answers, frames, IsDisk, Healthy}
use sa_wa.Sawa.Serving.{read_data-answers}
use sa_wa.Client.Commands.{framed}
use sa_wa.Client.EndToEnd.{two_reads}
use sa_wa.Driver.Tcp.{delivered, tcp_client_receive}
use sa_wa.Driver.Queue.{blockdev_transfer}
use sa_wa.Driver.Network.{Kernel, Done}
use sa_wa.Driver.Disk.{Online, sawa_write_data-framed, sawa_read_data-part}

-- What the server makes of the bytes of one request on a connection.
two_reads-frames : (r : Request) → two_reads (framed r) ≡ frames (r ∷ [])
unfolding framed frames bytes_of_u32
two_reads-frames r = refl

module _ (nb at : ℕ) where
  answer_write :
      (bytes disk : List ℕ)
      → at + length bytes ≤ nb * 512
      → answer nb disk (write at bytes) ≡ (write_at at bytes disk, msg_ok ∷ [])
  unfolding answer
  answer_write bytes disk h = rw (le→leb (at + length bytes) (nb * 512) h) refl

  answer_read :
      (size : ℕ) (disk : List ℕ)
      → at + size ≤ nb * 512
      → answer nb disk (read at size) ≡ (disk, read_at at size disk)
  unfolding answer
  answer_read size disk h = rw (le→leb (at + size) (nb * 512) h) refl

module _ (F : FileOps) where
  one_request :
      Healthy F
      → (stale : ℕ → ℕ → ℕ) (s : Session F) (r : Request) → IsDisk F s
      → IsRequest r
      → (s' : Session F) × (read_data F stale s (two_reads (framed r)) ≡ some s')
        × (F.contents s'.fp ≡ (answer s.nb_sectors (F.contents s.fp) r).0)
        × (s'.output ≡ s.output ++ (answer s.nb_sectors (F.contents s.fp) r).1)
        × IsDisk F s'
  unfolding answers
  one_request ok stale s r d v =
      let (s', e, served) = read_data-answers F ok stale s (r ∷ []) d (v, tt) in
      (
        s',
        ap (read_data F stale s) (two_reads-frames r) ∙ e,
        served.disk_eq,
        served.output_eq ∙ ap (◌++◌ s.output) (append-nil _),
        served.still,
      )

  -- Sectors inside the disk, one at least and in a message that the server takes, that the driver
  -- writes and reads back over two connections, on a kernel that sends whole and delivers the reply
  -- at once, against a server with a well-formed disk, whose reads are whole and whose stream calls
  -- do not fail, and that has served the write's connection to its end before the read's begins,
  -- which the driver does not wait for: both calls return success, the server replies with the
  -- sectors, and the caller's buffer holds them, whatever it held before.
  pub sectors_roundtrip :
      Healthy F
      → (stale₁ stale₂ : ℕ → ℕ → ℕ) (s : Session F) (k₁ k₂ : Kernel) (sector nb : ℕ)
        (buffer old : List ℕ)
      → IsDisk F s
      → 0 < nb
      → length buffer ≡ nb * 512
      → length old ≡ nb * 512
      → nb * 512 ≤ 32763
      → sector * 512 + nb * 512 ≤ s.nb_sectors * 512
      → Online k₁ (9 + nb * 512)
      → Online k₂ 13
      → (w : Done) × (r : Done) × (s₁ : Session F) × (s₂ : Session F) × (blockdev_transfer true k₁
            sector nb buffer true
          ≡ some w)
        × (w.ret ≡ pos 0)
        × (read_data F stale₁ s (two_reads w.wire) ≡ some s₁)
        × (blockdev_transfer true
              (record k₂ { receives = delivered s₂.output ∷ [] })
              sector
              nb
              old
              false
            ≡ some r)
        × (r.ret ≡ pos 0)
        × (r.buffer ≡ buffer)
        × (read_data F stale₂ (record s₁ { output = [] }) (two_reads r.wire) ≡ some s₂)
        × (s₂.output ≡ buffer)
  unfolding blockdev_transfer tcp_client_receive
  sectors_roundtrip ok stale₁ stale₂ s k₁ k₂ sector nb buffer old d some_sectors full full'
        message_fits inside v₁ v₂ =
      let at : ℕ = sector * 512 in
      let w : Done = record { ret = pos 0; wire = framed (write at buffer); buffer = buffer } in
      let (s₁, e₁, disk₁, out₁, d₁) =
        one_request ok stale₁ s (write at buffer) d (omega (arith, d.fits), omega arith) in
      let s₁' : Session F = record s₁ { output = [] } in
      let written : F.contents s₁.fp ≡ write_at at buffer (F.contents s.fp) =
        disk₁
        ∙ ap (λ x. x.0) (answer_write s.nb_sectors at buffer (F.contents s.fp) (omega arith)) in
      let size : length (write_at at buffer (F.contents s.fp)) ≡ s.nb_sectors * 512 =
        length-write_at at buffer (F.contents s.fp) (omega (arith, d.full)) ∙ d.full in
      let sectors : s₁.nb_sectors ≡ s.nb_sectors =
        omega (arith, d₁.full, ap length written, size) in
      let (s₂, e₂, disk₂, out₂, d₂) =
        one_request ok stale₂ s₁' (read at (nb * 512)) (record { full = d₁.full; fits = d₁.fits })
          (omega (arith, d.fits)) in
      let replied : s₂.output ≡ read_at at (nb * 512) (F.contents s₁.fp) =
        out₂
        ∙ ap (λ x. x.1)
            (answer_read s₁.nb_sectors at (nb * 512) (F.contents s₁.fp) (omega arith)) in
      let back : read_at at (nb * 512) (F.contents s₁.fp) ≡ buffer =
        ap (read_at at (nb * 512)) written
        ∙ ap (λ k. read_at at k (write_at at buffer (F.contents s.fp))) (sym full)
        ∙ read_at-write_at at buffer (F.contents s.fp) in
      let r : Done = record {
        ret = pos 0;
        wire = framed (read at (nb * 512));
        buffer = s₂.output ++ drop (length s₂.output) old;
      } in
      let same : s₂.output ≡ buffer = replied ∙ back in
      let k₂' : Kernel = record k₂ { receives = delivered s₂.output ∷ [] } in
      let online : Online k₂' 13 = record {
        connects = v₂.connects;
        working = v₂.working;
        enough = v₂.enough;
      } in
      (
        w,
        r,
        s₁,
        s₂,
        sawa_write_data-framed k₁ sector nb buffer (omega (arith, d.fits)) full (omega arith) v₁,
        refl,
        e₁,
        sawa_read_data-part k₂' sector nb old s₂.output (omega (arith, d.fits)) (omega arith) online
            refl (omega (arith, ap length same)),
        refl,
        ap (◌++◌ s₂.output) (drop-all (length s₂.output) old (omega (arith, ap length same)))
            ∙ append-nil s₂.output
            ∙ same,
        e₂,
        same,
      )
