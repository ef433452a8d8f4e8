-- ===== src/Sawa/Refinement.antt =====
-- processRequest implements the protocol's promise.
use sa_wa.Base.{
  ℕ, suc, ◌+◌, ◌-◌, ◌*◌, ◌%◌, ◌^◌, ◌≤◌, ◌<◌, ◌≡◌, refl, ap, ◌∙◌, inl, inr, true, some, List, [],
  ◌∷◌, ◌++◌, arith, length, leb, le→leb, Bool-cases, take-all, length-append,
}
use sa_wa.Bytes.{
  bytes_of_u32, length-bytes_of_u32, load_u32-command, load_u32-second, fill, fill-exact,
}
use sa_wa.Storage.{FileOps, read_at, write_at, length-read_at}
use sa_wa.Thread.{update_screen}
use sa_wa.Sawa.{
  Session, msg_ok, msg_noauth, send, send_info, is_in_bounds, send_range, read_file, store_range,
  write_file, dispatch, process_request, count,
}
use sa_wa.Sawa.Protocol.{Request, info, read, write, encode, IsRequest, answer, IsDisk, Healthy}

-- The column that counts the request on the screen.
abbrev pub column : Request → ℕ
column info = 0
column (read _ _) = 1
column (write _ _) = 2

pub is_in_bounds_lem :
    (nb offset size : ℕ)
    → nb * 512 < 2 ^ 32
    → offset + size < 2 ^ 32
    → is_in_bounds nb offset size ≡ leb (offset + size) (nb * 512)
unfolding is_in_bounds
is_in_bounds_lem nb offset size fits h = ground arith

-- `s'` is `s` with another disk and a longer output.
pub record Moved (F : FileOps) (s s' : Session F) (disk reply : List ℕ) : Type 0 where
  pub disk_eq : F.contents s'.fp ≡ disk
  pub output_eq : s'.output ≡ s.output ++ reply
  pub thread_eq : s'.thread ≡ s.thread
  pub sectors_eq : s'.nb_sectors ≡ s.nb_sectors

-- `s'` is `s` with the request answered as promised, and counted.
pub record Answered (F : FileOps) (s : Session F) (r : Request) (s' : Session F) : Type 0 where
  pub disk_eq : F.contents s'.fp ≡ (answer s.nb_sectors (F.contents s.fp) r).0
  pub output_eq : s'.output ≡ s.output ++ (answer s.nb_sectors (F.contents s.fp) r).1
  pub thread_eq : s'.thread ≡ update_screen s.thread (column r)
  pub sectors_eq : s'.nb_sectors ≡ s.nb_sectors

module _ (F : FileOps) where
  counted :
      (s s' : Session F) (r : Request)
      → Moved F s s'
          (answer s.nb_sectors (F.contents s.fp) r).0
          (answer s.nb_sectors (F.contents s.fp) r).1
      → Answered F s r (count F (column r) s')
  counted s s' r m = record {
    disk_eq = m.disk_eq;
    output_eq = m.output_eq;
    thread_eq = ap (λ t. update_screen t (column r)) m.thread_eq;
    sectors_eq = m.sectors_eq;
  }

  send_range-Moved :
      (stale : ℕ → ℕ) (s : Session F) (offset size : ℕ)
      → (F.fseek s.fp offset).1 ≡ true
      → offset + size ≤ length (F.contents s.fp)
      → Moved F s
          (send_range F stale s offset size)
          (F.contents s.fp)
          (read_at offset size (F.contents s.fp))
  unfolding send_range
  send_range-Moved stale s offset size moved h = record {
    disk_eq = F.fread_contents _ size ∙ F.fseek_contents s.fp offset;
    output_eq = ap (◌++◌ s.output) (
        ap (fill stale size) got_eq
        ∙ fill-exact stale size (read_at offset size (F.contents s.fp)) len);
    thread_eq = refl;
    sectors_eq = refl;
  }
    where
      got_eq : (F.fread (F.fseek s.fp offset).0 size).1 ≡ read_at offset size (F.contents s.fp)
      got_eq =
          F.fread_bytes (F.fseek s.fp offset).0 size
          ∙ ap (λ p. read_at p size (F.contents (F.fseek s.fp offset).0))
              (F.fseek_position s.fp offset moved)
          ∙ ap (read_at offset size) (F.fseek_contents s.fp offset)

      len : length (read_at offset size (F.contents s.fp)) ≡ size
      len = length-read_at offset size (F.contents s.fp) h

  pub store_range-Moved :
      Healthy F
      → (s : Session F) (offset : ℕ) (bytes : List ℕ)
      → Moved F s
          (store_range F s bytes offset)
          (write_at offset bytes (F.contents s.fp))
          (msg_ok ∷ [])
  unfolding store_range
  store_range-Moved ok s offset bytes = rw (ok.seeks s.fp offset) record {
    disk_eq =
        F.fwrite_contents _ bytes (ok.writes _ bytes)
        ∙ ap (λ p. write_at p bytes (F.contents (F.fseek s.fp offset).0))
            (F.fseek_position s.fp offset (ok.seeks s.fp offset))
        ∙ ap (write_at offset bytes) (F.fseek_contents s.fp offset);
    output_eq = refl;
    thread_eq = refl;
    sectors_eq = refl;
  }

  module _ (ok : Healthy F) (s : Session F) (d : IsDisk F s) where
    read_file-Moved :
        (stale : ℕ → ℕ) (offset size : ℕ)
        → offset + size < 2 ^ 32
        → Moved F s
            (read_file F stale s offset size)
            (answer s.nb_sectors (F.contents s.fp) (read offset size)).0
            (answer s.nb_sectors (F.contents s.fp) (read offset size)).1
    unfolding read_file answer
    read_file-Moved stale offset size h =
        rw (is_in_bounds_lem s.nb_sectors offset size d.fits h)
          (elim (Bool-cases (leb (offset + size) (s.nb_sectors * 512))) [
            | inl inside ↦ rw inside (
                send_range-Moved stale s offset size (ok.seeks s.fp offset)
                  (ground (arith, d.full)))
            | inr outside ↦
                rw outside
                  record { disk_eq = refl; output_eq = refl; thread_eq = refl; sectors_eq = refl }
          ])

    write_file-Moved :
        (offset : ℕ) (bytes : List ℕ)
        → offset + length bytes < 2 ^ 32
        → (s' : Session F) × (write_file F s bytes offset (length bytes) ≡ some s')
          × Moved F s s'
              (answer s.nb_sectors (F.contents s.fp) (write offset bytes)).0
              (answer s.nb_sectors (F.contents s.fp) (write offset bytes)).1
    unfolding write_file answer
    write_file-Moved offset bytes h =
        rw (is_in_bounds_lem s.nb_sectors offset (length bytes) d.fits h)
          (elim (Bool-cases (leb (offset + length bytes) (s.nb_sectors * 512))) [
            | inl inside ↦
                rw
                  (
                    inside,
                    le→leb (length bytes) (length bytes) (omega arith),
                    take-all (length bytes) bytes (omega arith),
                  )
                  (_, refl, store_range-Moved ok s offset bytes)
            | inr outside ↦ rw outside (
              send F s (msg_noauth ∷ []),
              refl,
              record { disk_eq = refl; output_eq = refl; thread_eq = refl; sectors_eq = refl },
            )
          ])

    -- A request of the protocol that does not wrap is answered as the protocol promises, whatever
    -- stale memory the server allocates.
    pub process_request-answer :
        (stale : ℕ → ℕ) (r : Request)
        → IsRequest r
        → (s' : Session F) × (process_request F stale s (encode r) (length (encode r)) ≡ some s')
          × Answered F s r s'
    unfolding process_request dispatch send_info encode answer bytes_of_u32
    process_request-answer stale info v =
        (_, refl, record { disk_eq = refl; output_eq = refl; thread_eq = refl; sectors_eq = refl })
    process_request-answer stale (read offset size) v =
        rw
          (
            load_u32-command 2 offset (bytes_of_u32 size) (omega arith),
            load_u32-second 2 offset size (omega arith),
          )
          (_, refl, counted s _ (read offset size) (read_file-Moved stale offset size v))
    process_request-answer stale (write offset bytes) v =
        let (s', e, m) = write_file-Moved offset bytes v.0 in
        rw (load_u32-command 3 offset bytes (omega arith), payload, e)
          (_, refl, counted s s' (write offset bytes) m)
      where
        payload : (suc (length (bytes_of_u32 offset ++ bytes)) + 2 ^ 32 - 5) % 2 ^ 32 ≡ length bytes
        payload =
            omega (arith, length-append (bytes_of_u32 offset) bytes, length-bytes_of_u32 offset)
