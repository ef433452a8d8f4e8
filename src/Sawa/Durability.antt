-- ===== src/Sawa/Durability.antt =====
-- What was written is read back, and what a new filesystem file holds.
use sa_wa.Base.{
  ℕ, ◌+◌, ◌*◌, ◌^◌, ◌≤◌, ◌<◌, ◌≡◌, refl, sym, ap, ◌∙◌, ◌⊎◌, inl, inr, none, some, List, [], ◌∷◌,
  ◌++◌, arith, length, replicate, length-replicate, leb, le→leb, append_assoc, append-nil, take,
  Bool-cases,
}
use sa_wa.Storage.{
  FileOps, read_at, write_at, read_at-write_at, read_at-write_at_before, drop-write_at_after,
  length-write_at, write_at_empty,
}
use sa_wa.Thread.{ConnectionThread}
use sa_wa.Sawa.{Session, default_sectors, get_filesystem_file, sawa_server, read_data, msg_ok}
use sa_wa.Sawa.Protocol.{
  Request, info, read, write, AreRequests, answer, answers, frames, IsDisk, Healthy,
}
use sa_wa.Sawa.Serving.{read_data-answers, length-answer}

-- The request writes nothing into the range.
abbrev pub Spares : ℕ → ℕ → Request → Type 0
Spares offset size info = Unit {0}
Spares offset size (read _ _) = Unit {0}
Spares offset size (write at bytes) = (at + length bytes ≤ offset) ⊎ (offset + size ≤ at)

abbrev pub AllSpare : ℕ → ℕ → List Request → Type 0
AllSpare offset size [] = Unit {0}
AllSpare offset size (r ∷ rs) = Spares offset size r × AllSpare offset size rs

read_at-spared :
    (offset size at : ℕ) (bytes disk : List ℕ)
    → at + length bytes ≤ length disk
    → Spares offset size (write at bytes)
    → read_at offset size (write_at at bytes disk) ≡ read_at offset size disk
read_at-spared offset size at bytes disk h (inl before) =
    ap (take size) (drop-write_at_after offset at bytes disk before (omega arith))
read_at-spared offset size at bytes disk h (inr behind) =
    read_at-write_at_before offset size at bytes disk behind (omega arith)

module _ (offset size nb : ℕ) where
  read_at-answer :
      (disk : List ℕ) (r : Request)
      → length disk ≡ nb * 512
      → Spares offset size r
      → read_at offset size (answer nb disk r).0 ≡ read_at offset size disk
  unfolding answer
  read_at-answer disk info h v = refl
  read_at-answer disk (read at n) h v = ground arith
  read_at-answer disk (write at bytes) h v =
      elim (Bool-cases (leb (at + length bytes) (nb * 512))) [
        | inl inside ↦ rw inside (read_at-spared offset size at bytes disk (ground arith) v)
        | inr outside ↦ rw outside
      ]

  -- The replies end with the range as it was in the beginning.
  read_last :
      (disk : List ℕ) (rs : List Request)
      → length disk ≡ nb * 512
      → AllSpare offset size rs
      → offset + size ≤ nb * 512
      → (answers nb disk (rs ++ read offset size ∷ [])).1
        ≡ (answers nb disk rs).1 ++ read_at offset size disk
  unfolding answers answer
  read_last disk [] h v k =
      rw (le→leb (offset + size) (nb * 512) k) (append-nil (read_at offset size disk))
  read_last disk (r ∷ rs) h v k =
      ap (◌++◌ (answer nb disk r).1)
        (read_last (answer nb disk r).0 rs (length-answer nb disk r h) v.1 k)
      ∙ rw (read_at-answer disk r h v.0) (
          sym (
            append_assoc (answer nb disk r).1 (answers nb (answer nb disk r).0 rs).1
              (read_at offset size disk)))

default_sectors_lem : default_sectors ≡ 2048
unfolding default_sectors
default_sectors_lem = refl

module _ (F : FileOps) where
  -- On one connection that delivers whole messages, to a server whose disk is well formed and whose
  -- stream calls do not fail: bytes written to a range inside the disk, in a message of at most
  -- 32768 bytes, are what a later read of that range replies with, behind the replies to any
  -- requests of the protocol in between, whose ranges do not wrap, that spare the range.
  pub read_data-write_read :
      Healthy F
      → (stale : ℕ → ℕ → ℕ) (s : Session F) (offset : ℕ) (bytes : List ℕ) (rs : List Request)
      → IsDisk F s
      → offset + length bytes ≤ s.nb_sectors * 512
      → AllSpare offset (length bytes) rs
      → AreRequests (write offset bytes ∷ (rs ++ read offset (length bytes) ∷ []))
      → (s' : Session F) × (read_data F stale s
            (frames (write offset bytes ∷ (rs ++ read offset (length bytes) ∷ [])))
          ≡ some s')
        × (s'.output
            ≡ s.output
              ++ msg_ok
                ∷ ((answers s.nb_sectors (write_at offset bytes (F.contents s.fp)) rs).1 ++ bytes))
  unfolding answers answer
  read_data-write_read ok stale s offset bytes rs d k spare v =
      let (s', e, served) =
        read_data-answers F ok stale s
          (write offset bytes ∷ (rs ++ read offset (length bytes) ∷ [])) d v in
      let disk : List ℕ = F.contents s.fp in
      let last =
        read_last offset (length bytes) s.nb_sectors (write_at offset bytes disk) rs
          (length-write_at offset bytes disk (omega (arith, d.full)) ∙ d.full) spare k in
      let back = read_at-write_at offset bytes disk in
      (
        s',
        e,
        served.output_eq
            ∙ ap (◌++◌ s.output) (
                ap
                  (λ x. x.1 ++ (answers s.nb_sectors x.0 (rs ++ read offset (length bytes) ∷ [])).1)
                  (write_inside disk)
                ∙ ap (λ reply. msg_ok ∷ reply)
                    (last
                      ∙ ap (◌++◌ (answers s.nb_sectors (write_at offset bytes disk) rs).1) back)),
      )
    where
      write_inside :
          (disk : List ℕ)
          → answer s.nb_sectors disk (write offset bytes)
            ≡ (write_at offset bytes disk, msg_ok ∷ [])
      write_inside disk = rw (le→leb (offset + length bytes) (s.nb_sectors * 512) k)

  get_filesystem_file_new :
      Healthy F
      → (fp : F.File) (nb : ℕ) → F.contents fp ≡ []
      → F.position fp ≡ 0
      → (fp' : F.File) × (get_filesystem_file F none (some fp) nb ≡ some fp')
        × (F.contents fp' ≡ replicate (nb * 512) 0)
  unfolding get_filesystem_file
  get_filesystem_file_new ok fp nb empty start = (
    _,
    refl,
    F.fwrite_contents fp (replicate (nb * 512) 0) (ok.writes fp (replicate (nb * 512) 0))
        ∙ ap (λ p. write_at p (replicate (nb * 512) 0) (F.contents fp)) start
        ∙ ap (write_at 0 (replicate (nb * 512) 0)) empty
        ∙ write_at_empty (replicate (nb * 512) 0),
  )

  -- A filesystem file that the server creates holds its 2048 sectors, all zero, and the session is
  -- well formed.
  pub sawa_server-IsDisk :
      Healthy F
      → (fp : F.File) (thread : ConnectionThread) → F.contents fp ≡ []
      → F.position fp ≡ 0
      → (s : Session F) × (sawa_server F none (some fp) thread ≡ some s)
        × IsDisk F s
        × (s.nb_sectors ≡ 2048)
        × (F.contents s.fp ≡ replicate (s.nb_sectors * 512) 0)
  unfolding sawa_server
  sawa_server-IsDisk ok fp thread empty start =
      let (fp', e, zeros) = get_filesystem_file_new ok fp default_sectors empty start in
      (
        record { nb_sectors = default_sectors; fp = fp'; thread = thread; output = [] },
        rw e,
        record {
          full = ap length zeros ∙ length-replicate (default_sectors * 512) 0;
          fits = default_sectors_fit;
        },
        sectors,
        zeros,
      )
    where
      sectors : default_sectors ≡ 2048
      sectors = default_sectors_lem

      default_sectors_fit : default_sectors * 512 < 2 ^ 32
      default_sectors_fit = omega (arith, default_sectors_lem)
