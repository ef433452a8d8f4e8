-- ===== src/Sawa/Serving.antt =====
-- The loop of readData: a connection that sends protocol requests, and how it ends.
use sa_wa.Base.{
  ℕ, suc, ◌+◌, ◌*◌, ◌≤◌, ◌<◌, ◌≡◌, refl, sym, ap, ◌∙◌, some, List, [], ◌∷◌, ◌++◌, arith, length,
  le→ltb, append_assoc, append-nil,
}
use sa_wa.Bytes.{bytes_of_u32, load_u32, u32_of_bytes_lem, fill-exact}
use sa_wa.Storage.{FileOps, Recv, got, length-write_at}
use sa_wa.Sawa.{Session, announced, receive, read_data, process_request}
use sa_wa.Sawa.Protocol.{
  Request, info, read, write, encode, IsRequest, AreRequests, answer, answers, frames, IsDisk,
  Healthy,
}
use sa_wa.Thread.{ConnectionThread, update_screen}
use sa_wa.Sawa.Refinement.{Answered, column, process_request-answer}

-- The message of a request has from 1 to 32768 bytes.
pub length-encode :
    (r : Request) → IsRequest r → (n : ℕ) × (length (encode r) ≡ suc n) × (n < 32768)
unfolding encode bytes_of_u32
length-encode info v = (0, refl, omega arith)
length-encode (read offset size) v = (8, refl, omega arith)
length-encode (write offset bytes) v = (4 + length bytes, omega arith, omega arith)

pub announced-header : (n : ℕ) → n ≤ 32768 → announced (got (bytes_of_u32 n)) ≡ some n
unfolding announced load_u32 bytes_of_u32
announced-header n h = rw (u32_of_bytes_lem n (omega arith), le→ltb 32768 n h)

-- A request keeps the disk's size.
pub length-answer :
    (nb : ℕ) (disk : List ℕ) (r : Request)
    → length disk ≡ nb * 512
    → length (answer nb disk r).0 ≡ nb * 512
unfolding answer
length-answer nb disk info h = h
length-answer nb disk (read offset size) h = ground arith
length-answer nb disk (write offset bytes) h = ground (arith, length-write_at offset bytes disk)

-- The thread's record with the requests counted in their columns.
unfoldable pub tally : List Request → ConnectionThread → ConnectionThread
tally [] t = t
tally (r ∷ rs) t = tally rs (update_screen t (column r))

module _ (F : FileOps) where
  Answered-IsDisk : (s s' : Session F) (r : Request) → IsDisk F s → Answered F s r s' → IsDisk F s'
  Answered-IsDisk s s' r d a = record {
    full =
        ap length a.disk_eq
        ∙ length-answer s.nb_sectors (F.contents s.fp) r d.full
        ∙ ap (λ n. n * 512) (sym a.sectors_eq);
    fits = omega (arith, a.sectors_eq);
  }

  -- `s'` is `s` after the requests, answered in order and counted.
  pub record Served (s : Session F) (rs : List Request) (s' : Session F) : Type 0 where
    pub disk_eq : F.contents s'.fp ≡ (answers s.nb_sectors (F.contents s.fp) rs).0
    pub output_eq : s'.output ≡ s.output ++ (answers s.nb_sectors (F.contents s.fp) rs).1
    pub thread_eq : s'.thread ≡ tally rs s.thread
    pub sectors_eq : s'.nb_sectors ≡ s.nb_sectors
    pub still : IsDisk F s'

  Served-cons :
      (s s₁ s₂ : Session F) (r : Request) (rs : List Request)
      → Answered F s r s₁
      → Served s₁ rs s₂
      → Served s (r ∷ rs) s₂
  unfolding answers tally
  Served-cons s s₁ s₂ r rs a b = record {
    disk_eq = b.disk_eq ∙ ap (λ x. x.0) same;
    output_eq =
        b.output_eq ∙ ap (◌++◌ s₁.output) (ap (λ x. x.1) same) ∙ rw (a.output_eq, append_assoc);
    thread_eq = b.thread_eq ∙ ap (tally rs) a.thread_eq;
    sectors_eq = b.sectors_eq ∙ a.sectors_eq;
    still = b.still;
  }
    where
      same :
          answers s₁.nb_sectors (F.contents s₁.fp) rs
          ≡ answers s.nb_sectors (answer s.nb_sectors (F.contents s.fp) r).0 rs
      same =
          ap (λ n. answers n (F.contents s₁.fp) rs) a.sectors_eq
          ∙ ap (λ disk. answers s.nb_sectors disk rs) a.disk_eq

  serve_one :
      (stale : ℕ → ℕ → ℕ) (s s' : Session F) (r : Request) (rest : List Recv)
      → IsRequest r
      → process_request F (stale (length rest)) s (encode r) (length (encode r)) ≡ some s'
      → read_data F stale s (got (bytes_of_u32 (length (encode r))) ∷ got (encode r) ∷ rest)
        ≡ read_data F stale s' rest
  unfolding read_data receive
  serve_one stale s s' r rest v done =
      let (n, e, h) = length-encode r v in
      let size = announced-header (length (encode r)) (omega arith) ∙ ap some e in
      let whole = fill-exact (stale (length rest)) (suc n) (encode r) e in
      rw (size, read_data, whole, ← e, done)

  -- On a connection that delivers whole messages, the server answers each request in turn as the
  -- protocol promises and counts it in its column, stays well formed, and stops when the connection closes.
  pub read_data-answers :
      Healthy F
      → (stale : ℕ → ℕ → ℕ) (s : Session F) (rs : List Request) → IsDisk F s
      → AreRequests rs
      → (s' : Session F) × (read_data F stale s (frames rs) ≡ some s') × Served s rs s'
  unfolding frames answers read_data tally
  read_data-answers ok stale s [] d v = (
    s,
    refl,
    record {
      disk_eq = refl;
      output_eq = sym (append-nil s.output);
      thread_eq = refl;
      sectors_eq = refl;
      still = d;
    },
  )
  read_data-answers ok stale s (r ∷ rs) d v =
      let (s₁, e₁, a) = process_request-answer F ok s d (stale (length (frames rs))) r v.0 in
      let (s₂, e₂, served) = read_data-answers ok stale s₁ rs (Answered-IsDisk s s₁ r d a) v.1 in
      (s₂, serve_one stale s s₁ r (frames rs) v.0 e₁ ∙ e₂, Served-cons s s₁ s₂ r rs a served)
