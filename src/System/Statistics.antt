-- ===== src/System/Statistics.antt =====
-- The process as its clients and its administrator see it.
use sa_wa.Base.{
  ℕ, ◌+◌, ◌*◌, ◌^◌, ◌≡◌, ◌<◌, refl, sym, ap, ◌∙◌, subst, true, some, List, ◌++◌, nonneg, length,
  arith,
}
use mathlib.Core.Option.{some-injective}
use sa_wa.Bytes.{bytes_of_u32}
use sa_wa.Storage.{FileOps}
use sa_wa.Thread.{Ptr, ConnectionThread}
use sa_wa.Pool.{
  Heap, released, ThreadPool, thread_pool, load, update, release_thread, get_thread_statistics,
  sizeof_stat,
}
use sa_wa.Pool.Stats.{
  entries, records, Threads, records-Threads, length-records, get_thread_statistics-entries,
}
use sa_wa.Pool.Totals.{total, total_at, total-records}
use sa_wa.Sawa.Protocol.{Request, AreRequests, frames, answers, Healthy}
use sa_wa.Sawa.Serving.{read_data-answers}
use sa_wa.System.{
  Process, session, serve, hang_up, connection_handler, Run, begin, accept, serves, finish,
}
use sa_wa.System.Tally.{count_of, count_of_append, answers_append, requests, Tallied, tally-Tallied}
use sa_wa.Pool.Chains.{load-update_self}
use sa_wa.System.Inventory.{
  Counted, Counted-counts, thread_pool-Counted, accept-Counted, update-Counted, release-Counted,
  three_counters,
}

module _ (F : FileOps) (ok : Healthy F) where
  -- The disk behind the requests of the log, from that of the first process.
  abbrev disk_after : Process F → List Request → List ℕ
  disk_after first log = (answers first.nb_sectors (F.contents first.fp) log).0

  pub record Consistent (first : Process F) (n : ℕ) (log : List Request) (proc : Process F)
      : Type 0 where
    pub counted : Counted proc.pool n (λ i. count_of i log)
    pub sectors_eq : proc.nb_sectors ≡ first.nb_sectors
    pub disk_eq : F.contents proc.fp ≡ disk_after first log
    pub full : length (F.contents proc.fp) ≡ proc.nb_sectors * 512
    pub fits : proc.nb_sectors * 512 < 2 ^ 32

  -- What a thread with a connection does with requests.
  pub record Replied (first : Process F) (n : ℕ) (log rs : List Request) (proc' : Process F)
      (output : List ℕ) : Type 0 where
    pub reply_eq : output ≡ (answers first.nb_sectors (disk_after first log) rs).1
    pub consistent : Consistent first n (log ++ rs) proc'

  serve-Replied :
      (first : Process F) (n : ℕ) (log : List Request) (proc : Process F)
      → Consistent first n log proc
      → (stale : ℕ → ℕ → ℕ) (p : Ptr) (t : ConnectionThread) (rs : List Request)
      → load proc.pool.heap p ≡ some t
      → nonneg t.client_sock ≡ true
      → AreRequests rs
      → (proc' : Process F) × (output : List ℕ) × (serve F stale proc p (frames rs)
          ≡ some (proc', output))
        × Replied first n log rs proc' output
  unfolding serve
  serve-Replied first n log proc c stale p t rs l b v =
      let (s', e, served) =
        read_data-answers F ok stale (session F proc t) rs (record { full = c.full; fits = c.fits })
          v in
      let same : answers proc.nb_sectors (F.contents proc.fp) rs
          ≡ answers first.nb_sectors (disk_after first log) rs =
        ap (λ k. answers k (F.contents proc.fp) rs) c.sectors_eq
        ∙ ap (λ d. answers first.nb_sectors d rs) c.disk_eq in
      let pool' : ThreadPool = record proc.pool {
        heap = update proc.pool.heap p (some s'.thread);
      } in
      let tallied : Tallied (λ i. count_of i rs) t s'.thread =
        subst (Tallied (λ i. count_of i rs) t) (sym served.thread_eq) (
          tally-Tallied rs t
            (three_counters proc.pool n (λ i. count_of i log) c.counted p t l b)) in
      let disk : F.contents s'.fp ≡ disk_after first (log ++ rs) =
        served.disk_eq
        ∙ ap (λ x. x.0) same
        ∙ sym (answers_append first.nb_sectors (F.contents first.fp) log rs) in
      (
        record proc { pool = pool'; fp = s'.fp },
        s'.output,
        rw (l, e) refl,
        record {
          reply_eq = served.output_eq ∙ ap (λ x. x.1) same;
          consistent = record {
            counted =
                Counted-counts pool' n (λ i. count_of i log + count_of i rs)
                  (λ i. count_of i (log ++ rs)) (λ i. sym (count_of_append i log rs))
                  (update-Counted proc.pool n (λ i. count_of i log) c.counted p t l b
                    (λ i. count_of i rs) s'.thread tallied);
            sectors_eq = c.sectors_eq;
            disk_eq = disk;
            full = served.still.full ∙ ap (λ k. k * 512) served.sectors_eq;
            fits = c.fits;
          };
        },
      )

  hang_up-Consistent :
      (first : Process F) (n : ℕ) (log : List Request) (proc proc' : Process F)
      → Consistent first n log proc
      → (p : Ptr) (t : ConnectionThread) → load proc.pool.heap p ≡ some t
      → nonneg t.client_sock ≡ true
      → hang_up F proc p ≡ some proc'
      → Consistent first n log proc'
  unfolding hang_up release_thread
  hang_up-Consistent first n log proc proc' c p t l b h =
      let pool' : ThreadPool = released proc.pool p t in
      let e : release_thread proc.pool p ≡ some pool' = rw l refl in
      let done : hang_up F proc p ≡ some (record proc { pool = pool' }) = rw l refl in
      subst (Consistent first n log)
        (some-injective (record proc { pool = pool' }) proc' (sym done ∙ h))
        (record {
          counted = release-Counted proc.pool n (λ i. count_of i log) c.counted p t l b pool' e;
          sectors_eq = c.sectors_eq;
          disk_eq = c.disk_eq;
          full = c.full;
          fits = c.fits;
        })

  module _ (first : Process F) (no_threads : first.pool ≡ thread_pool)
      (full : length (F.contents first.fp) ≡ first.nb_sectors * 512)
      (fits : first.nb_sectors * 512 < 2 ^ 32) where
    Run-Consistent :
        {n : ℕ} {log : List Request} {proc : Process F}
        → Run F first n log proc
        → Consistent first n log proc
    unfolding answers count_of
    Run-Consistent (begin e) = rw e record {
      counted = subst (λ x. Counted x 0 (λ i. 0)) (sym no_threads) thread_pool-Counted;
      sectors_eq = refl;
      disk_eq = refl;
      full = full;
      fits = fits;
    }
    Run-Consistent (accept {n} {log} {proc} fresh sock pool' run ne unused sock_ok h e) =
        let c = Run-Consistent run in
        rw e record {
          counted =
              accept-Counted proc.pool n (λ i. count_of i log) c.counted fresh sock pool' ne unused
                sock_ok h;
          sectors_eq = c.sectors_eq;
          disk_eq = c.disk_eq;
          full = c.full;
          fits = c.fits;
        }
    Run-Consistent (serves {n} {log} {log'} {proc} {proc'} stale p t rs output run l b v h e) =
        let (q, out, e', replied) =
          serve-Replied first n log proc (Run-Consistent run) stale p t rs l b v in
        rw e (
          subst (Consistent first n (log ++ rs))
            (ap (λ x. x.0) (some-injective (q, out) (proc', output) (sym e' ∙ h)))
            replied.consistent)
    Run-Consistent (finish {n} {log} {proc} {proc'} p t run l b h) =
        hang_up-Consistent first n log proc proc' (Run-Consistent run) p t l b h

    -- In a run from a process without threads, on a well-formed disk and a stream whose calls do not
    -- fail, a thread with a connection that receives requests of the protocol answers each as the
    -- protocol promises for the disk that the requests served before have left, whichever connections
    -- they came over, and leaves the disk that the protocol says.
    pub serve-answers :
        {n : ℕ} {log : List Request} {proc : Process F}
        → Run F first n log proc
        → (stale : ℕ → ℕ → ℕ) (p : Ptr) (t : ConnectionThread) (rs : List Request)
        → load proc.pool.heap p ≡ some t
        → nonneg t.client_sock ≡ true
        → AreRequests rs
        → (proc' : Process F) × (output : List ℕ) × (serve F stale proc p (frames rs)
            ≡ some (proc', output))
          × (output
              ≡ (answers first.nb_sectors
                  (answers first.nb_sectors (F.contents first.fp) log).0
                  rs).1)
          × (F.contents proc'.fp ≡ (answers first.nb_sectors (F.contents first.fp) (log ++ rs)).0)
    serve-answers {n} {log} {proc} run stale p t rs l b v =
        let (proc', output, e, replied) =
          serve-Replied first n log proc (Run-Consistent run) stale p t rs l b v in
        (proc', output, e, replied.reply_eq, replied.consistent.disk_eq)

    -- At every point of such a run the statistics that STAT reports are defined: one entry for each
    -- thread on the pool's chain of all threads, as many as it has created, whose connections add
    -- up to those that arrived, and whose INFO, READ and WRITE requests add up to those served.
    pub get_thread_statistics-totals :
        {n : ℕ} {log : List Request} {proc : Process F}
        → Run F first n log proc
        → (ts : List ConnectionThread) × (get_thread_statistics proc.pool
            ≡ some (bytes_of_u32 (proc.pool.thread_nb * sizeof_stat) ++ entries ts))
          × (length ts ≡ proc.pool.thread_nb)
          × Threads proc.pool.heap proc.pool.all_threads ts
          × (total (λ t. t.nb_connections) ts ≡ n)
          × (total (requests 0) ts ≡ count_of 0 log)
          × (total (requests 1) ts ≡ count_of 1 log)
          × (total (requests 2) ts ≡ count_of 2 log)
    get_thread_statistics-totals {n} {log} {proc} run =
        let c = (Run-Consistent run).counted in
        let sum : (f : ConnectionThread → ℕ)
            → total f (records proc.pool.heap proc.pool.all_threads c.all c.inv.all_chain)
              ≡ total_at f proc.pool.heap c.all =
          λ f. total-records f proc.pool.heap proc.pool.all_threads c.all c.inv.all_chain in
        (
          records proc.pool.heap proc.pool.all_threads c.all c.inv.all_chain,
          get_thread_statistics-entries proc.pool c.all c.idle c.inv,
          length-records proc.pool.heap proc.pool.all_threads c.all c.inv.all_chain
              ∙ sym c.inv.counted,
          records-Threads proc.pool.heap proc.pool.all_threads c.all c.inv.all_chain,
          sum (λ t. t.nb_connections) ∙ c.connections_eq,
          sum (requests 0) ∙ c.requests_eq 0 (omega arith),
          sum (requests 1) ∙ c.requests_eq 1 (omega arith),
          sum (requests 2) ∙ c.requests_eq 2 (omega arith),
        )

    -- A round of connection_handler over requests of the protocol is defined, and is the service of
    -- these requests followed by the end of the connection.
    pub connection_handler-Run :
        {n : ℕ} {log : List Request} {proc : Process F}
        → Run F first n log proc
        → (stale : ℕ → ℕ → ℕ) (p : Ptr) (t : ConnectionThread) (rs : List Request)
        → load proc.pool.heap p ≡ some t
        → nonneg t.client_sock ≡ true
        → AreRequests rs
        → (proc' : Process F) × (output : List ℕ) × (connection_handler F stale proc p (frames rs)
            ≡ some (proc', output))
          × Run F first n (log ++ rs) proc'
    unfolding connection_handler serve hang_up release_thread
    connection_handler-Run {n} {log} {proc} run stale p t rs l b v =
        let c = Run-Consistent run in
        let (s', e, served) =
          read_data-answers F ok stale (session F proc t) rs
            (record { full = c.full; fits = c.fits }) v in
        let tallied =
          tally-Tallied rs t (three_counters proc.pool n (λ i. count_of i log) c.counted p t l b) in
        let busy : nonneg s'.thread.client_sock ≡ true =
          ap (λ (u : ConnectionThread). nonneg u.client_sock) served.thread_eq
          ∙ ap nonneg tallied.sock_eq
          ∙ b in
        let heap' : Heap = update proc.pool.heap p (some s'.thread) in
        let pool' : ThreadPool = record proc.pool { heap = heap' } in
        let proc₁ : Process F = record proc { pool = pool'; fp = s'.fp } in
        let there : load heap' p ≡ some s'.thread =
          load-update_self proc.pool.heap p (some s'.thread) in
        let proc₂ : Process F = record proc₁ { pool = released pool' p s'.thread } in
        let served_all : serve F stale proc p (frames rs) ≡ some (proc₁, s'.output) =
          rw (l, e) refl in
        let hung_up : hang_up F proc₁ p ≡ some proc₂ = rw there refl in
        (
          proc₂,
          s'.output,
          rw (served_all, hung_up) refl,
          finish p s'.thread (serves stale p t rs s'.output run l b v served_all refl) there busy
              hung_up,
        )
