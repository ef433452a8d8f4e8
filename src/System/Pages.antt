-- ===== src/System/Pages.antt =====
-- The web server's process: what it writes over all its connections, and what it counts.
use sa_wa.Base.{
  ℕ, ◌+◌, ◌*◌, ◌≡◌, refl, sym, ap, ◌∙◌, subst, true, none, some, List, [], ◌++◌, nonneg, length,
  arith,
}
use mathlib.Core.Option.{some-injective, none-ne-some}
use sa_wa.Bytes.{bytes_of_u32}
use sa_wa.Storage.{Recv}
use sa_wa.Thread.{Ptr, ConnectionThread}
use sa_wa.Pool.{
  ThreadPool, released, load, update, release_thread, get_thread_statistics, sizeof_stat,
}
use sa_wa.Pool.Chains.{load-update_self}
use sa_wa.Pool.Stats.{
  entries, records, Threads, records-Threads, length-records, get_thread_statistics-entries,
}
use sa_wa.Pool.Totals.{total, total_at, total-records}
use sa_wa.Http.Files.{FileSystem}
use sa_wa.Http.Serve.{http_200_col, http_404_col, http_500_col, Environment}
use sa_wa.Http.Caching.{Every, FromDisk}
use sa_wa.Http.Reading.{IsServer, read_http_data-Responses}
use sa_wa.System.Tally.{requests}
use sa_wa.System.Inventory.{
  Counted, Counted-counts, thread_pool-Counted, accept-Counted, update-Counted, release-Counted,
  three_counters,
}
use sa_wa.System.Replies.{
  Reply, bytes_of, bytes_of_append, replies_in, replies_in_append, Responses-Wrote,
}
use sa_wa.System.Web.{
  WebProcess, connection_of, serve_pages, web_handler, WebRun, opens, arrives, handles,
}

empty-Every : (stale : ℕ → ℕ) (files : FileSystem) → Every (FromDisk stale files) (λ path. none)
unfolding Every
empty-Every stale files p f h = absurd (none-ne-some f h)

module _ (env : Environment) (v : IsServer env) where
  -- What holds at every point of a run.
  record Orderly (n : ℕ) (written : List ℕ) (proc : WebProcess) : Type 0 where
    replies : List Reply
    written_eq : written ≡ bytes_of replies
    counted : Counted proc.pool n (λ i. replies_in i replies)
    cached : Every (FromDisk env.stale env.files) proc.cache

  -- What a round of connection_handler leaves.
  record Handled (n : ℕ) (written : List ℕ) (proc : WebProcess) (p : Ptr) (reads : List Recv)
      : Type 0 where
    proc' : WebProcess
    output : List ℕ
    replies : List Reply
    runs : web_handler env proc p reads ≡ some (proc', output)
    output_eq : output ≡ bytes_of replies
    orderly : Orderly n (written ++ output) proc'

  web_handler-Handled :
      (n : ℕ) (written : List ℕ) (proc : WebProcess)
      → Orderly n written proc
      → (p : Ptr) (t : ConnectionThread) (reads : List Recv) → load proc.pool.heap p ≡ some t
      → nonneg t.client_sock ≡ true
      → Handled n written proc p reads
  unfolding web_handler serve_pages release_thread
  web_handler-Handled n written proc o p t reads l b =
      let (s', e, responses, cached) =
        read_http_data-Responses env (connection_of proc t) none reads v o.cached in
      let counts : ℕ → ℕ = λ i. replies_in i o.replies in
      let w =
        Responses-Wrote (connection_of proc t) s' responses
          (three_counters proc.pool n counts o.counted p t l b) in
      let pool₁ : ThreadPool = record proc.pool {
        heap = update proc.pool.heap p (some s'.thread);
      } in
      let there : load pool₁.heap p ≡ some s'.thread =
        load-update_self proc.pool.heap p (some s'.thread) in
      let counted₁ : Counted pool₁ n (λ i. counts i + replies_in i w.replies) =
        update-Counted proc.pool n counts o.counted p t l b (λ i. replies_in i w.replies) s'.thread
          w.tallied in
      let pool₂ : ThreadPool = released pool₁ p s'.thread in
      record {
        proc' = record { pool = pool₂; cache = s'.cache };
        output = s'.output;
        replies = w.replies;
        runs = rw (l, e, there) refl;
        output_eq = w.output_eq;
        orderly = record {
          replies = o.replies ++ w.replies;
          written_eq =
              ap (λ x. x ++ s'.output) o.written_eq
              ∙ ap (λ x. bytes_of o.replies ++ x) w.output_eq
              ∙ sym (bytes_of_append o.replies w.replies);
          counted =
              Counted-counts pool₂ n (λ i. counts i + replies_in i w.replies)
                (λ i. replies_in i (o.replies ++ w.replies))
                (λ i. sym (replies_in_append i o.replies w.replies))
                (release-Counted pool₁ n (λ i. counts i + replies_in i w.replies) counted₁ p
                  s'.thread there (ap nonneg w.tallied.sock_eq ∙ b) pool₂ (rw there refl));
          cached = cached;
        };
      }

  WebRun-Orderly :
      {n : ℕ} {written : List ℕ} {proc : WebProcess}
      → WebRun env n written proc
      → Orderly n written proc
  unfolding bytes_of replies_in
  WebRun-Orderly (opens e) = rw e record {
    replies = [];
    written_eq = refl;
    counted = thread_pool-Counted;
    cached = empty-Every env.stale env.files;
  }
  WebRun-Orderly (arrives {n} {written} {proc} fresh sock pool' run ne unused sock_ok h e) =
      let o = WebRun-Orderly run in
      rw e record {
        replies = o.replies;
        written_eq = o.written_eq;
        counted =
            accept-Counted proc.pool n (λ i. replies_in i o.replies) o.counted fresh sock pool' ne
              unused sock_ok h;
        cached = o.cached;
      }
  WebRun-Orderly (handles {n} {written} {written'} {proc} {proc'} p t reads output run l b h e) =
      let d = web_handler-Handled n written proc (WebRun-Orderly run) p t reads l b in
      let same : (d.proc', d.output) ≡ (proc', output) =
        some-injective (d.proc', d.output) (proc', output) (sym d.runs ∙ h) in
      rw e (subst (λ x. Orderly n (written ++ x.1) x.0) same d.orderly)

  -- At every point of a run of the web server's process, in which connections arrive and are
  -- handled one at a time in any order and whatever their reads answer, without Java classes, where
  -- files open and are smaller than 2 GB, the search for the regular expression gives four
  -- submatches and takes a character at least, and pointers hold a 0 byte: what the threads have
  -- written is whole responses, and the statistics that STAT reports are defined, one entry for
  -- each thread on the pool's chain of all threads, as many as it has created, whose connections
  -- add up to those that arrived, and whose three columns add up to the pages, the missing files
  -- and the errors among these responses.
  pub WebRun-totals :
      {n : ℕ} {written : List ℕ} {proc : WebProcess}
      → WebRun env n written proc
      → (replies : List Reply) × (ts : List ConnectionThread) × (written ≡ bytes_of replies)
        × (get_thread_statistics proc.pool
            ≡ some (bytes_of_u32 (proc.pool.thread_nb * sizeof_stat) ++ entries ts))
        × (length ts ≡ proc.pool.thread_nb)
        × Threads proc.pool.heap proc.pool.all_threads ts
        × (total (λ t. t.nb_connections) ts ≡ n)
        × (total (requests http_200_col) ts ≡ replies_in http_200_col replies)
        × (total (requests http_404_col) ts ≡ replies_in http_404_col replies)
        × (total (requests http_500_col) ts ≡ replies_in http_500_col replies)
  WebRun-totals {n} {written} {proc} run =
      let o = WebRun-Orderly run in
      let c = o.counted in
      let sum : (f : ConnectionThread → ℕ)
          → total f (records proc.pool.heap proc.pool.all_threads c.all c.inv.all_chain)
            ≡ total_at f proc.pool.heap c.all =
        λ f. total-records f proc.pool.heap proc.pool.all_threads c.all c.inv.all_chain in
      (
        o.replies,
        records proc.pool.heap proc.pool.all_threads c.all c.inv.all_chain,
        o.written_eq,
        get_thread_statistics-entries proc.pool c.all c.idle c.inv,
        length-records proc.pool.heap proc.pool.all_threads c.all c.inv.all_chain
            ∙ sym c.inv.counted,
        records-Threads proc.pool.heap proc.pool.all_threads c.all c.inv.all_chain,
        sum (λ t. t.nb_connections) ∙ c.connections_eq,
        sum (requests 0) ∙ c.requests_eq 0 (omega arith),
        sum (requests 1) ∙ c.requests_eq 1 (omega arith),
        sum (requests 2) ∙ c.requests_eq 2 (omega arith),
      )

  -- At every point of such a run, a thread with a connection handles it without undefined behaviour,
  -- whatever its reads answer, writes whole responses, and the run goes on from there.
  pub web_handler-WebRun :
      {n : ℕ} {written : List ℕ} {proc : WebProcess}
      → WebRun env n written proc
      → (p : Ptr) (t : ConnectionThread) (reads : List Recv) → load proc.pool.heap p ≡ some t
      → nonneg t.client_sock ≡ true
      → (proc' : WebProcess) × (output : List ℕ) × (replies : List Reply) × (web_handler env proc p
            reads
          ≡ some (proc', output))
        × (output ≡ bytes_of replies)
        × WebRun env n (written ++ output) proc'
  web_handler-WebRun {n} {written} {proc} run p t reads l b =
      let d = web_handler-Handled n written proc (WebRun-Orderly run) p t reads l b in
      (
        d.proc',
        d.output,
        d.replies,
        d.runs,
        d.output_eq,
        handles p t reads d.output run l b d.runs refl,
      )
