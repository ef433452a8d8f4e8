-- ===== src/System/Web.antt =====
-- The web server as a process: connection_handler of server/thread_pool.cpp joins the pool with
-- HTTPServer::readData. Connections are served one at a time, each to its end.
use sa_wa.Base.{ℕ, suc, ◌≡◌, ◌≢◌, true, Option, none, some, List, [], ◌++◌, ℤ, nonneg, ◌>>=◌}
use sa_wa.Storage.{Recv}
use sa_wa.Thread.{Ptr, null, ConnectionThread}
use sa_wa.Pool.{ThreadPool, thread_pool, load, update, release_thread, handle_new_connection}
use sa_wa.Http.Files.{Cache}
use sa_wa.Http.Serve.{Environment, Connection, read_http_data}

-- The global `pool` and the cache of the server.
pub record WebProcess : Type 0 where
  pub pool : ThreadPool
  pub cache : Cache

-- After the constructor: no threads, and nothing in the cache.
abbrev pub web_process : WebProcess
web_process = record { pool = thread_pool; cache = λ path. none }

abbrev pub connection_of : WebProcess → ConnectionThread → Connection
connection_of proc t = record { thread = t; cache = proc.cache; output = [] }

module _ (env : Environment) where
  -- What readData does for the thread at `p` with these answers of read, and what it writes.
  unfoldable pub serve_pages : WebProcess → Ptr → List Recv → Option (WebProcess × List ℕ)
  serve_pages proc p reads = do
    t ← load proc.pool.heap p
    s ← read_http_data env (connection_of proc t) none reads
    some (
      record {
        pool = record proc.pool { heap = update proc.pool.heap p (some s.thread) };
        cache = s.cache;
      },
      s.output,
    )

  -- One round of connection_handler, up to the wait for the next signal.
  unfoldable pub web_handler : WebProcess → Ptr → List Recv → Option (WebProcess × List ℕ)
  unfolding serve_pages
  web_handler proc p reads = do
    (proc', output) ← serve_pages proc p reads
    pool ← release_thread proc'.pool p
    some (record proc' { pool = pool }, output)

  -- Runs of the process from its start: connections arrive, and threads handle theirs, in any
  -- order and whatever the reads answer. A run counts the connections, and collects what the threads
  -- write.
  pub data WebRun : ℕ → List ℕ → WebProcess → Type 0 where
    opens : {proc : WebProcess} → proc ≡ web_process → WebRun 0 [] proc
    arrives :
        {n : ℕ} {written : List ℕ} {proc : WebProcess} (fresh : Ptr) (sock : ℤ) (pool' : ThreadPool)
        {proc' : WebProcess}
        → WebRun n written proc
        → fresh ≢ null
        → load proc.pool.heap fresh ≡ none
        → nonneg sock ≡ true
        → handle_new_connection fresh proc.pool sock ≡ some pool'
        → proc' ≡ record proc { pool = pool' }
        → WebRun (suc n) written proc'
    handles :
        {n : ℕ} {written written' : List ℕ} {proc proc' : WebProcess} (p : Ptr)
        (t : ConnectionThread) (reads : List Recv) (output : List ℕ)
        → WebRun n written proc
        → load proc.pool.heap p ≡ some t
        → nonneg t.client_sock ≡ true
        → web_handler proc p reads ≡ some (proc', output)
        → written' ≡ written ++ output
        → WebRun n written' proc'
