-- ===== src/System.antt =====
-- The file server as a process: connection_handler of server/thread_pool.cpp joins the pool with the
-- server's loop over a connection. Requests of connections are served one at a time.
pub mod Tally
pub mod Inventory
pub mod Statistics
pub mod Web
pub mod Replies
pub mod Pages
use sa_wa.Base.{ℕ, suc, ◌≡◌, ◌≢◌, true, Option, none, some, List, [], ◌∷◌, ◌++◌, ℤ, nonneg, ◌>>=◌}
use sa_wa.Storage.{FileOps, Recv}
use sa_wa.Thread.{Ptr, null, ConnectionThread}
use sa_wa.Pool.{ThreadPool, load, update, release_thread, handle_new_connection}
use sa_wa.Sawa.{Session, read_data}
use sa_wa.Sawa.Protocol.{Request, AreRequests, frames}

module _ (F : FileOps) where
  -- The globals `pool` and `server`.
  pub record Process : Type 0 where
    pub pool : ThreadPool
    pub nb_sectors : ℕ
    pub fp : F.File

  abbrev pub session : Process → ConnectionThread → Session F
  session proc t = record { nb_sectors = proc.nb_sectors; fp = proc.fp; thread = t; output = [] }

  -- What readData does for the thread at `p` with these answers of read, and what it writes.
  unfoldable pub serve : (ℕ → ℕ → ℕ) → Process → Ptr → List Recv → Option (Process × List ℕ)
  serve stale proc p answers = do
    t ← load proc.pool.heap p
    s ← read_data F stale (session proc t) answers
    some (
      record proc {
        pool = record proc.pool { heap = update proc.pool.heap p (some s.thread) };
        fp = s.fp;
      },
      s.output,
    )

  unfoldable pub hang_up : Process → Ptr → Option Process
  hang_up proc p = do pool ← release_thread proc.pool p; some (record proc { pool = pool })

  -- One round of connection_handler, up to the wait for the next signal.
  unfoldable pub connection_handler :
      (ℕ → ℕ → ℕ) → Process → Ptr → List Recv → Option (Process × List ℕ)
  unfolding serve hang_up
  connection_handler stale proc p answers = do
    (proc', output) ← serve stale proc p answers
    proc'' ← hang_up proc' p
    some (proc'', output)

  -- Runs of the process: connections arrive, whole requests of a connection are served, and
  -- connections end, in any order. A run counts the connections, and logs the requests in the order
  -- in which they are served.
  pub data Run (first : Process) : ℕ → List Request → Process → Type 0 where
    begin : {proc : Process} → proc ≡ first → Run first 0 [] proc
    accept :
        {n : ℕ} {log : List Request} {proc : Process} (fresh : Ptr) (sock : ℤ) (pool' : ThreadPool)
        {proc' : Process}
        → Run first n log proc
        → fresh ≢ null
        → load proc.pool.heap fresh ≡ none
        → nonneg sock ≡ true
        → handle_new_connection fresh proc.pool sock ≡ some pool'
        → proc' ≡ record proc { pool = pool' }
        → Run first (suc n) log proc'
    serves :
        {n : ℕ} {log log' : List Request} {proc proc' : Process} (stale : ℕ → ℕ → ℕ) (p : Ptr)
        (t : ConnectionThread) (rs : List Request) (output : List ℕ)
        → Run first n log proc
        → load proc.pool.heap p ≡ some t
        → nonneg t.client_sock ≡ true
        → AreRequests rs
        → serve stale proc p (frames rs) ≡ some (proc', output)
        → log' ≡ log ++ rs
        → Run first n log' proc'
    finish :
        {n : ℕ} {log : List Request} {proc proc' : Process} (p : Ptr) (t : ConnectionThread)
        → Run first n log proc
        → load proc.pool.heap p ≡ some t
        → nonneg t.client_sock ≡ true
        → hang_up proc p ≡ some proc'
        → Run first n log proc'
