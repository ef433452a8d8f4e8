-- ===== src/Pool.antt =====
-- server/thread_pool.cpp: the pool of connection threads. The threads lie on a heap; the pool's two
-- lists run through their `next` and `next_all` fields. `none` is undefined behaviour: an access
-- through a pointer to no thread. `signals` records what the pool does to threads and sockets.
-- The locks make each operation one step; the kernel thread of a record is its pointer.
pub mod Chains
pub mod Invariant
pub mod Reuse
pub mod Stats
pub mod Totals
pub mod Counting
use sa_wa.Base.{
  ℕ, zero, suc, ◌+◌, ◌-◌, ◌*◌, Bool, true, false, Option, none, some, List, [], ◌∷◌, ◌++◌, ℤ, pos,
  negsuc, nonneg, length, get_or, replicate, ◌==◌, if◌then◌else◌, ◌>>=◌,
}
use sa_wa.Bytes.{bytes_of_u32}
use sa_wa.Storage.{write_at}
use sa_wa.Thread.{Ptr, null, ConnectionThread, connection_thread}

abbrev pub Heap : Type 0
Heap = Ptr → Option ConnectionThread

unfoldable pub load : Heap → Ptr → Option ConnectionThread
load heap p = heap p

-- A store to the record at `p`, an allocation there, or its deletion (none).
unfoldable pub update : Heap → Ptr → Option ConnectionThread → Heap
update heap p t q = if q == p then t else heap q

pub data Signal : Type 0 where
  -- pthread_create, and pthread_kill with SIGUSR1
  create wake : Ptr → Signal
  -- pthread_detach and pthread_kill with SIGALRM
  kill : Ptr → Signal

pub record ThreadPool : Type 0 where
  pub idle_threads : Ptr
  pub all_threads : Ptr
  pub thread_nb : ℕ
  pub heap : Heap
  pub signals : List Signal

unfoldable pub thread_pool : ThreadPool
thread_pool = record {
  idle_threads = null;
  all_threads = null;
  thread_nb = 0;
  heap = λ p. none;
  signals = [];
}

-- The record that newThread links in: `next` too points to the threads that are there.
unfoldable pub new_record : ThreadPool → ℤ → ConnectionThread
new_record pool sock = record (connection_thread sock pool.thread_nb pool.all_threads) {
  next = pool.all_threads;
}

-- `fresh` is where `new` puts the record. A failing pthread_create returns a positive code, which
-- the test `< 0` takes for success.
unfoldable pub new_thread : Ptr → ThreadPool → ℤ → ThreadPool
unfolding new_record
new_thread fresh pool sock = record pool {
  all_threads = fresh;
  thread_nb = pool.thread_nb + 1;
  heap = update pool.heap fresh (some (new_record pool sock));
  signals = create fresh ∷ pool.signals;
}

-- The record of a thread that has lost its connection, in front of the idle ones.
abbrev pub parked : ThreadPool → ConnectionThread → ConnectionThread
parked pool t = record t { client_sock = negsuc 0; next = pool.idle_threads }

abbrev pub released : ThreadPool → Ptr → ConnectionThread → ThreadPool
released pool p t = record pool {
  idle_threads = p;
  heap = update pool.heap p (some (parked pool t));
}

unfoldable pub release_thread : ThreadPool → Ptr → Option ThreadPool
release_thread pool p = do t ← load pool.heap p; some (released pool p t)

-- The record of a thread that is assigned to a connection.
abbrev pub assigned : ConnectionThread → ℤ → ConnectionThread
assigned t sock = record t { client_sock = sock; nb_connections = t.nb_connections + 1 }

abbrev pub reused : ThreadPool → ConnectionThread → ℤ → ThreadPool
reused pool t sock = record pool {
  idle_threads = t.next;
  heap = update pool.heap pool.idle_threads (some (assigned t sock));
  signals = wake pool.idle_threads ∷ pool.signals;
}

-- The second part of the result tells whether an idle thread was found.
unfoldable pub reuse_thread : ThreadPool → ℤ → Option (ThreadPool × Bool)
reuse_thread pool sock =
    if pool.idle_threads == null
    then some (pool, false)
    else do t ← load pool.heap pool.idle_threads; some (reused pool t sock, true)

unfoldable pub handle_new_connection : Ptr → ThreadPool → ℤ → Option ThreadPool
handle_new_connection fresh pool sock = do
  (pool', found) ← reuse_thread pool sock
  some (if found then pool' else new_thread fresh pool' sock)

-- How ~ThreadPool ends: it returns, or a signal ends the process.
pub data Destroyed : Type 0 where
  emptied : Destroyed
  killed : ThreadPool → Destroyed

-- ~ThreadPool. No thread handles or blocks SIGALRM, whose default is to end the process: so the first
-- round of the loop does not come to shut down a socket, and there is no second one.
unfoldable pub destroy : ThreadPool → Option Destroyed
destroy pool = if pool.all_threads == null then some emptied else do
  t ← load pool.heap pool.all_threads
  some (killed (record pool { signals = kill pool.all_threads ∷ pool.signals }))

-- The fields of ThreadStat as loadFrom leaves them in memory. Three bytes of padding follow.
unfoldable pub stat_fields : ConnectionThread → List ℕ
stat_fields t =
    bytes_of_u32 t.nb_connections
    ++ (bytes_of_u32 (get_or t.info 0 0)
        ++ (bytes_of_u32 (get_or t.info 1 0)
            ++ (bytes_of_u32 (get_or t.info 2 0) ++ (if nonneg t.client_sock then 1 else 0) ∷ [])))

abbrev pub sizeof_stat : ℕ
sizeof_stat = 20

-- The loop of serializeThreadStats with `left` entries free in front of the last one written: it
-- fills the buffer from its end. With no entry free it writes in front of the entries.
unfoldable pub serialize_thread_stats : ℕ → Heap → Ptr → List ℕ → Option (List ℕ)
serialize_thread_stats zero heap p buffer = if p == null then some buffer else none
serialize_thread_stats (suc left) heap p buffer = elim (p == null) [
  | true ↦ some buffer
  | false ↦ elim (load heap p) [
    | none ↦ none
    | some t ↦
        serialize_thread_stats left heap t.next_all
          (write_at (4 + sizeof_stat * left) (stat_fields t) buffer)
  ]
]

-- The size in front does not count itself.
unfoldable pub get_thread_statistics : ThreadPool → Option (List ℕ)
get_thread_statistics pool = serialize_thread_stats pool.thread_nb pool.heap pool.all_threads (
    write_at 0 (bytes_of_u32 (pool.thread_nb * sizeof_stat))
      (replicate (4 + pool.thread_nb * sizeof_stat) 0))
