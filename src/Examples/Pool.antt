-- ===== src/Examples/Pool.antt =====
-- The pool's theorems on a pool of two threads.
use sa_wa.Base.{◌*◌, ◌≡◌, refl, some, [], ◌∷◌, ◌++◌, pos, arith}
use sa_wa.Bytes.{bytes_of_u32}
use sa_wa.Thread.{ConnectionThread}
use sa_wa.Pool.{
  load, update, ThreadPool, thread_pool, new_thread, reuse_thread, handle_new_connection,
  get_thread_statistics, sizeof_stat,
}
use sa_wa.Pool.Invariant.{Inv, thread_pool-Inv, new_thread-Inv}
use sa_wa.Pool.Reuse.{Run, start, accept, State, Run-State, handle_new_connection-Inv}
use sa_wa.Pool.Stats.{entries, records, get_thread_statistics-entries}

-- Two connections have arrived, on sockets 4 and 5.
abbrev pub two_busy : ThreadPool
two_busy = new_thread 200 (new_thread 100 thread_pool (pos 4)) (pos 5)

one_busy-Inv : Inv (new_thread 100 thread_pool (pos 4)) (100 ∷ []) []
unfolding thread_pool load
one_busy-Inv = new_thread-Inv thread_pool [] [] thread_pool-Inv 100 (pos 4) (omega arith) refl refl

pub two_busy-Inv : Inv two_busy (200 ∷ 100 ∷ []) []
unfolding thread_pool load new_thread update
two_busy-Inv =
    new_thread-Inv (new_thread 100 thread_pool (pos 4)) (100 ∷ []) [] one_busy-Inv 200 (pos 5)
      (omega arith) refl refl

handle_new_connection-Inv_example :
    (pool' : ThreadPool) × (handle_new_connection 300 two_busy (pos 6) ≡ some pool')
    × Inv pool' (300 ∷ 200 ∷ 100 ∷ []) []
    × (t : ConnectionThread) × (load pool'.heap 300 ≡ some t)
    × (t.client_sock ≡ pos 6)
unfolding thread_pool load new_thread update
handle_new_connection-Inv_example =
    handle_new_connection-Inv two_busy (200 ∷ 100 ∷ []) [] 300 (pos 6) two_busy-Inv (omega arith)
      refl refl

two_arrivals : Run 2 2 two_busy
unfolding thread_pool load new_thread update handle_new_connection reuse_thread
two_arrivals =
    accept 200 (pos 5) (accept 100 (pos 4) (start refl) (omega arith) refl refl refl refl)
      (omega arith) refl refl refl refl

Run-State_example : State 2 2 two_busy
Run-State_example = Run-State two_arrivals

get_thread_statistics-entries_example :
    get_thread_statistics two_busy
    ≡ some (
        bytes_of_u32 (two_busy.thread_nb * sizeof_stat)
        ++ entries
            (records two_busy.heap two_busy.all_threads (200 ∷ 100 ∷ []) two_busy-Inv.all_chain))
get_thread_statistics-entries_example =
    get_thread_statistics-entries two_busy (200 ∷ 100 ∷ []) [] two_busy-Inv
