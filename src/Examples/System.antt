-- ===== src/Examples/System.antt =====
-- The process's theorems on a run of two connections.
use sa_wa.Base.{length, ℕ, ◌*◌, ◌≡◌, refl, some, List, [], ◌∷◌, ◌++◌, pos, replicate, arith}
use sa_wa.Bytes.{bytes_of_u32, load_u32, u32_of_bytes, fill, stale_bytes}
use sa_wa.Storage.{memory_files, write_at}
use sa_wa.Thread.{ConnectionThread, connection_thread}
use sa_wa.Pool.{
  thread_pool, new_record, new_thread, load, update, handle_new_connection, reuse_thread,
  get_thread_statistics, sizeof_stat,
}
use sa_wa.Pool.Stats.{entries, Threads}
use sa_wa.Pool.Totals.{total}
use sa_wa.Sawa.{read_data}
use sa_wa.Sawa.Protocol.{info, read, write, answers, frames}
use sa_wa.Sawa.Serving.{tally}
use sa_wa.System.{Process, serve, Run, begin, accept, serves}
use sa_wa.System.Tally.{count_of, requests}
use sa_wa.System.Statistics.{serve-answers, get_thread_statistics-totals}
use sa_wa.Examples.Sawa.{healthy}

abbrev first : Process memory_files
first = record {
  pool = thread_pool;
  nb_sectors = 1;
  fp = record { bytes = replicate 512 0; offset = 0 };
}

-- Two connections have arrived, on sockets 4 and 5.
abbrev one_thread : Process memory_files
one_thread = record first { pool = new_thread 100 thread_pool (pos 4) }

abbrev two_threads : Process memory_files
two_threads = record first { pool = new_thread 200 (new_thread 100 thread_pool (pos 4)) (pos 5) }

two_threads-Run : Run memory_files first 2 [] two_threads
unfolding thread_pool load new_thread update handle_new_connection reuse_thread
two_threads-Run =
    accept 200 (pos 5) (new_thread 200 (new_thread 100 thread_pool (pos 4)) (pos 5))
      (accept 100 (pos 4) (new_thread 100 thread_pool (pos 4)) (begin refl) (omega arith) refl refl
        refl refl)
      (omega arith) refl refl refl refl

abbrev zeros : ℕ → ℕ → ℕ
zeros k i = 0

abbrev older : ConnectionThread
older = new_record thread_pool (pos 4)

abbrev newer : ConnectionThread
newer = new_record (new_thread 100 thread_pool (pos 4)) (pos 5)

-- The thread at 200 has served a write.
abbrev written : Process memory_files
written = record {
  pool = record two_threads.pool {
    heap = update two_threads.pool.heap 200 (some (tally (write 3 (7 ∷ 8 ∷ []) ∷ []) newer));
  };
  nb_sectors = 1;
  fp = record { bytes = write_at 3 (7 ∷ 8 ∷ []) (replicate 512 0); offset = 5 };
}

written-Run : Run memory_files first 2 (write 3 (7 ∷ 8 ∷ []) ∷ []) written
unfolding serve read_data tally load new_thread update frames connection_thread sa_wa.Sawa.announced
    load_u32 bytes_of_u32 u32_of_bytes sa_wa.Sawa.receive sa_wa.Sawa.process_request fill
    sa_wa.Sawa.dispatch sa_wa.Sawa.write_file stale_bytes sa_wa.Sawa.store_range
written-Run =
    serves zeros 200 newer (write 3 (7 ∷ 8 ∷ []) ∷ []) (0x42 ∷ []) two_threads-Run refl refl
      ((omega arith, omega arith), tt) refl refl

-- What was written over one connection is read over the other.
serve-answers_example :
    (proc' : Process memory_files) × (output : List ℕ) × (serve memory_files zeros written 100
        (frames (read 2 4 ∷ info ∷ []))
      ≡ some (proc', output))
    × (output
        ≡ (answers 1
            (answers 1 (replicate 512 0) (write 3 (7 ∷ 8 ∷ []) ∷ [])).0
            (read 2 4 ∷ info ∷ [])).1)
    × (proc'.fp.bytes
        ≡ (answers 1 (replicate 512 0) (write 3 (7 ∷ 8 ∷ []) ∷ read 2 4 ∷ info ∷ [])).0)
unfolding load new_thread update thread_pool connection_thread
serve-answers_example =
    serve-answers memory_files healthy first refl refl (omega arith) written-Run zeros 100 older
      (read 2 4 ∷ info ∷ []) refl refl (omega arith, (tt, tt))

get_thread_statistics-totals_example :
    (ts : List ConnectionThread) × (get_thread_statistics written.pool
      ≡ some (bytes_of_u32 (written.pool.thread_nb * sizeof_stat) ++ entries ts))
    × (length ts ≡ written.pool.thread_nb)
    × Threads written.pool.heap written.pool.all_threads ts
    × (total (λ t. t.nb_connections) ts ≡ 2)
    × (total (requests 0) ts ≡ count_of 0 (write 3 (7 ∷ 8 ∷ []) ∷ []))
    × (total (requests 1) ts ≡ count_of 1 (write 3 (7 ∷ 8 ∷ []) ∷ []))
    × (total (requests 2) ts ≡ count_of 2 (write 3 (7 ∷ 8 ∷ []) ∷ []))
get_thread_statistics-totals_example =
    get_thread_statistics-totals memory_files healthy first refl refl (omega arith) written-Run
