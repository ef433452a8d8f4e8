-- ===== src/Examples/Web.antt =====
-- The web server's process on a run of two connections.
use sa_wa.Base.{
  length, ℕ, ◌*◌, ◌≡◌, refl, none, some, List, [], ◌∷◌, ◌++◌, pos, codes, arith, negsuc,
}
use sa_wa.Bytes.{bytes_of_u32}
use sa_wa.Thread.{ConnectionThread}
use sa_wa.Pool.{
  thread_pool, new_record, new_thread, load, update, handle_new_connection, reuse_thread,
  get_thread_statistics, sizeof_stat, released,
}
use sa_wa.Pool.Stats.{entries, Threads}
use sa_wa.Pool.Totals.{total}
use sa_wa.Http.Files.{WebFile, insert}
use sa_wa.Http.Serve.{
  read_http_data, generate200_response, http_200_col, http_404_col, http_500_col,
}
use sa_wa.System.Tally.{requests}
use sa_wa.System.Replies.{Reply, bytes_of, replies_in}
use sa_wa.System.Web.{WebProcess, web_process, web_handler, WebRun, opens, arrives, handles}
use sa_wa.System.Pages.{WebRun-totals, web_handler-WebRun}
use sa_wa.Examples.Http.{environment, environment-IsServer, reads, page_path}

-- Two connections have arrived, on sockets 4 and 5.
abbrev two_visitors : WebProcess
two_visitors = record web_process {
  pool = new_thread 200 (new_thread 100 thread_pool (pos 4)) (pos 5);
}

two_visitors-WebRun : WebRun environment 2 [] two_visitors
unfolding thread_pool load new_thread update handle_new_connection reuse_thread
two_visitors-WebRun =
    arrives 200 (pos 5) (new_thread 200 (new_thread 100 thread_pool (pos 4)) (pos 5))
      (arrives 100 (pos 4) (new_thread 100 thread_pool (pos 4)) (opens refl) (omega arith) refl refl
        refl refl)
      (omega arith) refl refl refl refl

abbrev newer : ConnectionThread
newer = new_record (new_thread 100 thread_pool (pos 4)) (pos 5)

web_handler-WebRun_example :
    (proc' : WebProcess) × (output : List ℕ) × (replies : List Reply) × (web_handler environment
        two_visitors 200 reads
      ≡ some (proc', output))
    × (output ≡ bytes_of replies)
    × WebRun environment 2 output proc'
unfolding load new_thread update thread_pool sa_wa.Thread.connection_thread
web_handler-WebRun_example =
    web_handler-WebRun environment environment-IsServer two_visitors-WebRun 200 newer reads refl
      refl

abbrev hi : WebFile
hi = record { content = codes "hi"; size = 2 }

abbrev visited_thread : ConnectionThread
visited_thread = record newer { info = 2 ∷ 0 ∷ 0 ∷ [] }

-- The thread at 200 has written the page twice, the second time from the cache.
abbrev visited : WebProcess
visited = record {
  pool =
      released
        (record two_visitors.pool {
          heap = update two_visitors.pool.heap 200 (some visited_thread);
        })
        200 visited_thread;
  cache = insert page_path hi (λ path. none);
}

abbrev two_pages : List ℕ
two_pages = generate200_response hi ++ generate200_response hi

visited-WebRun : WebRun environment 2 two_pages visited
unfolding web_handler load new_thread update thread_pool sa_wa.Thread.connection_thread
    read_http_data sa_wa.Bytes.fill sa_wa.Bytes.stale_bytes sa_wa.Base.text_eq
    sa_wa.Pool.release_thread sa_wa.Base.decimal sa_wa.Http.Files.get_file sa_wa.Util.strn_case_str
    sa_wa.Thread.update_screen
visited-WebRun = handles 200 newer reads two_pages two_visitors-WebRun refl refl refl refl

WebRun-totals_example :
    (replies : List Reply) × (ts : List ConnectionThread) × (two_pages ≡ bytes_of replies)
    × (get_thread_statistics visited.pool
        ≡ some (bytes_of_u32 (visited.pool.thread_nb * sizeof_stat) ++ entries ts))
    × (length ts ≡ visited.pool.thread_nb)
    × Threads visited.pool.heap visited.pool.all_threads ts
    × (total (λ t. t.nb_connections) ts ≡ 2)
    × (total (requests http_200_col) ts ≡ replies_in http_200_col replies)
    × (total (requests http_404_col) ts ≡ replies_in http_404_col replies)
    × (total (requests http_500_col) ts ≡ replies_in http_500_col replies)
WebRun-totals_example = WebRun-totals environment environment-IsServer visited-WebRun
