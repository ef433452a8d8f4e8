-- ===== src/Examples/Admin.antt =====
-- The administrator's view of a pool of two threads.
use sa_wa.Base.{
  ap, ◌∙◌, ℕ, ◌+◌, ◌*◌, ◌≡◌, refl, false, some, List, [], ◌∷◌, ◌++◌, arith, length, pos,
}
use sa_wa.Bytes.{bytes_of_u32}
use sa_wa.Storage.{got}
use sa_wa.Thread.{ConnectionThread, connection_thread}
use sa_wa.Pool.{new_thread, new_record, thread_pool}
use sa_wa.Client.{send_stat_cmd, send_single_cmd_to_server, sawa_stat}
use sa_wa.Admin.{AdminSession, stat_command}
use sa_wa.Admin.Stat.{row, rows, AllFit}
use sa_wa.Admin.Reply.{stat_command-send_stat_cmd}
use sa_wa.Pool.{update, load}
use sa_wa.Examples.Pool.{two_busy, two_busy-Inv}
use sa_wa.Examples.Client.{connected, memory}
use sa_wa.Pool.Stats.{records, records-load}
use mathlib.Core.List.{reverse}

abbrev session : AdminSession
session = record { pool = two_busy; output = []; stopped = false }

abbrev newest : ConnectionThread
newest = new_record (new_thread 100 thread_pool (pos 4)) (pos 5)

abbrev oldest : ConnectionThread
oldest = new_record thread_pool (pos 4)

threads :
    records two_busy.heap two_busy.all_threads (200 ∷ 100 ∷ []) two_busy-Inv.all_chain
    ≡ newest ∷ oldest ∷ []
unfolding new_thread new_record connection_thread thread_pool update load records
threads =
    let (c, e) = records-load two_busy.heap 200 200 (100 ∷ []) two_busy-Inv.all_chain newest refl in
    let (c', e') = records-load two_busy.heap 100 100 [] c oldest refl in e ∙ ap (◌∷◌ newest) e'

stat_command-send_stat_cmd_example :
    (payload : List ℕ) × (stat_command session
      ≡ some (record session { output = [] ++ (bytes_of_u32 (2 * 20) ++ payload) }))
    × (length payload + 4 ≡ 2 * 20)
    × (send_stat_cmd memory connected (got (bytes_of_u32 (2 * 20))) (got payload)
        ≡ some (
          send_single_cmd_to_server connected sawa_stat,
          rows (reverse (oldest ∷ [])) ++ row newest (memory (length payload)) ∷ [],
        ))
unfolding new_thread new_record connection_thread thread_pool update AllFit
stat_command-send_stat_cmd_example =
    stat_command-send_stat_cmd memory session connected (200 ∷ 100 ∷ []) [] two_busy-Inv newest
      (oldest ∷ []) threads
      (record {
        connections = omega arith;
        info0 = omega arith;
        info1 = omega arith;
        info2 = omega arith;
      })
      (
        record {
          connections = omega arith;
          info0 = omega arith;
          info1 = omega arith;
          info2 = omega arith;
        },
        tt,
      )
      (omega arith)
