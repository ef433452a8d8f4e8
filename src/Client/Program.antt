-- ===== src/Client/Program.antt =====
-- The client as a program: main of server/sawa_client.cpp with the commands that it calls. It ends
-- with what it has sent and what it shows.
use sa_wa.Base.{ℕ, Option, some, List, [], ◌>>=◌, ℤ, Text}
use mathlib.Core.Option
use sa_wa.Storage.{Recv}
use sa_wa.Client.{
  Outcome, returned, thrown, bad_size, Row, send_info_cmd, send_stop_cmd, send_stat_cmd,
}
use sa_wa.Client.CommandLine.{
  Action, usage, send_info, send_stop, send_stat, test_server, send_command, command_line,
}
use sa_wa.Client.Running
use sa_wa.Client.Running.{
  Connecting, Shown, no_connection, uncaught, bad_allocation, with_interface,
}

pub data Ending : Type 0 where
  -- The usage, behind which main returns -1.
  refused : Ending
  shows : Shown → Ending
  sectors : ℕ → Ending
  stop_sent : Ending
  statistics : List Row → Ending
  -- The numbers of the threads that the self-test starts.
  tests : List ℕ → Ending

-- What the calls of the network answer: for the statistics, the two reads.
pub record Network : Type 0 where
  pub calls : Connecting
  pub reply : Recv
  pub body : Recv

unfoldable pub show_info : Outcome ℕ → Ending
show_info (returned n) = sectors n
show_info (thrown code) = shows (uncaught code)
show_info bad_size = shows bad_allocation

unfoldable pub run_action : (ℕ → ℕ) → Network → Action → Option (List ℕ × Ending)
unfolding show_info
run_action stale net usage = some ([], refused)
run_action stale net send_info =
    with_interface (shows no_connection) net.calls
      λ sawa. do (sawa', outcome) ← send_info_cmd sawa net.reply; some (sawa', show_info outcome)
run_action stale net send_stop =
    with_interface (shows no_connection) net.calls λ sawa. some (send_stop_cmd sawa, stop_sent)
run_action stale net send_stat = with_interface (shows no_connection) net.calls λ sawa. do
  (sawa', rows) ← send_stat_cmd stale sawa net.reply net.body
  some (sawa', statistics rows)
run_action stale net (test_server n) =
    Option.map (λ threads. ([], tests threads)) (Running.test_server n)
run_action stale net (send_command op offset size) =
    Option.map (λ r. (r.0, shows r.1))
      (Running.send_command stale net.calls op offset size net.reply)

unfoldable pub client_main : (Text → ℤ) → (ℕ → ℕ) → Network → List Text → Option (List ℕ × Ending)
unfolding run_action
client_main atoi stale net args = run_action stale net (command_line atoi args)
