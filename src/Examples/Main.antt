-- ===== src/Examples/Main.antt =====
-- The server's start at a concrete command line.
use sa_wa.Base.{
  ◌≡◌, ◌↔◌, ◌||◌, false, true, pos, negsuc, List, [], ◌∷◌, Text, codes, if◌then◌else◌, refl,
}
use sa_wa.Examples.Towa.{one_servlet}
use sa_wa.Main.{Options, no_options, described, given, daemon, debug, quiet, default}
use sa_wa.Main.Startup.{Environment, serving, failed, main}
use sa_wa.Main.Serving.{Succeed, main-Succeed}

abbrev arguments : List Text
arguments = codes "-quiet" ∷ codes "-http" ∷ codes "-quiet" ∷ []

-- All the calls succeed.
abbrev fine : Environment
fine = record {
  screen_lock = pos 0;
  socket = pos 3;
  bound = pos 0;
  reopened = true;
  created = false;
  ping = (pos 0, 0);
  pong = (negsuc 0, 17);
  xml = one_servlet;
  entries = [];
  forked = pos 9;
  waited = pos 0;
  idle_lock = pos 0;
  all_lock = pos 0;
  daemon_forked = pos 0;
  sid = pos 1;
}

main-Succeed_example : (main arguments fine ≡ serving quiet (described arguments no_options)) ↔ (
    (given (codes "-help") arguments ≡ false)
    × (described arguments no_options ≡ described arguments no_options)
    × (quiet ≡ (
        if given (codes "-daemon") arguments
        then daemon
        else if given (codes "-debug") arguments
        then debug
        else if given (codes "-quiet") arguments
        then quiet
        else default (given (codes "-http") arguments)))
    × Succeed (described arguments no_options) fine)
main-Succeed_example = main-Succeed arguments fine quiet (described arguments no_options)

test-main : main arguments fine ≡ serving quiet (described arguments no_options)
unfolding main sa_wa.Main.parse_options sa_wa.Base.text_eq sa_wa.Server.server
    sa_wa.Main.select_display given sa_wa.Main.display_code
test-main = refl

-- The port is taken.
test-main_taken : main [] (record fine { bound = negsuc 0 }) ≡ failed 0x101
unfolding main sa_wa.Main.parse_options sa_wa.Server.server sa_wa.Main.select_display
    sa_wa.Main.display_code
test-main_taken = refl
