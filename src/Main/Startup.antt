-- ===== src/Main/Startup.antt =====
-- server/sawad.cpp: main behind the options, with the constructors of the servers, of the pool and of
-- the manager of the Java process. What the system calls answer is an argument.
use sa_wa.Base.{
  ℕ, zero, suc, Bool, true, false, Option, none, some, List, [], ℤ, pos, negsuc, nonneg, Text, ◌==◌,
  ◌||◌, ◌&&◌, if◌then◌else◌,
}
use sa_wa.Util.{failure_mutex_init, failure_open_file}
use sa_wa.Server.{server}
use sa_wa.Towa.Manager.{Entry, TowaMgr, Managed, managed, thrown}
use sa_wa.Towa.Manager
use sa_wa.Towa.WebXml.{Xml}
use sa_wa.Main.{
  Options, no_options, parse_options, Display, default, debug, daemon, quiet, display_code,
  select_display,
}

-- What the calls of the start-up answer: pthread_mutex_init of the default display, socket and bind, fopen of the filesystem file twice, mknod of
-- the two pipes with errno, fork and waitpid for the Java process, the XML library and the
-- entries of its class path,
-- pthread_mutex_init twice, and fork and setsid of the daemon.
pub record Environment : Type 0 where
  pub screen_lock : ℤ
  pub socket : ℤ
  pub bound : ℤ
  pub reopened : Bool
  pub created : Bool
  pub ping : ℤ × ℕ
  pub pong : ℤ × ℕ
  pub xml : Xml
  pub entries : List Entry
  pub forked : ℤ
  pub waited : ℤ
  pub idle_lock : ℤ
  pub all_lock : ℤ
  pub daemon_forked : ℤ
  pub sid : ℤ

-- How a constructor ends: it returns, throws a code, or throws what main does not catch.
pub data Built : Type 0 where
  built : Built
  fails : ℕ → Built
  aborts : Built

-- One call of mknod: an existing file (errno 17) is no failure.
abbrev pub is_pipe : ℤ × ℕ → Bool
is_pipe (res, errno) = nonneg res || (errno == 17)

abbrev pub failure_towa_ipc_cannot_create_pipe : ℕ
failure_towa_ipc_cannot_create_pipe = 0x30

unfoldable pub towa_pipe : ℤ × ℕ → ℤ × ℕ → Built
towa_pipe ping pong =
    if is_pipe ping && is_pipe pong then built else fails failure_towa_ipc_cannot_create_pipe

unfoldable pub launched : Option Managed → Built
launched none = aborts
launched (some (managed mgr)) = built
launched (some (thrown code mgr)) = fails code

-- `new TowaMgr(namedpipe)` and its start.
unfoldable pub towa_launched : Environment → Built
unfolding towa_pipe launched
towa_launched e = elim (towa_pipe e.ping e.pong) [
  | built ↦
      launched
        (Manager.start (record { pid = pos 0; unpacked = [] }) e.xml e.entries e.forked e.waited)
  | fails code ↦ fails code
  | aborts ↦ aborts
]

-- HTTPServer or SawaServer behind the constructor of Server.
unfoldable pub derived : Options → Environment → Built
unfolding towa_launched
derived o e =
    if o.http
    then (if o.towa then towa_launched e else built)
    else if e.reopened || e.created
    then built
    else fails failure_open_file

unfoldable pub new_server : Options → Environment → Built
unfolding derived
new_server o e = elim (server e.socket e.bound) [ none ↦ derived o e | some code ↦ fails code ]

abbrev pub is_zero : ℤ → Bool
is_zero (pos n) = n == 0
is_zero (negsuc n) = false

-- The constructor of ThreadPool.
unfoldable pub new_pool : Environment → Built
new_pool e = if is_zero e.idle_lock && is_zero e.all_lock then built else fails failure_mutex_init

-- The constructor of the display: the default one makes a lock.
unfoldable pub new_display : Display → Environment → Built
new_display (default http) e = if is_zero e.screen_lock then built else fails failure_mutex_init
new_display debug e = built
new_display daemon e = built
new_display quiet e = built

-- How the process ends, or that it accepts connections.
pub data Start : Type 0 where
  usage : Start
  failed : ℕ → Start
  exits : Bool → Start
  serving : Display → Options → Start
  aborted : Start

-- start_as_daemon: a fork that fails, the parent, and the child.
unfoldable pub start_as_daemon : Environment → Start → Start
start_as_daemon e child = elim e.daemon_forked [
  | negsuc n ↦ exits false
  | pos zero ↦ if nonneg e.sid then child else exits false
  | pos (suc n) ↦ exits true
]

-- From the options on.
unfoldable pub start_server : Options → Environment → Start
unfolding new_display new_server new_pool start_as_daemon
start_server o e = elim (new_display (select_display (display_code o) o.http) e) [
  | fails code ↦ failed code
  | aborts ↦ aborted
  | built ↦ elim (new_server o e) [
    | fails code ↦ failed code
    | aborts ↦ aborted
    | built ↦ elim (new_pool e) [
      | fails code ↦ failed code
      | aborts ↦ aborted
      | built ↦
          let child : Start = serving (select_display (display_code o) o.http) o in
          if o.daemon then start_as_daemon e child else child
    ]
  ]
]

unfoldable pub main : List Text → Environment → Start
unfolding start_server
main args e = elim (parse_options args no_options) [ none ↦ usage | some o ↦ start_server o e ]
