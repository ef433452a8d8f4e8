-- ===== src/Display.antt =====
-- server/display.cpp: what the four displays put out. A message of debug or error is the text that
-- its format makes; the time of day is an argument. The log of the daemon is taken to open.
use sa_wa.Base.{
  Option, none, some, ltb, length, ℕ, zero, suc, ◌+◌, ◌*◌, ◌/◌, Bool, true, false, List, [], ◌∷◌,
  ◌++◌, Text, codes, decimal, if◌then◌else◌, get_or,
}
use sa_wa.Thread.{ConnectionThread}
use sa_wa.Main.{Display, default, debug, daemon, quiet}

pub data Output : Type 0 where
  -- mvaddstr.
  draw : ℕ → ℕ → Text → Output
  clear : Output
  print : Text → Output
  print_error : Text → Output
  open_log : Output
  log : Text → Output
  close : Output

unfoldable pub info_label : Bool → ℕ → Text
info_label true zero = codes "200"
info_label true (suc zero) = codes "404"
info_label true (suc (suc zero)) = codes "500"
info_label true (suc (suc (suc i))) = []
info_label false zero = codes "Info"
info_label false (suc zero) = codes "Reads"
info_label false (suc (suc zero)) = codes "Writes"
info_label false (suc (suc (suc i))) = []

abbrev started : ℕ → Text
started port = codes "Server started on port " ++ decimal port

-- The virtual methods of the class Display. `none` is a write behind a buffer.
pub record Methods : Type 0 where
  pub init : ℕ → List Output
  pub debug : Bool → ℕ → Text → List Output
  pub error : Text → Option (List Output)
  pub new_thread : ℕ → ConnectionThread → List Output
  pub refresh_thread : ConnectionThread → ℕ → List Output
  pub thread_update : ConnectionThread → List Output
  pub status : ℕ → ConnectionThread → Bool → List Output
  pub cleanup : List Output

-- DisplayDefault: a label that is empty hides its column, and an error has a buffer of 256 bytes.
unfoldable pub default_init : Bool → ℕ → List Output
unfolding info_label
default_init http port =
    clear
    ∷ draw 0 0 (started port)
    ∷ draw 1 0 (codes "Thread# Active? #Conn")
    ∷ draw 1 24 (info_label http 0)
    ∷ draw 1 32 (info_label http 1)
    ∷ draw 1 40 (info_label http 2)
    ∷ []

unfoldable pub default_refresh_thread : Bool → ConnectionThread → ℕ → List Output
unfolding info_label
default_refresh_thread http t i = elim (info_label http i) [
  | [] ↦ []
  | (c ∷ cs) ↦ draw (t.nb + 2) (24 + i * 8) (decimal (get_or t.info i 0)) ∷ []
]

unfoldable pub default_thread_update : ConnectionThread → List Output
default_thread_update t = draw (t.nb + 2) 16 (decimal t.nb_connections) ∷ []

unfoldable pub default_status : ConnectionThread → Bool → List Output
default_status t is_on = draw (t.nb + 2) 8 (if is_on then codes "Y" else codes ".") ∷ []

unfoldable pub default_new_thread : ConnectionThread → List Output
unfolding default_thread_update default_status
default_new_thread t =
    draw (t.nb + 2) 0 (decimal t.nb) ∷ (default_thread_update t ++ default_status t true)

unfoldable pub default_error : Text → Option (List Output)
default_error message = if ltb (length message) 256 then some (draw 6 0 message ∷ []) else none

unfoldable pub display_default : Bool → Methods
unfolding default_init default_refresh_thread default_thread_update default_status
    default_new_thread default_error
display_default http = record {
  init = default_init http;
  debug = λ flag usec message. [];
  error = default_error;
  new_thread = λ usec t. default_new_thread t;
  refresh_thread = default_refresh_thread http;
  thread_update = default_thread_update;
  status = λ usec t is_on. default_status t is_on;
  cleanup = close ∷ [];
}

-- DisplayDebug.
unfoldable pub debug_debug : ℕ → Text → List Output
debug_debug usec message =
    print (codes "[" ++ (decimal (usec / 1000) ++ codes "] ")) ∷ print message ∷ []

unfoldable pub debug_status : ℕ → ConnectionThread → Bool → List Output
debug_status usec t is_on =
    print (
      codes "["
      ++ (decimal (usec / 1000)
          ++ (codes (if is_on then "] Resumed thread " else "] Release thread ")
              ++ (decimal t.nb ++ codes "\n"))))
    ∷ []

unfoldable pub display_debug : Methods
unfolding debug_debug debug_status
display_debug = record {
  init = λ port. print (started port ++ codes "\n") ∷ [];
  debug = λ flag usec message. debug_debug usec message;
  error = λ message. some (print_error message ∷ []);
  new_thread = λ usec t. print (codes "Created thread " ++ (decimal t.nb ++ codes "\n")) ∷ [];
  refresh_thread = λ t i. [];
  thread_update = λ t. [];
  status = debug_status;
  cleanup = [];
}

-- DisplayDaemon; the flag of its debug is debug_flag.
unfoldable pub display_daemon : Methods
display_daemon = record {
  init = λ port. open_log ∷ [];
  debug = λ flag usec message. if flag then log message ∷ [] else [];
  error = λ message. some (log message ∷ []);
  new_thread = λ usec t. [];
  refresh_thread = λ t i. [];
  thread_update = λ t. [];
  status = λ usec t is_on. [];
  cleanup = close ∷ [];
}

-- DisplayQuiet.
unfoldable pub display_quiet : Methods
display_quiet = record {
  init = λ port. print (started port ++ codes "\n") ∷ [];
  debug = λ flag usec message. [];
  error = λ message. some (print_error message ∷ []);
  new_thread = λ usec t. [];
  refresh_thread = λ t i. [];
  thread_update = λ t. [];
  status = λ usec t is_on. [];
  cleanup = [];
}

-- The methods of the display that select_display makes.
unfoldable pub methods : Display → Methods
unfolding display_default display_debug display_daemon display_quiet
methods (default http) = display_default http
methods debug = display_debug
methods daemon = display_daemon
methods quiet = display_quiet
