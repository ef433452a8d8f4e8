-- ===== src/Main.antt =====
-- The main programs: the options of the server (server/sawad.cpp, with the choice of the display in
-- server/display.cpp) and the command line of the client (server/sawa_client.cpp).
pub mod Startup
pub mod Serving
use sa_wa.Base.{
  ℕ, ◌≡◌, refl, Bool, true, false, Option, none, some, List, [], ◌∷◌, ◌||◌, Text, codes, text_eq,
  arith, if◌then◌else◌, ap, ◌∙◌, Bool-cases, inl, inr, ◌==◌,
}

pub record Options : Type 0 where
  pub daemon : Bool
  pub debug : Bool
  pub towa : Bool
  pub quiet : Bool
  pub http : Bool

-- The body of main's loop, but for -help.
unfoldable pub set_option : Text → Options → Options
set_option arg o = record {
  daemon = text_eq arg (codes "-daemon") || o.daemon;
  debug = text_eq arg (codes "-debug") || o.debug;
  towa = text_eq arg (codes "-towa") || o.towa;
  quiet = text_eq arg (codes "-quiet") || o.quiet;
  http = text_eq arg (codes "-http") || o.http;
}

-- The loop; with none the usage is printed and the program returns.
unfoldable pub parse_options : List Text → Options → Option Options
unfolding set_option
parse_options [] o = some o
parse_options (arg ∷ args) o =
    let rest = parse_options args (set_option arg o) in
    if text_eq arg (codes "-help") then none else rest

abbrev pub no_options : Options
no_options = record { daemon = false; debug = false; towa = false; quiet = false; http = false }

abbrev pub display_default : ℕ
display_default = 0x01

abbrev pub display_debug : ℕ
display_debug = 0x02

abbrev pub display_daemon : ℕ
display_daemon = 0x03

abbrev pub display_quiet : ℕ
display_quiet = 0x04

unfoldable pub display_code : Options → ℕ
display_code o =
    if o.daemon
    then display_daemon
    else if o.debug
    then display_debug
    else if o.quiet
    then display_quiet
    else display_default

pub data Display : Type 0 where
  default : Bool → Display
  debug : Display
  daemon : Display
  quiet : Display

unfoldable pub select_display : ℕ → Bool → Display
select_display code http =
    if code == display_default
    then default http
    else if code == display_debug
    then debug
    else if code == display_daemon
    then daemon
    else if code == display_quiet
    then quiet
    else default http

-- An option among the arguments.
unfoldable pub given : Text → List Text → Bool
given option [] = false
given option (arg ∷ args) = text_eq arg option || given option args

-- What the arguments say, in whatever order and however often.
abbrev pub described : List Text → Options → Options
described args o = record {
  daemon = given (codes "-daemon") args || o.daemon;
  debug = given (codes "-debug") args || o.debug;
  towa = given (codes "-towa") args || o.towa;
  quiet = given (codes "-quiet") args || o.quiet;
  http = given (codes "-http") args || o.http;
}

or_swap : (a b c : Bool) → (b || (a || c)) ≡ ((a || b) || c)
or_swap true true c = refl
or_swap true false c = refl
or_swap false true c = refl
or_swap false false c = refl

or_false : (a : Bool) → (a || false) ≡ a
or_false true = refl
or_false false = refl

described-set_option :
    (arg : Text) (args : List Text) (o : Options)
    → described args (set_option arg o) ≡ described (arg ∷ args) o
unfolding given set_option
described-set_option arg args o = λ i. record {
  daemon = or_swap (text_eq arg (codes "-daemon")) (given (codes "-daemon") args) o.daemon i;
  debug = or_swap (text_eq arg (codes "-debug")) (given (codes "-debug") args) o.debug i;
  towa = or_swap (text_eq arg (codes "-towa")) (given (codes "-towa") args) o.towa i;
  quiet = or_swap (text_eq arg (codes "-quiet")) (given (codes "-quiet") args) o.quiet i;
  http = or_swap (text_eq arg (codes "-http")) (given (codes "-http") args) o.http i;
}

pub parse_options-described :
    (args : List Text) (o : Options)
    → parse_options args o ≡ (if given (codes "-help") args then none else some (described args o))
unfolding parse_options given
parse_options-described [] o = refl
parse_options-described (arg ∷ args) o =
    let rest =
      parse_options-described args (set_option arg o)
      ∙ ap (λ d. if given (codes "-help") args then none else some d)
          (described-set_option arg args o) in
    elim (Bool-cases (text_eq arg (codes "-help"))) [
      | inl e ↦ ground (arith, e)
      | inr e ↦ ground (arith, e, rest)
    ]

-- The server's options depend on which arguments are given only, in whatever order and however
-- often; with -help among them no server starts. The display is the daemon's, else that of
-- debugging, else the quiet one, else the default one with the labels of the server's kind.
pub parse_options-display :
    (args : List Text)
    → (parse_options args no_options
        ≡ (if given (codes "-help") args then none else some (described args no_options)))
      × (select_display (display_code (described args no_options)) (described args no_options).http
          ≡ (if given (codes "-daemon") args
              then daemon
              else if given (codes "-debug") args
              then debug
              else if given (codes "-quiet") args
              then quiet
              else default (given (codes "-http") args)))
unfolding select_display display_code
parse_options-display args = (
  parse_options-described args no_options,
  ground (
    arith,
    or_false (given (codes "-daemon") args),
    or_false (given (codes "-debug") args),
    or_false (given (codes "-quiet") args),
    or_false (given (codes "-http") args),
  ),
)
