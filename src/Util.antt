-- ===== src/Util.antt =====
-- server/util.cpp: the search in a request, the messages of failures and the dump of memory.
pub mod Dump
pub mod Search
use sa_wa.Base.{
  ℕ, zero, suc, ◌+◌, ◌-◌, ◌*◌, ◌/◌, ◌%◌, ◌^◌, Bool, true, false, ◌&&◌, Option, none, some, List, [],
  ◌∷◌, ◌++◌, length, get_or, leb, ltb, ◌==◌, if◌then◌else◌, Text, codes, decimal, ◌||◌, replicate,
  set, ◌<◌, ◌≤◌, ◌≡◌, refl, map,
}

unfoldable pub tolower : ℕ → ℕ
tolower c = if leb b'A' c && leb c b'Z' then c + 32 else c

-- Whether strncasecmp answers 0 on memory at an address and a text without a 0 byte.
unfoldable pub same_text : (ℕ → ℕ) → ℕ → Text → Bool
unfolding tolower
same_text mem at [] = true
same_text mem at (c ∷ cs) = (tolower (mem at) == tolower c) && same_text mem (at + 1) cs

-- The two inner loops of strnCaseStr, with `left` further bytes in front of the end.
unfoldable pub scan : (ℕ → ℕ) → ℕ → Text → ℕ → ℕ → Bool
unfolding tolower same_text
scan mem c rest at zero = false
scan mem c rest at (suc left) = elim ((tolower (mem at) == c) && same_text mem (at + 1) rest) [
  | true ↦ true
  | false ↦ scan mem c rest (at + 1) left
]

unfoldable pub strn_case_str : (ℕ → ℕ) → Text → ℕ → Bool
unfolding scan tolower
strn_case_str mem [] max = true
strn_case_str mem (c ∷ rest) max = scan mem (tolower c) rest 0 (max - 1)

abbrev pub failure_create_socket : ℕ
failure_create_socket = 0x100

abbrev pub failure_bind : ℕ
failure_bind = 0x101

abbrev pub failure_accept : ℕ
failure_accept = 0x102

abbrev pub failure_mutex_init : ℕ
failure_mutex_init = 0x103

abbrev pub failure_open_file : ℕ
failure_open_file = 0x104

-- What displayError prints, with what setDebugInfo has left.
unfoldable pub display_error : ℕ → Text → ℕ → Text
display_error debug_int debug_str failure =
    if failure == failure_create_socket
    then codes "Error: cannot create socket on port " ++ decimal debug_int ++ codes "\n"
    else if failure == failure_bind
    then codes "Error: cannot bind socket on port " ++ decimal debug_int ++ codes "\n"
    else if failure == failure_accept
    then codes "Error: cannot accept incoming connection\n"
    else if failure == failure_mutex_init
    then codes "Error: cannot initialize mutex\n"
    else if failure == failure_open_file
    then codes "Error: cannot open file '"
      ++ debug_str
      ++ codes "' (error="
      ++ decimal debug_int
      ++ codes ")\n"
    else codes "Error #" ++ decimal failure ++ codes "\n"
