-- ===== src/Client/CommandLine.antt =====
-- server/sawa_client.cpp: the client's command line. atoi is a parameter.
use sa_wa.Base.{
  ℕ, ◌-◌, ◌%◌, ◌^◌, ◌≤◌, ◌<◌, ◌≡◌, refl, ap, ◌∙◌, false, List, [], ◌∷◌, leb, arith, Text, codes,
  text_eq, ℤ, pos, negsuc, if◌then◌else◌,
}
use sa_wa.Sawa.{sawa_read, sawa_write}

-- What main does with its arguments.
pub data Action : Type 0 where
  usage : Action
  send_info : Action
  send_stop : Action
  send_stat : Action
  test_server : ℤ → Action
  send_command : ℕ → ℕ → ℕ → Action

-- An int as an unsigned int.
unfoldable pub to_unsigned : ℤ → ℕ
to_unsigned (pos n) = n % 2 ^ 32
to_unsigned (negsuc n) = 2 ^ 32 - 1 - n % 2 ^ 32

-- Behind the operation: the offset, and the size if there is one.
unfoldable pub range_action : (Text → ℤ) → ℕ → List Text → Action
unfolding to_unsigned
range_action atoi op [] = usage
range_action atoi op (offset ∷ []) = send_command op (to_unsigned (atoi offset)) 4096
range_action atoi op (offset ∷ size ∷ rest) =
    if leb (to_unsigned (atoi size)) 0
    then usage
    else send_command op (to_unsigned (atoi offset)) (to_unsigned (atoi size))

unfoldable pub test_threads : (Text → ℤ) → List Text → ℤ
test_threads atoi [] = pos 1
test_threads atoi (n ∷ rest) = atoi n

unfoldable pub command_line : (Text → ℤ) → List Text → Action
unfolding range_action test_threads
command_line atoi [] = usage
command_line atoi (op ∷ rest) =
    if text_eq op (codes "info")
    then send_info
    else if text_eq op (codes "stop")
    then send_stop
    else if text_eq op (codes "stat")
    then send_stat
    else if text_eq op (codes "test")
    then test_server (test_threads atoi rest)
    else if text_eq op (codes "read")
    then range_action atoi sawa_read rest
    else if text_eq op (codes "write")
    then range_action atoi sawa_write rest
    else usage

-- A read or a write with a negative size of at least -2^31 is not refused by the test on the size: it
-- is sent, with a size of at least 2^31.
pub command_line-negative :
    (atoi : Text → ℤ) (offset size : Text) (rest : List Text) (n : ℕ)
    → atoi size ≡ negsuc n
    → n < 2 ^ 31
    → (sent : ℕ) × (2 ^ 31 ≤ sent)
      × (sent < 2 ^ 32)
      × (command_line atoi (codes "read" ∷ offset ∷ size ∷ rest)
          ≡ send_command sawa_read (to_unsigned (atoi offset)) sent)
      × (command_line atoi (codes "write" ∷ offset ∷ size ∷ rest)
          ≡ send_command sawa_write (to_unsigned (atoi offset)) sent)
unfolding command_line range_action to_unsigned text_eq
command_line-negative atoi offset size rest n negative small =
    let sent : to_unsigned (atoi size) ≡ 2 ^ 32 - 1 - n = ap to_unsigned negative ∙ (omega arith) in
    let accepted : leb (to_unsigned (atoi size)) 0 ≡ false = ground arith in
    (2 ^ 32 - 1 - n, omega arith, omega arith, rw (accepted, sent) refl, rw (accepted, sent) refl)
