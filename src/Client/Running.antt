-- ===== src/Client/Running.antt =====
-- The constructor of SawaInterface, SawaClient::sendCommand, and the loop of testServer that starts
-- the threads of the self-test, in server/sawa_client_interface.cpp.
use sa_wa.Base.{
  ℕ, zero, suc, ◌+◌, ◌^◌, ◌≤◌, Option, none, some, List, [], ◌∷◌, ◌==◌, ◌≡◌, refl, if◌then◌else◌,
  ◌>>=◌, ltb, nonneg, not, true, false, Bool, ℤ, pos, negsuc, length, arith, ap, ◌∙◌, sym,
}
use mathlib.Core.Option
use mathlib.Core.Option.{some-injective}
use sa_wa.Storage.{Recv}
use sa_wa.Util.Dump.{DumpRow, dump_mem}
use sa_wa.Sawa.{sawa_read, sawa_write, msg_ok, msg_err, msg_noauth}
use sa_wa.Client.{
  SawaInterface, Outcome, returned, thrown, bad_size, is_code, send_read_cmd, send_fill_cmd,
}

abbrev pub positive : ℤ → Bool
positive (pos (suc n)) = true
positive (pos zero) = false
positive (negsuc n) = false

-- What inet_pton and connect answer.
pub record Connecting : Type 0 where
  pub converted : ℤ
  pub connected : ℤ

abbrev pub unsent : SawaInterface
unsent = record { buffer_out = []; total_size = 0; written = [] }

-- The constructor; with none the client exits with code 1.
unfoldable pub sawa_interface : Connecting → Option SawaInterface
sawa_interface calls =
    if not (positive calls.converted)
    then none
    else if not (nonneg calls.connected)
    then none
    else some unsent

-- What the user is shown, or the code of an exception that nothing catches.
pub data Shown : Type 0 where
  no_connection : Shown
  -- The rows of Util::dumpMem, whose debug_flag is 1 in the client.
  dumped : List DumpRow → Shown
  bad_allocation : Shown
  success : Shown
  error : Shown
  not_authorized : Shown
  unknown_response : ℤ → Shown
  unknown_operation : ℕ → Shown
  uncaught : ℕ → Shown

-- A command on a connection of its own: what it sends, and what is shown.
unfoldable pub with_interface {ℓ} :
    {A : Type ℓ}
    → A
    → Connecting
    → (SawaInterface → Option (SawaInterface × A))
    → Option (List ℕ × A)
unfolding sawa_interface
with_interface failure calls command = elim (sawa_interface calls) [
  | none ↦ some ([], failure)
  | some sawa ↦ Option.map (λ r. (r.0.written, r.1)) (command sawa)
]

unfoldable pub show_read : ℕ → Outcome (List ℕ) → Shown
show_read size (returned buffer) = dumped (dump_mem true buffer size)
show_read size (thrown code) = uncaught code
show_read size bad_size = bad_allocation

unfoldable pub show_response : ℤ → Shown
unfolding is_code
show_response response =
    if is_code response msg_ok
    then success
    else if is_code response msg_err
    then error
    else if is_code response msg_noauth
    then not_authorized
    else unknown_response response

unfoldable pub send_command : (ℕ → ℕ) → Connecting → ℕ → ℕ → ℕ → Recv → Option (List ℕ × Shown)
unfolding show_read show_response with_interface
send_command stale calls op offset size reply =
    if op == sawa_read
    then (if ltb size (2 ^ 31)
        then with_interface no_connection calls (λ sawa. do
          (sawa', outcome) ← send_read_cmd stale sawa offset size reply
          some (sawa', show_read size outcome))
        else some ([], bad_allocation))
    else if op == sawa_write
    then with_interface no_connection calls (λ sawa. do
      (sawa', response) ← send_fill_cmd stale sawa offset size reply
      some (sawa', show_response response))
    else some ([], unknown_operation op)

-- The threads from the i-th on that testServer starts when `left` are still to be started.
unfoldable pub start_threads : ℕ → ℕ → List ℕ
start_threads i zero = []
start_threads i (suc left) = i ∷ start_threads (i + 1) left

-- The numbers of the threads of a test; none where their array has no room for a number of threads
-- that is negative.
unfoldable pub test_server : ℤ → Option (List ℕ)
unfolding start_threads
test_server (pos nb_threads) = some (start_threads 0 (if ltb 10 nb_threads then 10 else nb_threads))
test_server (negsuc n) = none

length-start_threads : (i left : ℕ) → length (start_threads i left) ≡ left
unfolding start_threads
length-start_threads i zero = refl
length-start_threads i (suc left) = ap suc (length-start_threads (i + 1) left)

-- A test has as many threads as it is asked for, and at most ten.
pub test_server-length :
    (nb_threads : ℕ) (threads : List ℕ)
    → test_server (pos nb_threads) ≡ some threads
    → (length threads ≤ nb_threads) × (length threads ≤ 10)
unfolding test_server
test_server-length nb_threads threads h =
    let n : ℕ = if ltb 10 nb_threads then 10 else nb_threads in
    let l : length threads ≡ n =
      ap length (sym (some-injective (start_threads 0 n) threads h)) ∙ length-start_threads 0 n in
    (ground (arith, l), ground (arith, l))
