-- ===== src/Admin/Accepting.antt =====
-- AdminInterface::connectionHandler of server/sawa_admin.cpp: administrators' connections, one behind
-- the other, up to the one that stops the process.
use sa_wa.Base.{
  ℕ, zero, suc, Bool, true, false, Option, none, some, List, [], ◌∷◌, ℤ, pos, negsuc, if◌then◌else◌,
}
use sa_wa.Storage.{Recv}
use sa_wa.Admin.{AdminSession, read_command}

-- How the socket of the interface is set up: on what socket and bind answer, whether the interface
-- listens, and how many errors are shown.
unfoldable pub set_up : ℤ → ℤ → Bool × ℕ
set_up (pos n) (pos m) = (true, 0)
set_up (pos n) (negsuc m) = (false, 1)
set_up (negsuc zero) (pos m) = (true, 1)
set_up (negsuc zero) (negsuc m) = (false, 2)
set_up (negsuc (suc n)) (pos m) = (true, 0)
set_up (negsuc (suc n)) (negsuc m) = (false, 1)

-- The loop of accept, on the sockets that it answers with and what each read on them answers. A
-- stopped process accepts no more.
unfoldable pub accept_commands :
    (ℕ → ℕ → ℕ) → AdminSession → List (ℤ × List Recv) → Option AdminSession
accept_commands stale s [] = some s
accept_commands stale s ((pos zero, answers) ∷ rest) = some s
accept_commands stale s ((pos (suc n), answers) ∷ rest) = elim (read_command stale s answers) [
  | none ↦ none
  | some s' ↦ elim s'.stopped [ true ↦ some s' | false ↦ accept_commands stale s' rest ]
]
accept_commands stale s ((negsuc n, answers) ∷ rest) = elim (read_command stale s answers) [
  | none ↦ none
  | some s' ↦ elim s'.stopped [ true ↦ some s' | false ↦ accept_commands stale s' rest ]
]

-- connectionHandler: the loop is not reached where the socket is not bound.
unfoldable pub admin_handler :
    (ℕ → ℕ → ℕ) → ℤ → ℤ → AdminSession → List (ℤ × List Recv) → Option AdminSession
unfolding set_up accept_commands
admin_handler stale socket bound s connections =
    if (set_up socket bound).0 then accept_commands stale s connections else some s
