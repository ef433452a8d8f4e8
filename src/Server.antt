-- ===== src/Server.antt =====
-- server/server.cpp: the failures of the constructor, and the loop that accepts connections. What
-- accept answers is an argument, with
-- the address of the allocation that a new thread would get.
pub mod Stopping
use sa_wa.Base.{
  ℕ, ◌≢◌, true, false, Option, none, some, List, [], ◌∷◌, ℤ, pos, negsuc, nonneg, arith, zero, suc,
  Option-cases, inl, inr,
}
use sa_wa.Base.{ℕ, if◌then◌else◌}
use sa_wa.Util.{failure_accept, failure_create_socket, failure_bind}
use sa_wa.Thread.{Ptr}
use sa_wa.Pool.{ThreadPool, handle_new_connection}

unfoldable pub bind_failure : ℤ → Option ℕ
bind_failure bound = if nonneg bound then none else some failure_bind

-- The constructor, on what socket and bind answer: the code that it throws, if any.
unfoldable pub server : ℤ → ℤ → Option ℕ
unfolding bind_failure
server (negsuc zero) bound = some failure_create_socket
server (negsuc (suc n)) bound = bind_failure bound
server (pos n) bound = bind_failure bound

-- How the loop ends: it waits for a further connection, returns, or throws a code.
pub data Ending : Type 0 where
  waiting : ThreadPool → Ending
  returned : ThreadPool → Ending
  thrown : ℕ → Ending

-- Behind the loop, where accept has answered a number.
unfoldable pub leave : ThreadPool → ℤ → Ending
leave pool client_sock = elim (nonneg client_sock) [
  | true ↦ returned pool
  | false ↦ thrown failure_accept
]

-- `while ((client_sock = accept(...)))` of Server::start.
unfoldable pub start : ThreadPool → List (ℤ × Ptr) → Option Ending
unfolding leave
start pool [] = some (waiting pool)
start pool ((pos zero, new) ∷ rest) = some (leave pool (pos zero))
start pool ((pos (suc n), new) ∷ rest) = elim (handle_new_connection new pool (pos (suc n))) [
  | none ↦ none
  | some pool' ↦ start pool' rest
]
start pool ((negsuc n, new) ∷ rest) = elim (handle_new_connection new pool (negsuc n)) [
  | none ↦ none
  | some pool' ↦ start pool' rest
]

-- The loop never throws the failure of accept, whatever accept answers.
pub start-never_thrown :
    (pool : ThreadPool) (answers : List (ℤ × Ptr)) (code : ℕ)
    → start pool answers ≢ some (thrown code)
unfolding start leave
start-never_thrown pool [] code h = ground arith
start-never_thrown pool ((pos zero, new) ∷ rest) code h = ground arith
start-never_thrown pool ((pos (suc n), new) ∷ rest) code h =
    elim (Option-cases (handle_new_connection new pool (pos (suc n)))) [
      | inl e ↦ ground (arith, e)
      | inr (p, e) ↦ ground (arith, e, start-never_thrown p rest code)
    ]
start-never_thrown pool ((negsuc n, new) ∷ rest) code h =
    elim (Option-cases (handle_new_connection new pool (negsuc n))) [
      | inl e ↦ ground (arith, e)
      | inr (p, e) ↦ ground (arith, e, start-never_thrown p rest code)
    ]
