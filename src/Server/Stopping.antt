-- ===== src/Server/Stopping.antt =====
-- Server::stop of server/server.cpp with the destructors that it runs, and ctrl_c_handler of
-- server/sawad.cpp.
use sa_wa.Base.{
  ℕ, ◌≡◌, ap, ◌∙◌, refl, Bool, true, false, Option, some, List, [], ◌∷◌, ◌++◌, ◌>>=◌, codes, arith,
  ◌==◌,
}
use sa_wa.Thread.{Ptr, null}
use sa_wa.Main.{Display}
use sa_wa.Pool.{ThreadPool, emptied, killed, kill, destroy, load}
use sa_wa.Pool.Invariant.{Inv}
use sa_wa.Display.{Output, methods}

-- How the process ends: with an exit code, or by SIGALRM in the pool's destructor. The listening
-- socket and the administrator's one are shut down before; the outputs are the display's last ones.
pub data Halting : Type 0 where
  exits : ℕ → List Output → Halting
  ended_by_alarm : ThreadPool → List Output → Halting

-- The destructors of the administrative interface, of the pool and of the screen, in this order. The
-- microseconds of the two messages are arguments. That the server's destructor closes its stream
-- leaves no trace.
unfoldable pub stop : Display → Bool → ℕ × ℕ → ThreadPool → Option Halting
stop screen debug_flag usec pool = do
  destroyed ← destroy pool
  let first = (methods screen).debug debug_flag usec.0 (codes "Shutting down admin interface\n")
  elim destroyed [
    | emptied ↦ some (
        exits 0 (
          first
          ++ ((methods screen).debug debug_flag usec.1
                (codes "Shutting down...(0 connections dropped)\n")
              ++ (methods screen).cleanup)))
    | killed pool' ↦ some (ended_by_alarm pool' first)
  ]

unfoldable pub ctrl_c_handler : Display → Bool → ℕ × ℕ → ThreadPool → Option Halting
unfolding stop
ctrl_c_handler screen debug_flag usec pool = stop screen debug_flag usec pool

-- How the handler is to end on a pool with these threads.
abbrev pub ending : Display → Bool → ℕ × ℕ → ThreadPool → List Ptr → Halting
ending screen debug_flag usec pool [] = exits 0 (
    (methods screen).debug debug_flag usec.0 (codes "Shutting down admin interface\n")
    ++ ((methods screen).debug debug_flag usec.1 (codes "Shutting down...(0 connections dropped)\n")
        ++ (methods screen).cleanup))
ending screen debug_flag usec pool (p ∷ ps) =
    ended_by_alarm (record pool { signals = kill p ∷ pool.signals })
      ((methods screen).debug debug_flag usec.0 (codes "Shutting down admin interface\n"))

pub ctrl_c_handler-ending :
    (screen : Display) (debug_flag : Bool) (usec : ℕ × ℕ) (pool : ThreadPool) (all idle : List Ptr)
    → Inv pool all idle
    → ctrl_c_handler screen debug_flag usec pool ≡ some (ending screen debug_flag usec pool all)
unfolding ctrl_c_handler destroy
ctrl_c_handler-ending screen debug_flag usec pool [] idle v =
    let none_left : (pool.all_threads == null) ≡ true = ground (arith, v.all_chain) in
    rw (ctrl_c_handler, none_left) refl
ctrl_c_handler-ending screen debug_flag usec pool (p ∷ ps) idle v =
    let (e, ne, t, l, n, chain) = v.all_chain in
    let more : (pool.all_threads == null) ≡ false = ground arith in
    rw (ctrl_c_handler, more, ap (load pool.heap) e ∙ l)
      (ap
        (λ q. some (
          ended_by_alarm (record pool { signals = kill q ∷ pool.signals })
            ((methods screen).debug debug_flag usec.0 (codes "Shutting down admin interface\n"))))
        e)
