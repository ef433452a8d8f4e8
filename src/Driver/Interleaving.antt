-- ===== src/Driver/Interleaving.antt =====
-- Runs of the driver: requests arrive, the block layer calls the driver, and the handler of the work takes its steps, in any order.
use sa_wa.Base.{ℕ, zero, suc, ◌≡◌, ◌≢◌, false, Option, none, some, List, [], ◌++◌, ◌+◌, ℤ, ◌>>=◌}
use sa_wa.Driver.Fetching.{times, submitted}
use sa_wa.Driver.Queue.{BlockLayer, Driver, idle, testing, blockdev_request, work_handler}

module _ (B : BlockLayer) where
  -- The driver behind its initialisation.
  pub record IsFresh (d : Driver B) : Type 0 where
    pub at_rest : d.phase ≡ idle
    pub unscheduled : d.scheduled ≡ false
    pub nothing : d.current_req ≡ none
    pub empty : B.waiting d.queue ≡ []
    pub no_end : d.ended ≡ []

  -- The handler does not stand between the lock and a test that finds no request.
  abbrev pub Clear : Driver B → Type 0
  Clear d = d.phase ≡ testing → d.current_req ≢ none

  -- A run in which this has been submitted to the queue. The block layer may put new requests
  -- anywhere among those that wait, coalesce and sort them, at any time; it calls the request function
  -- at some later time, in a state that may meet the call.
  pub data Run (May : Driver B → Type 0) : List ℕ → Driver B → Type 0 where
    start : {d : Driver B} → IsFresh d → Run May [] d
    arrives :
        {d d' : Driver B} {arrived arrived' : List ℕ}
        → Run May arrived d
        → (q : B.Queue) (new : List ℕ)
        → ((a : ℕ)
            → times a (submitted B (B.waiting q))
              ≡ times a (submitted B (B.waiting d.queue)) + times a new)
        → d' ≡ record d { queue = q }
        → arrived' ≡ arrived ++ new
        → Run May arrived' d'
    calls :
        {d d' : Driver B} {arrived : List ℕ}
        → Run May arrived d
        → May d
        → blockdev_request B d d.queue ≡ some d'
        → Run May arrived d'
    works :
        {d d' : Driver B} {arrived : List ℕ}
        → Run May arrived d
        → (ret : ℤ) → work_handler B ret d ≡ some d'
        → Run May arrived d'

  -- Steps of the handler alone.
  unfoldable pub work : (ℕ → ℤ) → ℕ → Driver B → Option (Driver B)
  work ret zero d = some d
  work ret (suc n) d = do d' ← work_handler B (ret n) d; work ret n d'
