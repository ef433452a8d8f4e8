-- ===== src/Driver/Race.antt =====
-- main.c: the request function is called between the handler's lock and its last test.
use sa_wa.Base.{
  ℕ, suc, ◌≡◌, refl, ap, ◌∙◌, true, false, none, some, List, [], ◌∷◌, ◌++◌, ℤ, length, arith, ◌>>=◌,
}
use sa_wa.Driver.Queue.{
  BlockLayer, Driver, idle, transferring, ending, testing, set_next_request, end_current,
  blockdev_request, work_handler,
}
use sa_wa.Driver.Interleaving.{Clear, Run, work}
use sa_wa.Driver.Fetching.{fetch-fs, fetch-none}
use sa_wa.Driver.Order.{Situation, resting, due, before, after, tested}
use sa_wa.Driver.Arrivals.{Run-Inv}

module _ (B : BlockLayer) where
  set_next_request-fs :
      (d : Driver B) (r : B.Request)
      → (B.blk_fetch_request d.queue).1 ≡ some r
      → B.is_fs r ≡ true
      → set_next_request B d
        ≡ some (record d { queue = (B.blk_fetch_request d.queue).0; current_req = some r })
  unfolding set_next_request
  set_next_request-fs d r first fs =
      let e = fetch-fs B d.queue d.ended (length (B.waiting d.queue)) r first fs in
      ground (arith, e)

  set_next_request-none :
      (d : Driver B)
      → (B.blk_fetch_request d.queue).1 ≡ none
      → set_next_request B d
        ≡ some (record d { queue = (B.blk_fetch_request d.queue).0; current_req = none })
  unfolding set_next_request
  set_next_request-none d empty =
      let e = fetch-none B d.queue d.ended (length (B.waiting d.queue)) empty in ground (arith, e)

  work-suc :
      (ret : ℕ → ℤ) (n : ℕ) (d d' : Driver B)
      → work_handler B (ret n) d ≡ some d'
      → work B ret (suc n) d ≡ work B ret n d'
  unfolding work
  work-suc ret n d d' e = ap (λ x. x >>= work B ret n) e

  Situation-unscheduled : (d : Driver B) → Situation B d → d.phase ≡ testing → d.scheduled ≡ false
  Situation-unscheduled d (resting p s c) t = s
  Situation-unscheduled d (due p s r c) t = absurd (ground (arith, p, t))
  Situation-unscheduled d (before p s r c) t = s
  Situation-unscheduled d (after n p s r c) t = s
  Situation-unscheduled d (tested p s) t = s

  module _ (d : Driver B) (q : B.Queue) (r : B.Request) (p : d.phase ≡ testing)
      (s : d.scheduled ≡ false) (c : d.current_req ≡ none) (w : B.waiting q ≡ r ∷ [])
      (fs : B.is_fs r ≡ true) where
    q₁ : B.Queue
    q₁ = (B.blk_fetch_request q).0

    q₂ : B.Queue
    q₂ = (B.blk_fetch_request q₁).0

    -- The work is scheduled while the handler is still running, and the handler then takes the request.
    taken : Driver B
    taken = record d { queue = q₁; current_req = some r; scheduled = true }

    arrival_lem : blockdev_request B d q ≡ some taken
    unfolding blockdev_request taken q₁
    arrival_lem =
        let e = set_next_request-fs (record d { queue = q }) r (B.fetch_first q r [] w) fs in
        ground (arith, c, e)

    testing_lem :
        (ret : ℤ) → work_handler B ret taken ≡ some (record taken { phase = transferring })
    unfolding work_handler taken
    testing_lem ret = ground (arith, p)

    transferring_lem :
        (ret : ℤ)
        → work_handler B ret (record taken { phase = transferring })
          ≡ some (record taken { phase = ending ret })
    unfolding work_handler taken
    transferring_lem ret = refl

    -- The handler ends the request and is scheduled although no request is current.
    over : Driver B
    over = record taken {
      queue = q₂;
      current_req = none;
      ended = d.ended ++ B.carried r;
      phase = testing;
    }

    ending_lem :
        (ret : ℤ)
        → B.blk_end_request_cur r ret ≡ none
        → work_handler B ret (record taken { phase = ending ret }) ≡ some over
    unfolding work_handler end_current taken over q₁ q₂
    ending_lem ret e =
        let f =
          set_next_request-none
            (record taken { phase = ending ret; ended = d.ended ++ B.carried r })
            (B.fetch_empty q₁ (B.fetch_rest q r [] w)) in
        ground (arith, e, f)

    last_lem : (ret : ℤ) → work_handler B ret over ≡ some (record over { phase = idle })
    unfolding work_handler over
    last_lem ret = refl

    started_lem :
        (ret : ℤ)
        → work_handler B ret (record over { phase = idle })
          ≡ some (record over { phase = transferring; scheduled = false })
    unfolding work_handler over taken
    started_lem ret = refl

    null_lem :
        (ret : ℤ)
        → work_handler B ret (record over { phase = transferring; scheduled = false }) ≡ none
    unfolding work_handler over
    null_lem ret = refl

    race : (ret : ℤ) → B.blk_end_request_cur r ret ≡ none → work B (λ n. ret) 6 taken ≡ none
    unfolding work
    race ret e =
        work-suc (λ n. ret) 5 taken (record taken { phase = transferring }) (testing_lem ret)
        ∙ work-suc (λ n. ret) 4 (record taken { phase = transferring })
            (record taken { phase = ending ret }) (transferring_lem ret)
        ∙ work-suc (λ n. ret) 3 (record taken { phase = ending ret }) over (ending_lem ret e)
        ∙ work-suc (λ n. ret) 2 over (record over { phase = idle }) (last_lem ret)
        ∙ work-suc (λ n. ret) 1 (record over { phase = idle })
            (record over { phase = transferring; scheduled = false }) (started_lem ret)
        ∙ ap (λ x. x >>= work B (λ n. ret) 0) (null_lem ret)

  -- A run from a fresh driver, in which so far the request function has not been called between the
  -- handler's lock and a last test that finds no request, has come between these two. If a file system
  -- request of one part is alone in the queue there and the request function is called, the driver
  -- takes it, and the handler's next six steps end in an access through a null pointer, when no other
  -- request arrives and each transfer returns the same number.
  pub blockdev_request-work_null :
      {arrived : List ℕ} {d : Driver B}
      → Run B (Clear B) arrived d
      → d.phase ≡ testing
      → d.current_req ≡ none
      → (q : B.Queue) (r : B.Request) (ret : ℤ) → B.waiting q ≡ r ∷ []
      → B.is_fs r ≡ true
      → B.blk_end_request_cur r ret ≡ none
      → (d' : Driver B) × (blockdev_request B d q ≡ some d') × (work B (λ n. ret) 6 d' ≡ none)
  blockdev_request-work_null {arrived} {d} run p c q r ret w fs e =
      let s = Situation-unscheduled d (Run-Inv B run).situation p in
      (taken d q r p s c w fs, arrival_lem d q r p s c w fs, race d q r p s c w fs ret e)
