-- ===== src/Driver/Draining.antt =====
-- main.c: that the handler of the work comes to rest, with no request left.
use sa_wa.Base.{
  ℕ, zero, suc, ◌≤◌, ◌+◌, ◌≡◌, refl, sym, ap, ◌∙◌, subst, false, none, some, List, [], ◌++◌, ℤ,
  arith, append-nil, ◌>>=◌,
}
use sa_wa.Driver.Queue.{BlockLayer, Driver, idle, blockdev_request}
use sa_wa.Driver.Interleaving.{Clear, Run, work}
use sa_wa.Driver.Fetching.{identities, weight, Settled, times, submitted}
use sa_wa.Driver.Order.{
  Inv, rank, steps_left, work_handler-Inv, resting, due, before, after, tested,
}
use sa_wa.Driver.Arrivals.{Run-Inv, blockdev_request-Called}

module _ (B : BlockLayer) where
  -- The handler has returned, is not scheduled, and all the requests have been ended.
  pub record Drained (arrived : List ℕ) (d : Driver B) : Type 0 where
    pub at_rest : d.phase ≡ idle
    pub unscheduled : d.scheduled ≡ false
    pub nothing : d.current_req ≡ none
    pub empty : B.waiting d.queue ≡ []
    pub all_ended : (a : ℕ) → times a d.ended ≡ times a arrived

  -- A handler with no steps left rests.
  rested :
      (arrived : List ℕ) (d : Driver B)
      → Inv B arrived d
      → Settled B d.current_req (B.waiting d.queue)
      → steps_left B d ≤ 0
      → Drained arrived d
  unfolding steps_left rank weight Settled identities submitted
  rested arrived d v z h = elim v.situation [
    | resting p s c ↦
        let e : B.waiting d.queue ≡ [] = subst (λ x. Settled B x (B.waiting d.queue)) c z in
        record {
          at_rest = p;
          unscheduled = s;
          nothing = c;
          empty = e;
          all_ended = λ a.
              ap (times a) (
                sym (append-nil d.ended)
                ∙ ap (λ ws. d.ended ++ submitted B ws) (sym e)
                ∙ ap (λ x. d.ended ++ identities B x (B.waiting d.queue)) (sym c))
              ∙ v.kept a;
        }
    | due p s r c ↦ absurd (ground (arith, h, p, s))
    | before p s r c ↦ absurd (ground (arith, h, p, c))
    | after n p s r c ↦ absurd (ground (arith, h, p, c))
    | tested p s ↦ absurd (ground (arith, h, p))
  ]

  drain :
      (n : ℕ) (ret : ℕ → ℤ) (arrived : List ℕ) (d : Driver B)
      → Inv B arrived d
      → Settled B d.current_req (B.waiting d.queue)
      → steps_left B d ≤ n
      → (d' : Driver B) × (work B ret n d ≡ some d') × Drained arrived d'
  unfolding work
  drain zero ret arrived d v z h = (d, refl, rested arrived d v z h)
  drain (suc n) ret arrived d v z h =
      let (d₁, e, stepped) = work_handler-Inv B (ret n) arrived d v in
      let (d₂, f, drained) =
        drain n ret arrived d₁ stepped.inv (stepped.settled z) (omega (arith, stepped.nearer)) in
      (d₂, ap (λ x. x >>= work B ret n) e ∙ f, drained)

  -- A run from a fresh driver in which the request function is not called between the handler's lock
  -- and a last test that finds no request, has come to a state that is not between these two, and the
  -- request function is called. This does not fail, and when nothing more arrives and it is not called
  -- again, the handler returns within `steps_left` steps, whatever the transfers return, without an
  -- access through a null pointer. It is not scheduled then, no request is current, none waits, and
  -- each number that was submitted has been ended as often as it was submitted.
  pub work-Drained :
      {arrived : List ℕ} {d : Driver B}
      → Run B (Clear B) arrived d
      → Clear B d
      → (ret : ℕ → ℤ) (n : ℕ)
      → (d₁ : Driver B) × (d' : Driver B) × (blockdev_request B d d.queue ≡ some d₁)
        × (work B ret (steps_left B d₁ + n) d₁ ≡ some d')
        × Drained arrived d'
  work-Drained {arrived} {d} run clear ret n =
      let (d₁, called) = blockdev_request-Called B arrived d (Run-Inv B run) clear in
      let (d', e, drained) =
        drain (steps_left B d₁ + n) ret arrived d₁ called.inv called.settled (omega arith) in
      (d₁, d', called.done, e, drained)
