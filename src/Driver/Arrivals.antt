-- ===== src/Driver/Arrivals.antt =====
-- Requests that arrive, and what holds of every run in which none arrives between the handler's lock
-- and a last test that finds no request.
use sa_wa.Base.{
  ℕ, ◌+◌, ◌≡◌, refl, sym, ap, ◌∙◌, subst, true, false, Option, none, some, List, [], ◌++◌, ℤ, arith,
  append-nil, Option-cases, inl, inr, ◌⊎◌,
}
use mathlib.Core.Option.{some-injective, none-ne-some}
use sa_wa.Driver.Queue.{BlockLayer, Driver, idle, testing, blockdev_request, work_handler}
use sa_wa.Driver.Interleaving.{IsFresh, Clear, Run, start, arrives, calls, works}
use sa_wa.Driver.Fetching.{
  times, times-append, submitted, identities, Settled, set_next_request-Fetched,
}
use sa_wa.Driver.Order.{Situation, Inv, work_handler-Inv, resting, due, before, after, tested}

module _ (B : BlockLayer) where
  Situation-queue :
      (d : Driver B) (q : B.Queue) → Situation B d → Situation B (record d { queue = q })
  Situation-queue d q (resting p s c) = resting p s c
  Situation-queue d q (due p s r c) = due p s r c
  Situation-queue d q (before p s r c) = before p s r c
  Situation-queue d q (after n p s r c) = after n p s r c
  Situation-queue d q (tested p s) = tested p s

  times-identities :
      (a : ℕ) (c : Option B.Request) (ws : List B.Request)
      → times a (identities B c ws) ≡ times a (identities B c []) + times a (submitted B ws)
  unfolding identities times
  times-identities a none ws = omega arith
  times-identities a (some c) ws =
      omega (arith, times-append a (B.carried c) (submitted B ws), times-append a (B.carried c) [])

  -- What is submitted joins what waits, in whatever place.
  arrival-Inv :
      (arrived new : List ℕ) (d : Driver B) (q : B.Queue)
      → Inv B arrived d
      → ((a : ℕ)
          → times a (submitted B (B.waiting q))
            ≡ times a (submitted B (B.waiting d.queue)) + times a new)
      → Inv B (arrived ++ new) (record d { queue = q })
  arrival-Inv arrived new d q v joins = record {
    kept = λ a. omega (
      arith,
      v.kept a,
      joins a,
      times-append a arrived new,
      times-append a d.ended (identities B d.current_req (B.waiting q)),
      times-append a d.ended (identities B d.current_req (B.waiting d.queue)),
      times-identities a d.current_req (B.waiting q),
      times-identities a d.current_req (B.waiting d.queue),
    );
    situation = Situation-queue d q v.situation;
  }

  -- A call of the request function keeps the invariant, and leaves a current request if any waits.
  pub record Called (arrived : List ℕ) (d d' : Driver B) : Type 0 where
    pub done : blockdev_request B d d.queue ≡ some d'
    pub inv : Inv B arrived d'
    pub settled : Settled B d'.current_req (B.waiting d'.queue)

  module _ (arrived : List ℕ) (d : Driver B) (v : Inv B arrived d) where
    -- A call while a request is current.
    call-busy : (c : B.Request) → d.current_req ≡ some c → (d' : Driver B) × Called arrived d d'
    unfolding blockdev_request Settled
    call-busy c e = (
      d,
      record {
        done = ground (arith, e);
        inv = v;
        settled = subst (λ x. Settled B x (B.waiting d.queue)) (sym e) tt;
      },
    )

    -- A call while the driver rests.
    call-rest :
        d.phase ≡ idle
        → d.scheduled ≡ false
        → d.current_req ≡ none
        → (d' : Driver B) × Called arrived d d'
    unfolding blockdev_request identities
    call-rest p s c =
        let (q', c', ended', f, fetched) = set_next_request-Fetched B d in
        let all : (a : ℕ) → times a (ended' ++ identities B c' (B.waiting q')) ≡ times a arrived =
          λ a.
            ap (times a) fetched.kept
            ∙ ap (λ x. times a (d.ended ++ identities B x (B.waiting d.queue))) (sym c)
            ∙ v.kept a in
        elim (Option-cases c') [
          | inl e ↦ (
            record d { queue = q'; current_req = c'; ended = ended' },
            record {
              done = ground (arith, c, f, e);
              inv = record { kept = all; situation = resting p s e };
              settled = fetched.settled;
            },
          )
          | inr (r', e) ↦ (
            record d { queue = q'; current_req = c'; ended = ended'; scheduled = true },
            record {
              done = ground (arith, c, f, e);
              inv = record { kept = all; situation = due p refl r' e };
              settled = fetched.settled;
            },
          )
        ]

    pub blockdev_request-Called : Clear B d → (d' : Driver B) × Called arrived d d'
    blockdev_request-Called clear = elim v.situation [
      | resting p s c ↦ call-rest p s c
      | due p s c e ↦ call-busy c e
      | before p s c e ↦ call-busy c e
      | after n p s c e ↦ call-busy c e
      | tested p s ↦ elim (Option-cases d.current_req) [
        | inl e ↦ absurd (clear p e)
        | inr (c, e) ↦ call-busy c e
      ]
    ]

  Clear-cases :
      (arrived : List ℕ) (d : Driver B)
      → Inv B arrived d
      → ((d.phase ≡ testing) × (d.current_req ≡ none)) ⊎ Clear B d
  Clear-cases arrived d v = elim v.situation [
    | resting p s c ↦ inr (λ t. absurd (ground (arith, p, t)))
    | due p s c e ↦ inr (λ t. absurd (ground (arith, p, t)))
    | before p s c e ↦ inr (λ t. absurd (ground (arith, p, t)))
    | after n p s c e ↦ inr (λ t. absurd (ground (arith, p, t)))
    | tested p s ↦ elim (Option-cases d.current_req) [
      | inl e ↦ inl (p, e)
      | inr (c, e) ↦ inr (λ t x. none-ne-some c (sym x ∙ e))
    ]
  ]

  fresh-Inv : (d : Driver B) → IsFresh B d → Inv B [] d
  unfolding identities
  fresh-Inv d f = record {
    kept = λ a. ap (times a) (
        ap (λ x. d.ended ++ identities B x (B.waiting d.queue)) f.nothing
        ∙ ap (λ ws. d.ended ++ submitted B ws) f.empty
        ∙ append-nil d.ended
        ∙ f.no_end);
    situation = resting f.at_rest f.unscheduled f.nothing;
  }

  -- The invariant holds in each run in which the request function is called in clear states.
  pub Run-Inv : {arrived : List ℕ} {d : Driver B} → Run B (Clear B) arrived d → Inv B arrived d
  Run-Inv (start f) = fresh-Inv _ f
  Run-Inv (arrives {d} {d'} {arrived} {arrived'} run q new joins same more) =
      subst (λ x. Inv B x d') (sym more)
        (subst (Inv B (arrived ++ new)) (sym same)
          (arrival-Inv arrived new d q (Run-Inv run) joins))
  Run-Inv (calls {d} {d'} {arrived} run clear e) =
      let (d'', called) = blockdev_request-Called arrived d (Run-Inv run) clear in
      subst (Inv B arrived) (some-injective d'' d' (sym called.done ∙ e)) called.inv
  Run-Inv (works {d} {d'} {arrived} run ret e) =
      let (d'', e', v) = work_handler-Inv B ret arrived d (Run-Inv run) in
      subst (Inv B arrived) (some-injective d'' d' (sym e' ∙ e)) v.inv

  -- In a run from a fresh driver, in which the block layer puts requests anywhere in its queue,
  -- coalesces and sorts those that wait, and calls the request function at any time but between the
  -- handler's lock and a last test that finds no request: all that was submitted has been ended, is
  -- in the current request or waits, exactly as often as it was submitted; the next step of the
  -- handler is defined, whatever a transfer returns; and unless the handler stands between these two,
  -- so is a call of the request function, behind which no request waits unless one is current.
  pub Run-work_handler :
      {arrived : List ℕ} {d : Driver B}
      → Run B (Clear B) arrived d
      → (ret : ℤ)
      → ((a : ℕ)
          → times a (d.ended ++ identities B d.current_req (B.waiting d.queue)) ≡ times a arrived)
        × ((d' : Driver B) × (work_handler B ret d ≡ some d'))
        × (((d.phase ≡ testing) × (d.current_req ≡ none))
            ⊎ ((d' : Driver B) × (blockdev_request B d d.queue ≡ some d')
                × Settled B d'.current_req (B.waiting d'.queue)))
  Run-work_handler {arrived} {d} run ret =
      let v = Run-Inv run in
      let (d', e, stepped) = work_handler-Inv B ret arrived d v in
      (
        v.kept,
        (d', e),
        elim (Clear-cases arrived d v) [
          | inl between ↦ inl between
          | inr clear ↦
              let (d'', called) = blockdev_request-Called arrived d v clear in
              inr (d'', called.done, called.settled)
        ],
      )
