-- ===== src/Driver/Order.antt =====
-- The invariant of the driver between its steps, and the steps of the handler.
use sa_wa.Base.{
  ℕ, suc, ◌+◌, ◌-◌, ◌*◌, ◌<◌, ◌≤◌, ◌≡◌, refl, sym, ap, ◌∙◌, Bool, true, false, none, some, List,
  ◌++◌, ℤ, arith, append_assoc, Option-cases, inl, inr,
}
use sa_wa.Driver.Queue.{
  BlockLayer, Driver, Phase, idle, transferring, ending, testing, end_current, work_handler,
}
use sa_wa.Driver.Fetching.{
  times, submitted, identities, weights, weight, Settled, set_next_request-Fetched,
}

module _ (B : BlockLayer) where
  -- The ways in which the handler, the schedule and the current request go together.
  pub data Situation (d : Driver B) : Type 0 where
    resting : d.phase ≡ idle → d.scheduled ≡ false → d.current_req ≡ none → Situation d
    due :
        d.phase ≡ idle → d.scheduled ≡ true → (r : B.Request) → d.current_req ≡ some r → Situation d
    before :
        d.phase ≡ transferring
        → d.scheduled ≡ false
        → (r : B.Request) → d.current_req ≡ some r
        → Situation d
    after :
        (ret : ℤ)
        → d.phase ≡ ending ret
        → d.scheduled ≡ false
        → (r : B.Request) → d.current_req ≡ some r
        → Situation d
    tested : d.phase ≡ testing → d.scheduled ≡ false → Situation d

  pub record Inv (arrived : List ℕ) (d : Driver B) : Type 0 where
    pub kept :
        (a : ℕ)
        → times a (d.ended ++ identities B d.current_req (B.waiting d.queue)) ≡ times a arrived
    pub situation : Situation d

  -- A bound on the steps until the handler rests.
  unfoldable pub rank : Phase → Bool → ℕ → ℕ
  rank idle false w = 0
  rank idle true w = 3 * w + 1
  rank transferring s w = 3 * w
  rank (ending ret) s w = 3 * w - 1
  rank testing s w = 3 * w + 1

  unfoldable pub steps_left : Driver B → ℕ
  unfolding rank weight
  steps_left d = rank d.phase d.scheduled (weight B d.current_req (B.waiting d.queue))

  -- A step of the handler keeps the invariant and comes nearer to rest.
  pub record Stepped (arrived : List ℕ) (d d' : Driver B) : Type 0 where
    pub inv : Inv arrived d'
    pub nearer : steps_left d' ≤ steps_left d - 1
    pub settled :
        Settled B d.current_req (B.waiting d.queue) → Settled B d'.current_req (B.waiting d'.queue)

  step-resting :
      (ret : ℤ) (arrived : List ℕ) (d : Driver B)
      → Inv arrived d
      → d.phase ≡ idle
      → d.scheduled ≡ false
      → d.current_req ≡ none
      → (d' : Driver B) × (work_handler B ret d ≡ some d') × Stepped arrived d d'
  unfolding work_handler steps_left rank
  step-resting ret arrived d v p s c =
      (d, ground (arith, p, s), record { inv = v; nearer = ground (arith, p, s); settled = λ x. x })

  step-due :
      (ret : ℤ) (arrived : List ℕ) (d : Driver B)
      → Inv arrived d
      → d.phase ≡ idle
      → d.scheduled ≡ true
      → (r : B.Request) → d.current_req ≡ some r
      → (d' : Driver B) × (work_handler B ret d ≡ some d') × Stepped arrived d d'
  unfolding work_handler steps_left rank
  step-due ret arrived d v p s r c = (
    record d { phase = transferring; scheduled = false },
    ground (arith, p, s),
    record {
      inv = record { kept = v.kept; situation = before refl refl r c };
      nearer = ground (arith, p, s);
      settled = λ x. x;
    },
  )

  step-before :
      (ret : ℤ) (arrived : List ℕ) (d : Driver B)
      → Inv arrived d
      → d.phase ≡ transferring
      → d.scheduled ≡ false
      → (r : B.Request) → d.current_req ≡ some r
      → (d' : Driver B) × (work_handler B ret d ≡ some d') × Stepped arrived d d'
  unfolding work_handler steps_left rank
  step-before ret arrived d v p s r c = (
    record d { phase = ending ret },
    ground (arith, p, c),
    record {
      inv = record { kept = v.kept; situation = after ret refl s r c };
      nearer = ground (arith, p, s);
      settled = λ x. x;
    },
  )

  step-tested :
      (ret : ℤ) (arrived : List ℕ) (d : Driver B)
      → Inv arrived d
      → d.phase ≡ testing
      → d.scheduled ≡ false
      → (d' : Driver B) × (work_handler B ret d ≡ some d') × Stepped arrived d d'
  unfolding work_handler steps_left rank
  step-tested ret arrived d v p s = elim (Option-cases d.current_req) [
    | inl c ↦ (
      record d { phase = idle },
      ground (arith, p, c),
      record {
        inv = record { kept = v.kept; situation = resting refl s c };
        nearer = ground (arith, p, s);
        settled = λ x. x;
      },
    )
    | inr (r, c) ↦ (
      record d { phase = transferring },
      ground (arith, p, c),
      record {
        inv = record { kept = v.kept; situation = before refl s r c };
        nearer = ground (arith, p, s);
        settled = λ x. x;
      },
    )
  ]

  module _ (arrived : List ℕ) (d : Driver B) (v : Inv arrived d) (n : ℤ) (p : d.phase ≡ ending n)
      (s : d.scheduled ≡ false) (r : B.Request) (c : d.current_req ≡ some r) where
    held :
        (a : ℕ)
        → times a (d.ended ++ (B.carried r ++ submitted B (B.waiting d.queue))) ≡ times a arrived
    unfolding identities
    held a = ap (λ x. times a (d.ended ++ identities B x (B.waiting d.queue))) (sym c) ∙ v.kept a

    burden :
        weight B d.current_req (B.waiting d.queue) ≡ suc (B.parts r) + weights B (B.waiting d.queue)
    unfolding weight
    burden = ap (λ x. weight B x (B.waiting d.queue)) c

    nearer-after :
        (d' : Driver B)
        → d'.phase ≡ testing
        → weight B d'.current_req (B.waiting d'.queue) < weight B d.current_req (B.waiting d.queue)
        → steps_left d' ≤ steps_left d - 1
    unfolding steps_left rank
    nearer-after d' t less = ground (arith, p, t)

    step-part :
        (ret : ℤ) (r' : B.Request)
        → B.blk_end_request_cur r n ≡ some r'
        → (d' : Driver B) × (work_handler B ret d ≡ some d') × Stepped arrived d d'
    unfolding work_handler end_current identities weight Settled
    step-part ret r' e =
        let d' : Driver B = record d { current_req = some r'; phase = testing } in
        (
          d',
          ground (arith, p, c, e),
          record {
            inv = record {
              kept = λ a.
                  ap (λ x. times a (d.ended ++ (x ++ submitted B (B.waiting d.queue))))
                    (B.end_carried r r' n e)
                  ∙ held a;
              situation = tested refl s;
            };
            nearer = nearer-after d' refl (omega (arith, burden, B.end_parts r r' n e));
            settled = λ x. tt;
          },
        )

    step-end :
        (ret : ℤ)
        → B.blk_end_request_cur r n ≡ none
        → (d' : Driver B) × (work_handler B ret d ≡ some d') × Stepped arrived d d'
    unfolding work_handler end_current
    step-end ret e =
        let d₀ : Driver B = record d { ended = d.ended ++ B.carried r } in
        let (q', c', ended', f, fetched) = set_next_request-Fetched B d₀ in
        let d' : Driver B = record d {
          queue = q';
          current_req = c';
          ended = ended';
          phase = testing;
        } in
        (
          d',
          ground (arith, p, c, e, f),
          record {
            inv = record {
              kept = λ a.
                  ap (times a) (
                    fetched.kept
                    ∙ append_assoc d.ended (B.carried r) (submitted B (B.waiting d.queue)))
                  ∙ held a;
              situation = tested refl s;
            };
            nearer = nearer-after d' refl (omega (arith, burden, fetched.lighter));
            settled = λ x. fetched.settled;
          },
        )

  pub work_handler-Inv :
      (ret : ℤ) (arrived : List ℕ) (d : Driver B)
      → Inv arrived d
      → (d' : Driver B) × (work_handler B ret d ≡ some d') × Stepped arrived d d'
  work_handler-Inv ret arrived d v = elim v.situation [
    | resting p s c ↦ step-resting ret arrived d v p s c
    | due p s r c ↦ step-due ret arrived d v p s r c
    | before p s r c ↦ step-before ret arrived d v p s r c
    | after n p s r c ↦ elim (Option-cases (B.blk_end_request_cur r n)) [
      | inl e ↦ step-end arrived d v n p s r c ret e
      | inr (r', e) ↦ step-part arrived d v n p s r c ret r' e
    ]
    | tested p s ↦ step-tested ret arrived d v p s
  ]
