-- ===== src/Driver/Fetching.antt =====
-- What set_next_request leaves: the current request, the queue, and what was ended on the way.
use sa_wa.Base.{
  ℕ, zero, suc, ◌+◌, ◌<◌, ◌≤◌, ◌≡◌, refl, ap, ◌∙◌, true, false, Option, none, some, List, [], ◌∷◌,
  ◌++◌, if◌then◌else◌, ◌==◌, length, arith, append_assoc, Bool-cases, inl, inr,
}
use sa_wa.Driver.Queue.{BlockLayer, Driver, fetch_loop, set_next_request}

-- How often a number stands in a list.
unfoldable pub times : ℕ → List ℕ → ℕ
times a [] = 0
times a (b ∷ bs) = (if a == b then 1 else 0) + times a bs

pub times-append : (a : ℕ) (xs ys : List ℕ) → times a (xs ++ ys) ≡ times a xs + times a ys
unfolding times
times-append a [] ys = omega arith
times-append a (x ∷ xs) ys = omega (arith, times-append a xs ys)

module _ (B : BlockLayer) where
  -- What has been submitted in these requests.
  unfoldable pub submitted : List B.Request → List ℕ
  submitted [] = []
  submitted (r ∷ rs) = B.carried r ++ submitted rs

  unfoldable pub identities : Option B.Request → List B.Request → List ℕ
  unfolding submitted
  identities none rs = submitted rs
  identities (some r) rs = B.carried r ++ submitted rs

  -- The work that is left, one for a request and one for each of its parts.
  unfoldable pub weights : List B.Request → ℕ
  weights [] = 0
  weights (r ∷ rs) = suc (B.parts r) + weights rs

  unfoldable pub weight : Option B.Request → List B.Request → ℕ
  weight none rs = weights rs
  weight (some r) rs = suc (B.parts r) + weights rs

  -- With no current request the queue is empty.
  unfoldable pub Settled : Option B.Request → List B.Request → Type 0
  Settled none rs = rs ≡ []
  Settled (some r) rs = Unit

  -- What a fetch leaves, from requests that waited and those that had been ended.
  pub record Fetched (ws : List B.Request) (ended : List ℕ) (q : B.Queue)
      (current : Option B.Request) (ended' : List ℕ) : Type 0 where
    pub kept : ended' ++ identities current (B.waiting q) ≡ ended ++ submitted ws
    pub settled : Settled current (B.waiting q)
    pub lighter : weight current (B.waiting q) ≤ weights ws

  module _ (q : B.Queue) (ended : List ℕ) (fuel : ℕ) where
    pub fetch-none :
        (B.blk_fetch_request q).1 ≡ none
        → fetch_loop B (suc fuel) q ended ≡ some ((B.blk_fetch_request q).0, none, ended)
    unfolding fetch_loop
    fetch-none e = ground (arith, e)

    pub fetch-fs :
        (r : B.Request)
        → (B.blk_fetch_request q).1 ≡ some r
        → B.is_fs r ≡ true
        → fetch_loop B (suc fuel) q ended ≡ some ((B.blk_fetch_request q).0, some r, ended)
    unfolding fetch_loop
    fetch-fs r e f = ground (arith, e, f)

    fetch-skip :
        (r : B.Request)
        → (B.blk_fetch_request q).1 ≡ some r
        → B.is_fs r ≡ false
        → fetch_loop B (suc fuel) q ended
          ≡ fetch_loop B fuel (B.blk_fetch_request q).0 (ended ++ B.carried r)
    unfolding fetch_loop
    fetch-skip r e f = ground (arith, e, f)

  fetch_loop-Fetched :
      (ws : List B.Request) (fuel : ℕ) (q : B.Queue) (ended : List ℕ)
      → B.waiting q ≡ ws
      → length ws < fuel
      → (q' : B.Queue) × (current : Option B.Request) × (ended' : List ℕ) × (fetch_loop B fuel q
            ended
          ≡ some (q', current, ended'))
        × Fetched ws ended q' current ended'
  unfolding identities Settled weight weights
  fetch_loop-Fetched ws zero q ended w h = absurd (omega arith)
  fetch_loop-Fetched [] (suc fuel) q ended w h =
      let e = B.fetch_stays q w in
      (
        (B.blk_fetch_request q).0,
        none,
        ended,
        fetch-none q ended fuel (B.fetch_empty q w),
        record {
          kept = ap (λ x. ended ++ submitted x) e;
          settled = e;
          lighter = omega (arith, ap weights e);
        },
      )
  fetch_loop-Fetched (r ∷ rs) (suc fuel) q ended w h =
      let rest = B.fetch_rest q r rs w in
      let first = B.fetch_first q r rs w in
      elim (Bool-cases (B.is_fs r)) [
        | inl f ↦ (
          (B.blk_fetch_request q).0,
          some r,
          ended,
          fetch-fs q ended fuel r first f,
          record {
            kept = ap (λ x. ended ++ (B.carried r ++ submitted x)) rest;
            settled = tt;
            lighter = omega (arith, ap weights rest);
          },
        )
        | inr f ↦
            let (q', c, ended', e, v) =
              fetch_loop-Fetched rs fuel (B.blk_fetch_request q).0 (ended ++ B.carried r) rest
                (omega arith) in
            (
              q',
              c,
              ended',
              fetch-skip q ended fuel r first f ∙ e,
              record {
                kept = v.kept ∙ append_assoc ended (B.carried r) (submitted rs);
                settled = v.settled;
                lighter = omega (arith, v.lighter);
              },
            )
      ]

  pub set_next_request-Fetched :
      (d : Driver B)
      → (q' : B.Queue) × (current : Option B.Request) × (ended' : List ℕ) × (set_next_request B d
          ≡ some (record d { queue = q'; current_req = current; ended = ended' }))
        × Fetched (B.waiting d.queue) d.ended q' current ended'
  unfolding set_next_request
  set_next_request-Fetched d =
      let (q', c, ended', e, v) =
        fetch_loop-Fetched (B.waiting d.queue) (suc (length (B.waiting d.queue))) d.queue d.ended
          refl (omega arith) in
      (q', c, ended', ground (arith, e), v)
