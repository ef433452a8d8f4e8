-- ===== src/Pool/Totals.antt =====
-- Sums of a field over the threads of a pool, and what the pool's operations do to them.
use sa_wa.Base.{
  ℕ, ◌+◌, ◌<◌, ◌≡◌, refl, sym, ap, ◌∙◌, true, false, Option, none, some, List, [], ◌∷◌, arith,
  length, ◌==◌, Bool-cases, inl, inr, ==_iff,
}
use mathlib.Core.Option.{some-injective}
use sa_wa.Thread.{Ptr, ConnectionThread}
use sa_wa.Pool.{Heap, load, update}
use sa_wa.Pool.Chains.{mem, AllChain, load-update, load-update_self}
use sa_wa.Pool.Stats.{records}

-- The sum over a list of records, and over the threads at a list of pointers.
unfoldable pub total : (ConnectionThread → ℕ) → List ConnectionThread → ℕ
total f [] = 0
total f (t ∷ ts) = f t + total f ts

unfoldable pub value_at : (ConnectionThread → ℕ) → Option ConnectionThread → ℕ
value_at f none = 0
value_at f (some t) = f t

unfoldable pub total_at : (ConnectionThread → ℕ) → Heap → List Ptr → ℕ
unfolding value_at
total_at f h [] = 0
total_at f h (p ∷ ps) = value_at f (load h p) + total_at f h ps

module _ (f : ConnectionThread → ℕ) where
  pub total-records :
      (h : Heap) (p : Ptr) (qs : List Ptr) (c : AllChain h p qs)
      → total f (records h p qs c) ≡ total_at f h qs
  unfolding total records total_at value_at
  total-records h p [] c = refl
  total-records h p (q ∷ qs) (e, ne, t, l, n, c) =
      omega (arith, total-records h t.next_all qs c, ap (value_at f) l)

  -- A store to a thread that is not among those summed.
  pub total_at-frame :
      (h : Heap) (p : Ptr) (c : Option ConnectionThread) (qs : List Ptr)
      → mem p qs ≡ false
      → total_at f (update h p c) qs ≡ total_at f h qs
  unfolding total_at
  total_at-frame h p c [] out = refl
  total_at-frame h p c (q ∷ qs) out =
      let there : (q == p) ≡ false = ground arith in
      let same : load (update h p c) q ≡ load h q = load-update h p q c ∙ rw there refl in
      omega (arith, ap (value_at f) same, total_at-frame h p c qs (ground arith))

  -- A thread of a chain is numbered below the chain's length, so that no thread is in a chain twice.
  numbered_below :
      (h : Heap) (p q : Ptr) (qs : List Ptr) (t : ConnectionThread)
      → AllChain h q qs
      → load h p ≡ some t
      → mem p qs ≡ true
      → t.nb < length qs
  numbered_below h p q [] t c l m = absurd (cc)
  numbered_below h p q (r ∷ rs) t (e, ne, u, lu, n, c) l m = elim (Bool-cases (p == r)) [
    | inl here ↦
        let same : u ≡ t =
          some-injective u t (sym lu ∙ ap (load h) (sym ((==_iff p r).0 here)) ∙ l) in
        omega (arith, n, ap (λ x. x.nb) same)
    | inr there ↦ omega (arith, numbered_below h p u.next_all rs t c l (ground arith))
  ]

  -- A store to one of the threads summed.
  pub total_at-update :
      (h : Heap) (p q : Ptr) (qs : List Ptr) (t t' : ConnectionThread)
      → AllChain h q qs
      → load h p ≡ some t
      → mem p qs ≡ true
      → total_at f (update h p (some t')) qs + f t ≡ total_at f h qs + f t'
  unfolding total_at value_at
  total_at-update h p q [] t t' c l m = absurd (cc)
  total_at-update h p q (r ∷ rs) t t' (e, ne, u, lu, n, c) l m = elim (Bool-cases (p == r)) [
    | inl here ↦
        let pr : p ≡ r = (==_iff p r).0 here in
        let same : u ≡ t = some-injective u t (sym lu ∙ ap (load h) (sym pr) ∙ l) in
        let out : mem p rs ≡ false = elim (Bool-cases (mem p rs)) [
          | inl twice ↦
              absurd (
                omega (arith, numbered_below h p u.next_all rs t c l twice, n, ap (λ x. x.nb) same))
          | inr once ↦ once
        ] in
        let new : load (update h p (some t')) r ≡ some t' =
          ap (load (update h p (some t'))) (sym pr) ∙ load-update_self h p (some t') in
        let old : load h r ≡ some t = ap (load h) (sym pr) ∙ l in
        omega (arith, ap (value_at f) new, ap (value_at f) old, total_at-frame h p (some t') rs out)
    | inr there ↦
        let away : (r == p) ≡ false = ground arith in
        let same : load (update h p (some t')) r ≡ load h r =
          load-update h p r (some t') ∙ rw away refl in
        omega
          (arith, ap (value_at f) same, total_at-update h p u.next_all rs t t' c l (ground arith))
  ]
