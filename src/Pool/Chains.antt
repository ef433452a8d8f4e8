-- ===== src/Pool/Chains.antt =====
-- The two lists of the pool as chains through the heap.
use sa_wa.Base.{
  ◌≡◌, ◌≢◌, refl, sym, ap, ◌∙◌, Bool, true, false, ◌||◌, Option, none, some, List, [], ◌∷◌, negsuc,
  arith, length, ◌==◌, if◌then◌else◌, Bool-cases, inl, inr, ==_iff,
}
use mathlib.Core.Option.{some-injective}
use sa_wa.Thread.{Ptr, null, ConnectionThread}
use sa_wa.Pool.{Heap, load, update}

abbrev pub mem : Ptr → List Ptr → Bool
mem p [] = false
mem p (q ∷ qs) = (p == q) || mem p qs

-- From `p` the `next_all` pointers lead through these threads, each numbered by how many follow it.
abbrev pub AllChain : Heap → Ptr → List Ptr → Type 0
AllChain h p [] = p ≡ null
AllChain h p (q ∷ qs) =
    (p ≡ q)
    × (q ≢ null)
    × (t : ConnectionThread) × (load h q ≡ some t)
    × (t.nb ≡ length qs)
    × AllChain h t.next_all qs

-- From `p` the `next` pointers lead through these distinct threads, which serve no socket.
abbrev pub IdleChain : Heap → Ptr → List Ptr → Type 0
IdleChain h p [] = p ≡ null
IdleChain h p (q ∷ qs) =
    (p ≡ q)
    × (q ≢ null)
    × (t : ConnectionThread) × (load h q ≡ some t)
    × (t.client_sock ≡ negsuc 0)
    × (mem q qs ≡ false)
    × IdleChain h t.next qs

none≢some : {t : ConnectionThread} → none ≡ some t → ⊥
none≢some e = cc

pub load-update :
    (h : Heap) (p q : Ptr) (c : Option ConnectionThread)
    → load (update h p c) q ≡ (if q == p then c else load h q)
unfolding load update
load-update h p q c = refl

pub load-update_self :
    (h : Heap) (p : Ptr) (c : Option ConnectionThread) → load (update h p c) p ≡ c
load-update_self h p c = rw load-update (ground arith)

module _ (h : Heap) (p : Ptr) where
  -- A store to a thread that keeps its number and its link keeps the chain of all threads.
  pub AllChain-update :
      (t t' : ConnectionThread) (q : Ptr) (qs : List Ptr)
      → load h p ≡ some t
      → t'.nb ≡ t.nb
      → t'.next_all ≡ t.next_all
      → AllChain h q qs
      → AllChain (update h p (some t')) q qs
  AllChain-update t t' q [] l n a c = c
  AllChain-update t t' q (r ∷ rs) l n a (e, ne, u, lu, nu, c) = elim (Bool-cases (r == p)) [
    | inl here ↦
        let rp : r ≡ p = (==_iff r p).0 here in
        let same : u ≡ t = some-injective u t (sym lu ∙ ap (load h) rp ∙ l) in
        let link : t'.next_all ≡ u.next_all = a ∙ ap (λ x. x.next_all) (sym same) in
        (
          e,
          ne,
          t',
          load-update h p r (some t') ∙ rw here,
          n ∙ ap (λ x. x.nb) (sym same) ∙ nu,
          rw link (AllChain-update t t' u.next_all rs l n a c),
        )
    | inr there ↦ (
      e,
      ne,
      u,
      load-update h p r (some t') ∙ rw there lu,
      nu,
      AllChain-update t t' u.next_all rs l n a c,
    )
  ]

  -- A store elsewhere keeps a chain.
  pub AllChain-frame :
      (c : Option ConnectionThread) (q : Ptr) (qs : List Ptr)
      → mem p qs ≡ false
      → AllChain h q qs
      → AllChain (update h p c) q qs
  AllChain-frame c q [] out chain = chain
  AllChain-frame c q (r ∷ rs) out (e, ne, u, lu, nu, chain) = (
    e,
    ne,
    u,
    load-update h p r c ∙ ground arith,
    nu,
    AllChain-frame c u.next_all rs (ground arith) chain,
  )

  pub IdleChain-frame :
      (c : Option ConnectionThread) (q : Ptr) (qs : List Ptr)
      → mem p qs ≡ false
      → IdleChain h q qs
      → IdleChain (update h p c) q qs
  IdleChain-frame c q [] out chain = chain
  IdleChain-frame c q (r ∷ rs) out (e, ne, u, lu, su, nu, chain) = (
    e,
    ne,
    u,
    load-update h p r c ∙ ground arith,
    su,
    nu,
    IdleChain-frame c u.next rs (ground arith) chain,
  )

  -- A thread that is not allocated is in no chain.
  pub AllChain-fresh :
      (q : Ptr) (qs : List Ptr) → load h p ≡ none → AllChain h q qs → mem p qs ≡ false
  AllChain-fresh q [] l chain = refl
  AllChain-fresh q (r ∷ rs) l (e, ne, u, lu, nu, chain) =
      let rest = AllChain-fresh u.next_all rs l chain in
      elim (Bool-cases (p == r)) [
        | inl here ↦
            let pr : p ≡ r = (==_iff p r).0 here in absurd (none≢some (sym l ∙ ap (load h) pr ∙ lu))
        | inr there ↦ rw there rest
      ]

  -- Every thread of the chain is allocated.
  pub AllChain-load :
      (q : Ptr) (qs : List Ptr)
      → AllChain h q qs
      → mem p qs ≡ true
      → (t : ConnectionThread) × (load h p ≡ some t) × (p ≢ null)
  AllChain-load q [] chain m = absurd (cc)
  AllChain-load q (r ∷ rs) (e, ne, u, lu, nu, chain) m = elim (Bool-cases (p == r)) [
    | inl here ↦ let pr : p ≡ r = (==_iff p r).0 here in (u, ap (load h) pr ∙ lu, rw pr ne)
    | inr there ↦ AllChain-load u.next_all rs chain (ground arith)
  ]
