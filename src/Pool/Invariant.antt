-- ===== src/Pool/Invariant.antt =====
-- The pool's invariant, and that every operation keeps it.
use sa_wa.Base.{
  ◌≡◌, ◌≢◌, refl, ap, ◌∙◌, true, false, Option, none, some, List, [], ◌∷◌, ℤ, nonneg, arith, length,
  ◌==◌, Bool-cases, inl, inr, ==_iff,
}
use sa_wa.Thread.{Ptr, null, ConnectionThread, connection_thread}
use sa_wa.Pool.{
  Heap, load, update, ThreadPool, thread_pool, new_record, new_thread, release_thread, reuse_thread,
  wake, parked, released, assigned, reused,
}
use sa_wa.Pool.Chains.{
  mem, AllChain, IdleChain, load-update, load-update_self, AllChain-update, AllChain-frame,
  IdleChain-frame, AllChain-fresh, AllChain-load,
}

-- The thread at `p` serves a socket.
abbrev pub IsBusy : Heap → Ptr → Type 0
IsBusy h p = (t : ConnectionThread) × (load h p ≡ some t) × (nonneg t.client_sock ≡ true)

-- `all` are the pool's threads, the newest first; `idle` those without a connection, the one
-- released last first.
pub record Inv (pool : ThreadPool) (all idle : List Ptr) : Type 0 where
  pub all_chain : AllChain pool.heap pool.all_threads all
  pub idle_chain : IdleChain pool.heap pool.idle_threads idle
  pub counted : pool.thread_nb ≡ length all
  pub idle_sub : (p : Ptr) → mem p idle ≡ true → mem p all ≡ true
  pub busy : (p : Ptr) → mem p all ≡ true → mem p idle ≡ false → IsBusy pool.heap p
  pub owned : (p : Ptr) (t : ConnectionThread) → load pool.heap p ≡ some t → mem p all ≡ true

pub thread_pool-Inv : Inv thread_pool [] []
unfolding thread_pool load
thread_pool-Inv = record {
  all_chain = refl;
  idle_chain = refl;
  counted = refl;
  idle_sub = λ p h. absurd (cc);
  busy = λ p h k. absurd (cc);
  owned = λ p t l. absurd (cc);
}

IsBusy-update :
    (h : Heap) (p : Ptr) (t : ConnectionThread)
    → nonneg t.client_sock ≡ true
    → IsBusy (update h p (some t)) p
IsBusy-update h p t b = (t, load-update_self h p (some t), b)

IsBusy-frame :
    (h : Heap) (p q : Ptr) (c : Option ConnectionThread)
    → (q == p) ≡ false
    → IsBusy h q
    → IsBusy (update h p c) q
IsBusy-frame h p q c ne (t, l, b) = (t, load-update h p q c ∙ rw ne l, b)

load_other :
    (h : Heap) (p q : Ptr) (c : Option ConnectionThread) {t : ConnectionThread}
    → (q == p) ≡ false
    → load (update h p c) q ≡ some t
    → load h q ≡ some t
load_other h p q c ne l = rw (load-update h p q c, ne) at l

module _ (pool : ThreadPool) (all idle : List Ptr) (v : Inv pool all idle) where
  owned-update :
      (p : Ptr) (t t' : ConnectionThread)
      → load pool.heap p ≡ some t
      → (q : Ptr) (u : ConnectionThread) → load (update pool.heap p (some t')) q ≡ some u
      → mem q all ≡ true
  owned-update p t t' l q u k = elim (Bool-cases (q == p)) [
    | inl here ↦ v.owned q t (ap (load pool.heap) ((==_iff q p).0 here) ∙ l)
    | inr there ↦ v.owned q u (load_other pool.heap p q (some t') there k)
  ]

  -- A new thread joins the threads with a connection.
  pub new_thread-Inv :
      (fresh : Ptr) (sock : ℤ)
      → fresh ≢ null
      → load pool.heap fresh ≡ none
      → nonneg sock ≡ true
      → Inv (new_thread fresh pool sock) (fresh ∷ all) idle
  unfolding new_thread new_record connection_thread
  new_thread-Inv fresh sock ne unused sock_ok =
      let out = AllChain-fresh pool.heap fresh pool.all_threads all unused v.all_chain in
      let out_idle : mem fresh idle ≡ false = ground (arith, v.idle_sub fresh) in
      record {
        all_chain = (
          refl,
          ne,
          new_record pool sock,
          load-update_self pool.heap fresh _,
          v.counted,
          AllChain-frame pool.heap fresh (some (new_record pool sock)) pool.all_threads all out
              v.all_chain,
        );
        idle_chain =
            IdleChain-frame pool.heap fresh (some (new_record pool sock)) pool.idle_threads idle
              out_idle v.idle_chain;
        counted = omega (arith, v.counted);
        idle_sub = λ p m. ground (arith, v.idle_sub p);
        busy = λ p m i. elim (Bool-cases (p == fresh)) [
          | inl here ↦
              rw ((==_iff p fresh).0 here)
                (IsBusy-update pool.heap fresh (new_record pool sock) sock_ok)
          | inr there ↦
              IsBusy-frame pool.heap fresh p (some (new_record pool sock)) there
                (v.busy p (ground arith) i)
        ];
        owned = λ p t l. elim (Bool-cases (p == fresh)) [
          | inl here ↦ ground arith
          | inr there ↦
              let rest = v.owned p t (load_other pool.heap fresh p _ there l) in ground arith
        ];
      }

  -- A busy thread that is released becomes the first of the idle ones.
  pub release_thread-Inv :
      (p : Ptr)
      → mem p all ≡ true
      → mem p idle ≡ false
      → (pool' : ThreadPool) × (release_thread pool p ≡ some pool') × Inv pool' all (p ∷ idle)
  unfolding release_thread
  release_thread-Inv p m i =
      let (t, l, ne) = AllChain-load pool.heap p pool.all_threads all v.all_chain m in
      let t' : ConnectionThread = parked pool t in
      (
        released pool p t,
        rw l,
        record {
          all_chain = AllChain-update pool.heap p t t' pool.all_threads all l refl refl v.all_chain;
          idle_chain = (
            refl,
            ne,
            t',
            load-update_self pool.heap p (some t'),
            refl,
            i,
            IdleChain-frame pool.heap p (some t') pool.idle_threads idle i v.idle_chain,
          );
          counted = v.counted;
          idle_sub = λ q h. elim (Bool-cases (q == p)) [
            | inl here ↦ rw ((==_iff q p).0 here) m
            | inr there ↦ v.idle_sub q (ground arith)
          ];
          busy = λ q h k.
              let ne' : (q == p) ≡ false = ground arith in
              IsBusy-frame pool.heap p q (some t') ne' (v.busy q h (ground arith));
          owned = λ q u k. owned-update p t t' l q u k;
        },
      )

  -- A busy thread's record may change, as long as its place and its socket stay.
  pub update-Inv :
      (p : Ptr) (t t' : ConnectionThread)
      → load pool.heap p ≡ some t
      → mem p idle ≡ false
      → nonneg t.client_sock ≡ true
      → t'.nb ≡ t.nb
      → t'.next_all ≡ t.next_all
      → t'.client_sock ≡ t.client_sock
      → Inv (record pool { heap = update pool.heap p (some t') }) all idle
  update-Inv p t t' l i b nb_eq next_eq sock_eq = record {
    all_chain = AllChain-update pool.heap p t t' pool.all_threads all l nb_eq next_eq v.all_chain;
    idle_chain = IdleChain-frame pool.heap p (some t') pool.idle_threads idle i v.idle_chain;
    counted = v.counted;
    idle_sub = v.idle_sub;
    busy = λ q h k. elim (Bool-cases (q == p)) [
      | inl here ↦ rw ((==_iff q p).0 here) (IsBusy-update pool.heap p t' (ap nonneg sock_eq ∙ b))
      | inr there ↦ IsBusy-frame pool.heap p q (some t') there (v.busy q h k)
    ];
    owned = λ q u k. owned-update p t t' l q u k;
  }

-- The first idle thread, the one released last, takes the connection.
pub reuse_thread-Inv :
    (pool : ThreadPool) (all idle : List Ptr) (p : Ptr) (sock : ℤ)
    → Inv pool all (p ∷ idle)
    → nonneg sock ≡ true
    → (pool' : ThreadPool) × (reuse_thread pool sock ≡ some (pool', true))
      × Inv pool' all idle
      × (pool'.signals ≡ wake p ∷ pool.signals)
      × (t : ConnectionThread) × (load pool'.heap p ≡ some t)
      × (t.client_sock ≡ sock)
unfolding reuse_thread
reuse_thread-Inv pool all idle p sock v sock_ok =
    let (e, ne, t, l, s, out, chain) = v.idle_chain in
    let found : load pool.heap pool.idle_threads ≡ some t = ap (load pool.heap) e ∙ l in
    let some_idle : (pool.idle_threads == null) ≡ false = ground arith in
    let t' : ConnectionThread = assigned t sock in
    let heap' : Heap = update pool.heap p (some t') in
    (
      reused pool t sock,
      rw (some_idle, found),
      rw e record {
        all_chain = AllChain-update pool.heap p t t' pool.all_threads all l refl refl v.all_chain;
        idle_chain = IdleChain-frame pool.heap p (some t') t.next idle out chain;
        counted = v.counted;
        idle_sub = λ q h. v.idle_sub q (ground arith);
        busy = λ q h k. elim (Bool-cases (q == p)) [
          | inl here ↦ rw ((==_iff q p).0 here) (IsBusy-update pool.heap p t' sock_ok)
          | inr there ↦ IsBusy-frame pool.heap p q (some t') there (v.busy q h (ground arith))
        ];
        owned = λ q u k. owned-update pool all (p ∷ idle) v p t t' l q u k;
      },
      ap (λ q. wake q ∷ pool.signals) e,
      t',
      rw e (load-update_self pool.heap p (some t')),
      refl,
    )
