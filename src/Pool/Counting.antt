-- ===== src/Pool/Counting.antt =====
-- What the arrival and the end of a connection do to a sum over the threads.
use sa_wa.Base.{
  ℕ, ◌+◌, ◌≡◌, refl, sym, ap, ◌∙◌, subst, true, false, none, some, List, [], ◌∷◌, ℤ, arith, ◌==◌,
}
use mathlib.Core.Option.{some-injective}
use sa_wa.Thread.{Ptr, null, ConnectionThread}
use sa_wa.Pool.{
  load, update, ThreadPool, new_record, new_thread, parked, released, assigned, reused,
  release_thread, reuse_thread, handle_new_connection,
}
use sa_wa.Pool.Chains.{mem, AllChain-fresh, load-update_self}
use sa_wa.Pool.Invariant.{Inv}
use sa_wa.Pool.Reuse.{all_after, no_idle}
use sa_wa.Pool.Totals.{total_at, value_at, total_at-frame, total_at-update}

-- A field that a connection raises by `a`, in a new thread or in an idle one.
pub record IsCounter (f : ConnectionThread → ℕ) (a : ℕ) : Type 0 where
  pub new : (pool : ThreadPool) (sock : ℤ) → f (new_record pool sock) ≡ a
  pub again : (t : ConnectionThread) (sock : ℤ) → f (assigned t sock) ≡ f t + a
  pub kept : (pool : ThreadPool) (t : ConnectionThread) → f (parked pool t) ≡ f t

module _ (f : ConnectionThread → ℕ) (a : ℕ) (counter : IsCounter f a) where
  new_thread-total :
      (pool : ThreadPool) (all idle : List Ptr) (fresh : Ptr) (sock : ℤ)
      → Inv pool all idle
      → load pool.heap fresh ≡ none
      → total_at f (new_thread fresh pool sock).heap (fresh ∷ all) ≡ total_at f pool.heap all + a
  unfolding new_thread total_at value_at
  new_thread-total pool all idle fresh sock v unused =
      let out = AllChain-fresh pool.heap fresh pool.all_threads all unused v.all_chain in
      omega (
        arith,
        ap (value_at f) (load-update_self pool.heap fresh (some (new_record pool sock))),
        total_at-frame f pool.heap fresh (some (new_record pool sock)) all out,
        counter.new pool sock,
      )

  reused-total :
      (pool : ThreadPool) (all idle : List Ptr) (p : Ptr) (t : ConnectionThread) (sock : ℤ)
      → Inv pool all idle
      → pool.idle_threads ≡ p
      → load pool.heap p ≡ some t
      → mem p all ≡ true
      → total_at f (reused pool t sock).heap all ≡ total_at f pool.heap all + a
  reused-total pool all idle p t sock v e l m = omega (
    arith,
    total_at-update f pool.heap p pool.all_threads all t (assigned t sock) v.all_chain l m,
    ap (λ q. total_at f (update pool.heap q (some (assigned t sock))) all) e,
    counter.again t sock,
  )

  -- The arrival of a connection raises the sum by `a`.
  pub handle_new_connection-total :
      (pool pool' : ThreadPool) (all idle : List Ptr) (fresh : Ptr) (sock : ℤ)
      → Inv pool all idle
      → load pool.heap fresh ≡ none
      → handle_new_connection fresh pool sock ≡ some pool'
      → total_at f pool'.heap (all_after fresh all idle) ≡ total_at f pool.heap all + a
  unfolding handle_new_connection reuse_thread
  handle_new_connection-total pool pool' all [] fresh sock v unused h =
      let none_idle = no_idle pool sock v.idle_chain in
      let done : handle_new_connection fresh pool sock ≡ some (new_thread fresh pool sock) =
        rw none_idle refl in
      subst (λ (x : ThreadPool). total_at f x.heap (fresh ∷ all) ≡ total_at f pool.heap all + a)
        (some-injective (new_thread fresh pool sock) pool' (sym done ∙ h))
        (new_thread-total pool all [] fresh sock v unused)
  handle_new_connection-total pool pool' all (p ∷ idle) fresh sock v unused h =
      let (e, ne, t, l, s, out, chain) = v.idle_chain in
      let found : load pool.heap pool.idle_threads ≡ some t = ap (load pool.heap) e ∙ l in
      let some_idle : (pool.idle_threads == null) ≡ false = ground arith in
      let done : handle_new_connection fresh pool sock ≡ some (reused pool t sock) =
        rw (some_idle, found) refl in
      subst (λ (x : ThreadPool). total_at f x.heap all ≡ total_at f pool.heap all + a)
        (some-injective (reused pool t sock) pool' (sym done ∙ h))
        (reused-total pool all (p ∷ idle) p t sock v e l (v.idle_sub p (ground arith)))

  -- The end of a connection keeps the sum.
  pub release_thread-total :
      (pool pool' : ThreadPool) (all idle : List Ptr) (p : Ptr) (t : ConnectionThread)
      → Inv pool all idle
      → load pool.heap p ≡ some t
      → release_thread pool p ≡ some pool'
      → total_at f pool'.heap all ≡ total_at f pool.heap all
  unfolding release_thread
  release_thread-total pool pool' all idle p t v l h =
      let done : release_thread pool p ≡ some (released pool p t) = rw l refl in
      subst (λ (x : ThreadPool). total_at f x.heap all ≡ total_at f pool.heap all)
        (some-injective (released pool p t) pool' (sym done ∙ h))
        (omega (
          arith,
          total_at-update f pool.heap p pool.all_threads all t (parked pool t) v.all_chain l
              (v.owned p t l),
          counter.kept pool t,
        ))
