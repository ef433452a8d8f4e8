-- ===== src/System/Inventory.antt =====
-- What holds of the pool at every point of a run of a server's process.
use sa_wa.Base.{
  ◌+◌, ℕ, suc, ◌≡◌, ◌≢◌, ◌<◌, ◌≤◌, refl, sym, ap, ◌∙◌, subst, true, false, none, some, List, [],
  ◌∷◌, ℤ, nonneg, length, arith, Bool-cases, inl, inr, ==_iff, ◌==◌,
}
use mathlib.Core.Option.{some-injective}
use sa_wa.Thread.{Ptr, null, ConnectionThread}
use sa_wa.Pool.{Heap, ThreadPool, thread_pool, load, update, release_thread, handle_new_connection}
use sa_wa.Pool.Chains.{mem}
use sa_wa.Pool.Reuse.{handle_new_connection-Inv, all_after, idle_after, idle_serves_none}
use sa_wa.Pool.Invariant.{Inv, thread_pool-Inv, update-Inv, release_thread-Inv}
use sa_wa.Pool.Totals.{total_at, value_at, total_at-update}
use sa_wa.Pool.Counting.{handle_new_connection-total, release_thread-total}
use sa_wa.System.Tally.{
  misfit, misfit_zero, misfit_fits, requests, Tallied, nb_connections-IsCounter, requests-IsCounter,
  misfit-IsCounter,
}

-- The pool's threads and idle threads, and what their counters add up to.
pub record Counted (pool : ThreadPool) (connections : ℕ) (counts : ℕ → ℕ) : Type 0 where
  pub all : List Ptr
  pub idle : List Ptr
  pub inv : Inv pool all idle
  pub no_misfit : total_at misfit pool.heap all ≡ 0
  pub connections_eq : total_at (λ t. t.nb_connections) pool.heap all ≡ connections
  pub requests_eq : (i : ℕ) → i < 3 → total_at (requests i) pool.heap all ≡ counts i

value_below :
    (f : ConnectionThread → ℕ) (h : Heap) (p : Ptr) (t : ConnectionThread) (qs : List Ptr)
    → load h p ≡ some t
    → mem p qs ≡ true
    → f t ≤ total_at f h qs
unfolding total_at value_at
value_below f h p t [] l m = absurd (cc)
value_below f h p t (q ∷ qs) l m = elim (Bool-cases (p == q)) [
  | inl here ↦ omega (arith, ap (value_at f) (ap (load h) (sym ((==_iff p q).0 here)) ∙ l))
  | inr there ↦ omega (arith, value_below f h p t qs l (ground arith))
]

-- The counts may be written otherwise.
pub Counted-counts :
    (pool : ThreadPool) (n : ℕ) (counts counts' : ℕ → ℕ)
    → ((i : ℕ) → counts i ≡ counts' i)
    → Counted pool n counts
    → Counted pool n counts'
Counted-counts pool n counts counts' e c = record {
  all = c.all;
  idle = c.idle;
  inv = c.inv;
  no_misfit = c.no_misfit;
  connections_eq = c.connections_eq;
  requests_eq = λ i below. c.requests_eq i below ∙ e i;
}

pub thread_pool-Counted : Counted thread_pool 0 (λ i. 0)
unfolding total_at
thread_pool-Counted = record {
  all = [];
  idle = [];
  inv = thread_pool-Inv;
  no_misfit = refl;
  connections_eq = refl;
  requests_eq = λ i h. refl;
}

module _ (pool : ThreadPool) (n : ℕ) (counts : ℕ → ℕ) (c : Counted pool n counts) where
  pub accept-Counted :
      (fresh : Ptr) (sock : ℤ) (pool' : ThreadPool)
      → fresh ≢ null
      → load pool.heap fresh ≡ none
      → nonneg sock ≡ true
      → handle_new_connection fresh pool sock ≡ some pool'
      → Counted pool' (suc n) counts
  accept-Counted fresh sock pool' ne unused ok h =
      let (q, e, v, _, _, _) =
        handle_new_connection-Inv pool c.all c.idle fresh sock c.inv ne unused ok in
      record {
        all = all_after fresh c.all c.idle;
        idle = idle_after c.idle;
        inv =
            subst (λ x. Inv x (all_after fresh c.all c.idle) (idle_after c.idle))
              (some-injective q pool' (sym e ∙ h)) v;
        no_misfit = omega (
          arith,
          handle_new_connection-total misfit 0 misfit-IsCounter pool pool' c.all c.idle fresh sock
              c.inv unused h,
          c.no_misfit,
        );
        connections_eq = omega (
          arith,
          handle_new_connection-total (λ t. t.nb_connections) 1 nb_connections-IsCounter pool pool'
              c.all c.idle fresh sock c.inv unused h,
          c.connections_eq,
        );
        requests_eq = λ i below. omega (
          arith,
          handle_new_connection-total (requests i) 0 (requests-IsCounter i) pool pool' c.all c.idle
              fresh sock c.inv unused h,
          c.requests_eq i below,
        );
      }

  module _ (p : Ptr) (t : ConnectionThread) (l : load pool.heap p ≡ some t)
      (b : nonneg t.client_sock ≡ true) where
    not_idle : mem p c.idle ≡ false
    not_idle = idle_serves_none pool.heap pool.idle_threads p t c.idle c.inv.idle_chain l b

    pub three_counters : length t.info ≡ 3
    three_counters =
        misfit_zero t
          (omega (arith, value_below misfit pool.heap p t c.all l (c.inv.owned p t l), c.no_misfit))

    pub update-Counted :
        (added : ℕ → ℕ) (t' : ConnectionThread)
        → Tallied added t t'
        → Counted (record pool { heap = update pool.heap p (some t') }) n (λ i. counts i + added i)
    unfolding misfit
    update-Counted added t' v = record {
      all = c.all;
      idle = c.idle;
      inv = update-Inv pool c.all c.idle c.inv p t t' l not_idle b v.nb_eq v.next_eq v.sock_eq;
      no_misfit = omega (
        arith,
        total_at-update misfit pool.heap p pool.all_threads c.all t t' c.inv.all_chain l
            (c.inv.owned p t l),
        c.no_misfit,
        misfit_fits t t' v.fits,
      );
      connections_eq = omega (
        arith,
        total_at-update (λ x. x.nb_connections) pool.heap p pool.all_threads c.all t t'
            c.inv.all_chain l (c.inv.owned p t l),
        c.connections_eq,
        v.connections_eq,
      );
      requests_eq = λ i below. omega (
        arith,
        total_at-update (requests i) pool.heap p pool.all_threads c.all t t' c.inv.all_chain l
            (c.inv.owned p t l),
        c.requests_eq i below,
        v.raised i below,
      );
    }

    pub release-Counted :
        (pool' : ThreadPool) → release_thread pool p ≡ some pool' → Counted pool' n counts
    release-Counted pool' h =
        let (q, e, v) = release_thread-Inv pool c.all c.idle c.inv p (c.inv.owned p t l) not_idle in
        record {
          all = c.all;
          idle = p ∷ c.idle;
          inv = subst (λ x. Inv x c.all (p ∷ c.idle)) (some-injective q pool' (sym e ∙ h)) v;
          no_misfit = omega (
            arith,
            release_thread-total misfit 0 misfit-IsCounter pool pool' c.all c.idle p t c.inv l h,
            c.no_misfit,
          );
          connections_eq = omega (
            arith,
            release_thread-total (λ x. x.nb_connections) 1 nb_connections-IsCounter pool pool' c.all
                c.idle p t c.inv l h,
            c.connections_eq,
          );
          requests_eq = λ i below. omega (
            arith,
            release_thread-total (requests i) 0 (requests-IsCounter i) pool pool' c.all c.idle p t
                c.inv l h,
            c.requests_eq i below,
          );
        }
