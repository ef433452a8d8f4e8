-- ===== src/Pool/Reuse.antt =====
-- How the pool runs: connections arrive and threads finish, in any order.
use sa_wa.Base.{
  ℕ, suc, ◌+◌, ◌≡◌, ◌≢◌, refl, sym, ap, ◌∙◌, subst, inl, inr, Bool-cases, ==_iff, true, false, none,
  some, List, [], ◌∷◌, ℤ, nonneg, arith, length, ◌==◌,
}
use mathlib.Core.Option.{some-injective}
use Prim.Native.Nat.{max}
use sa_wa.Thread.{Ptr, null, ConnectionThread, connection_thread}
use sa_wa.Pool.{
  Heap, load, ThreadPool, thread_pool, new_record, new_thread, release_thread, reuse_thread,
  handle_new_connection,
}
use sa_wa.Pool.Chains.{mem, IdleChain, load-update_self}
use sa_wa.Pool.Invariant.{
  Inv, thread_pool-Inv, new_thread-Inv, release_thread-Inv, reuse_thread-Inv,
}

-- The threads after a connection: the idle thread released last serves it, or a new one if there
-- is none.
abbrev pub all_after : Ptr → List Ptr → List Ptr → List Ptr
all_after fresh all [] = fresh ∷ all
all_after fresh all (p ∷ idle) = all

abbrev pub idle_after : List Ptr → List Ptr
idle_after [] = []
idle_after (p ∷ idle) = idle

abbrev pub chosen : Ptr → List Ptr → Ptr
chosen fresh [] = fresh
chosen fresh (p ∷ idle) = p

true≢false : true ≡ false → ⊥
true≢false e = cc

pub no_idle :
    (pool : ThreadPool) (sock : ℤ)
    → pool.idle_threads ≡ null
    → reuse_thread pool sock ≡ some (pool, false)
unfolding reuse_thread
no_idle pool sock e = rw e

-- A connection is given to the thread released last, and to a new one only if every thread is
-- busy; that thread then holds its socket, and the pool stays well formed.
pub handle_new_connection-Inv :
    (pool : ThreadPool) (all idle : List Ptr) (fresh : Ptr) (sock : ℤ)
    → Inv pool all idle
    → fresh ≢ null
    → load pool.heap fresh ≡ none
    → nonneg sock ≡ true
    → (pool' : ThreadPool) × (handle_new_connection fresh pool sock ≡ some pool')
      × Inv pool' (all_after fresh all idle) (idle_after idle)
      × (t : ConnectionThread) × (load pool'.heap (chosen fresh idle) ≡ some t)
      × (t.client_sock ≡ sock)
unfolding handle_new_connection new_thread new_record connection_thread
handle_new_connection-Inv pool all [] fresh sock v ne unused ok =
    let none_idle : reuse_thread pool sock ≡ some (pool, false) = no_idle pool sock v.idle_chain in
    (
      new_thread fresh pool sock,
      rw none_idle,
      new_thread-Inv pool all [] v fresh sock ne unused ok,
      new_record pool sock,
      load-update_self pool.heap fresh (some (new_record pool sock)),
      refl,
    )
handle_new_connection-Inv pool all (p ∷ idle) fresh sock v ne unused ok =
    let (pool', e, v', _, t, l, s) = reuse_thread-Inv pool all idle p sock v ok in
    (pool', rw e, v', t, l, s)

-- What can happen to a pool, from its construction on: a connection is accepted, or a thread ends
-- its connection. A run counts the connections that are open, and their peak.
pub data Run : (opened peak : ℕ) → ThreadPool → Type 0 where
  start : {pool : ThreadPool} → pool ≡ thread_pool → Run 0 0 pool
  accept :
      {n m k : ℕ} {pool pool' : ThreadPool} (fresh : Ptr) (sock : ℤ)
      → Run n m pool
      → fresh ≢ null
      → load pool.heap fresh ≡ none
      → nonneg sock ≡ true
      → handle_new_connection fresh pool sock ≡ some pool'
      → k ≡ max m (suc n)
      → Run (suc n) k pool'
  finish :
      {n m k : ℕ} {pool pool' : ThreadPool} (p : Ptr) (t : ConnectionThread)
      → Run n m pool
      → load pool.heap p ≡ some t
      → nonneg t.client_sock ≡ true
      → release_thread pool p ≡ some pool'
      → n ≡ suc k
      → Run k m pool'

pub record State (open_now peak : ℕ) (pool : ThreadPool) : Type 0 where
  pub all : List Ptr
  pub idle : List Ptr
  pub inv : Inv pool all idle
  pub threads : length all ≡ peak
  pub parts : length all ≡ open_now + length idle

accept-State :
    (n m : ℕ) (pool pool' : ThreadPool) (fresh : Ptr) (sock : ℤ) (idle : List Ptr)
    (s : State n m pool)
    → s.idle ≡ idle
    → fresh ≢ null
    → load pool.heap fresh ≡ none
    → nonneg sock ≡ true
    → handle_new_connection fresh pool sock ≡ some pool'
    → State (suc n) (max m (suc n)) pool'
accept-State n m pool pool' fresh sock [] s e ne unused ok h =
    let v : Inv pool s.all [] = subst (Inv pool s.all) e s.inv in
    let (q, e', v', _, _, _) = handle_new_connection-Inv pool s.all [] fresh sock v ne unused ok in
    record {
      all = fresh ∷ s.all;
      idle = [];
      inv = subst (λ x. Inv x (fresh ∷ s.all) []) (some-injective q pool' (sym e' ∙ h)) v';
      threads = omega (arith, s.threads, s.parts, ap length e);
      parts = omega (arith, s.parts, ap length e);
    }
accept-State n m pool pool' fresh sock (p ∷ idle) s e ne unused ok h =
    let v : Inv pool s.all (p ∷ idle) = subst (Inv pool s.all) e s.inv in
    let (q, e', v', _, _, _) =
      handle_new_connection-Inv pool s.all (p ∷ idle) fresh sock v ne unused ok in
    record {
      all = s.all;
      idle = idle;
      inv = subst (λ x. Inv x s.all idle) (some-injective q pool' (sym e' ∙ h)) v';
      threads = omega (arith, s.threads, s.parts, ap length e);
      parts = omega (arith, s.parts, ap length e);
    }

-- An idle thread serves no socket.
pub idle_serves_none :
    (h : Heap) (q p : Ptr) (t : ConnectionThread) (idle : List Ptr)
    → IdleChain h q idle
    → load h p ≡ some t
    → nonneg t.client_sock ≡ true
    → mem p idle ≡ false
idle_serves_none h q p t [] c l b = refl
idle_serves_none h q p t (r ∷ idle) (e, ne, u, lu, su, out, c) l b =
    let rest = idle_serves_none h u.next p t idle c l b in
    elim (Bool-cases (p == r)) [
      | inl here ↦
          let same : u ≡ t =
            some-injective u t (sym lu ∙ ap (load h) (sym ((==_iff p r).0 here)) ∙ l) in
          absurd (true≢false (sym b ∙ ap (λ x. nonneg x.client_sock) (sym same) ∙ ap nonneg su))
      | inr there ↦ rw there rest
    ]

finish-State :
    (n m k : ℕ) (pool pool' : ThreadPool) (p : Ptr) (t : ConnectionThread)
    → State n m pool
    → load pool.heap p ≡ some t
    → nonneg t.client_sock ≡ true
    → release_thread pool p ≡ some pool'
    → n ≡ suc k
    → State k m pool'
finish-State n m k pool pool' p t s l b r e =
    let m : mem p s.all ≡ true = s.inv.owned p t l in
    let out : mem p s.idle ≡ false =
      idle_serves_none pool.heap pool.idle_threads p t s.idle s.inv.idle_chain l b in
    let (q, e', v) = release_thread-Inv pool s.all s.idle s.inv p m out in
    record {
      all = s.all;
      idle = p ∷ s.idle;
      inv = subst (λ x. Inv x s.all (p ∷ s.idle)) (some-injective q pool' (sym e' ∙ r)) v;
      threads = s.threads;
      parts = omega (arith, s.parts, e);
    }

-- At every point of every run the pool is well formed, and it has created as many threads as
-- connections were open at once at the peak.
pub Run-State : {n m : ℕ} {pool : ThreadPool} → Run n m pool → State n m pool
Run-State (start e) = record {
  all = [];
  idle = [];
  inv = rw e thread_pool-Inv;
  threads = refl;
  parts = refl;
}
Run-State (accept fresh sock r ne unused ok h e) =
    let s = Run-State r in rw e (accept-State _ _ _ _ fresh sock s.idle s refl ne unused ok h)
Run-State (finish p t r l b h e) = finish-State _ _ _ _ _ p t (Run-State r) l b h e
