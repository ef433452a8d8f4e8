-- ===== src/Pool/Stats.antt =====
-- getThreadStatistics against the pool's threads, in the order of their numbers.
use mathlib.Core.Option.{some-injective}
use sa_wa.Base.{
  subst, ℕ, suc, ◌+◌, ◌*◌, ◌≡◌, ◌≢◌, refl, sym, ap, ◌∙◌, false, some, List, [], ◌∷◌, ◌++◌, arith,
  length, replicate, length-replicate, replicate-add, append_assoc, append-nil, ◌==◌,
}
use sa_wa.Bytes.{bytes_of_u32, length-bytes_of_u32}
use sa_wa.Storage.{write_at, write_at-append}
use sa_wa.Thread.{Ptr, null, ConnectionThread}
use sa_wa.Pool.{
  Heap, load, ThreadPool, stat_fields, sizeof_stat, serialize_thread_stats, get_thread_statistics,
}
use sa_wa.Pool.Chains.{AllChain}
use sa_wa.Pool.Invariant.{Inv}

-- An entry: the fields and three bytes of padding.
unfoldable pub entry : ConnectionThread → List ℕ
entry t = stat_fields t ++ 0 ∷ 0 ∷ 0 ∷ []

-- The entries of a chain, the last thread of the chain first.
unfoldable pub entries : List ConnectionThread → List ℕ
entries [] = []
entries (t ∷ ts) = entries ts ++ entry t

-- The records that a chain of all threads leads through.
unfoldable pub records :
    (h : Heap) (p : Ptr) (qs : List Ptr) → AllChain h p qs → List ConnectionThread
records h p [] c = []
records h p (q ∷ qs) (e, ne, t, l, n, c) = t ∷ records h t.next_all qs c

pub length-records :
    (h : Heap) (p : Ptr) (qs : List Ptr) (c : AllChain h p qs)
    → length (records h p qs c) ≡ length qs
unfolding records
length-records h p [] c = refl
length-records h p (q ∷ qs) (e, ne, t, l, n, c) = ap suc (length-records h t.next_all qs c)

-- The records on the chain of `next_all` from this pointer to its end.
unfoldable pub Threads : Heap → Ptr → List ConnectionThread → Type 0
Threads h p [] = p ≡ null
Threads h p (t ∷ ts) = (p ≢ null) × (load h p ≡ some t) × Threads h t.next_all ts

pub records-Threads :
    (h : Heap) (p : Ptr) (qs : List Ptr) (c : AllChain h p qs) → Threads h p (records h p qs c)
unfolding records Threads
records-Threads h p [] c = c
records-Threads h p (q ∷ qs) (e, ne, t, l, n, c) =
    (subst (λ x. x ≢ null) (sym e) ne, ap (load h) e ∙ l, records-Threads h t.next_all qs c)

zeros : ℕ → List ℕ
zeros n = replicate (n * sizeof_stat) 0

zeros_zero : zeros 0 ≡ []
unfolding zeros
zeros_zero = refl

fresh_buffer :
    (n k : ℕ)
    → write_at 0 (bytes_of_u32 k) (replicate (4 + n * sizeof_stat) 0) ≡ bytes_of_u32 k ++ zeros n
unfolding zeros write_at bytes_of_u32
fresh_buffer n k = ap (write_at 0 (bytes_of_u32 k)) (replicate-add 4 (n * sizeof_stat) 0)

zeros-suc : (n : ℕ) → zeros (suc n) ≡ zeros n ++ replicate sizeof_stat 0
unfolding zeros
zeros-suc n =
    ap (λ k. replicate k 0) {x = suc n * sizeof_stat} {y = n * sizeof_stat + sizeof_stat}
      (omega arith)
    ∙ replicate-add (n * sizeof_stat) sizeof_stat 0

length-zeros : (n : ℕ) → length (zeros n) ≡ n * sizeof_stat
unfolding zeros
length-zeros n = length-replicate (n * sizeof_stat) 0

-- One entry fills the last of the free ones.
write_entry :
    (t : ConnectionThread) (n : ℕ) (size done : List ℕ)
    → length size ≡ 4
    → write_at (4 + sizeof_stat * n) (stat_fields t) (size ++ (zeros (suc n) ++ done))
      ≡ size ++ (zeros n ++ (entry t ++ done))
unfolding entry stat_fields bytes_of_u32 write_at
write_entry t n size done len =
    write_at-append (4 + sizeof_stat * n) (sizeof_stat * n) (stat_fields t) size _ (omega arith)
    ∙ ap (◌++◌ size) (
        ap (λ z. write_at (sizeof_stat * n) (stat_fields t) (z ++ done)) (zeros-suc n)
        ∙ ap (write_at (sizeof_stat * n) (stat_fields t))
            (append_assoc (zeros n) (replicate sizeof_stat 0) done)
        ∙ write_at-append (sizeof_stat * n) 0 (stat_fields t) (zeros n)
            (replicate sizeof_stat 0 ++ done) (omega (arith, length-zeros n)))

-- The buffer in the loop: the size, entries still zero, entries written.
serialize_thread_stats_lem :
    (h : Heap) (p : Ptr) (qs : List Ptr) (c : AllChain h p qs) (size done : List ℕ)
    → length size ≡ 4
    → serialize_thread_stats (length qs) h p (size ++ (zeros (length qs) ++ done))
      ≡ some (size ++ (entries (records h p qs c) ++ done))
unfolding serialize_thread_stats entries records
serialize_thread_stats_lem h p [] c size done len =
    rw (c, serialize_thread_stats) (ap (λ z. some (size ++ (z ++ done))) zeros_zero)
serialize_thread_stats_lem h p (q ∷ qs) (e, ne, t, l, n, c) size done len =
    let not_null : (p == null) ≡ false = ground arith in
    rw
      (not_null, serialize_thread_stats, ap (load h) e ∙ l, write_entry t (length qs) size done len)
      (serialize_thread_stats_lem h t.next_all qs c size (entry t ++ done) len
        ∙ ap (λ x. some (size ++ x))
            (sym (append_assoc (entries (records h t.next_all qs c)) (entry t) done)))

-- The statistics are the number of their bytes, and then one entry for each thread of the pool, in
-- the order of the threads' numbers; the answer is always defined.
pub get_thread_statistics-entries :
    (pool : ThreadPool) (all idle : List Ptr) (v : Inv pool all idle)
    → get_thread_statistics pool
      ≡ some (
          bytes_of_u32 (pool.thread_nb * sizeof_stat)
          ++ entries (records pool.heap pool.all_threads all v.all_chain))
unfolding get_thread_statistics
get_thread_statistics-entries pool all idle v =
    let size : List ℕ = bytes_of_u32 (pool.thread_nb * sizeof_stat) in
    let all_entries : List ℕ = entries (records pool.heap pool.all_threads all v.all_chain) in
    rw (fresh_buffer pool.thread_nb (pool.thread_nb * sizeof_stat)) (
      ap (λ n. serialize_thread_stats n pool.heap pool.all_threads (size ++ zeros n)) v.counted
      ∙ ap (λ z. serialize_thread_stats (length all) pool.heap pool.all_threads (size ++ z))
          (sym (append-nil (zeros (length all))))
      ∙ serialize_thread_stats_lem pool.heap pool.all_threads all v.all_chain size []
          (length-bytes_of_u32 (pool.thread_nb * sizeof_stat))
      ∙ ap (λ z. some (size ++ z)) (append-nil all_entries))

-- The record that the heap holds is the one that the chain leads to.
pub records-load :
    (h : Heap) (p q : Ptr) (qs : List Ptr) (c : AllChain h p (q ∷ qs)) (t : ConnectionThread)
    → load h q ≡ some t
    → (c' : AllChain h t.next_all qs) × (records h p (q ∷ qs) c ≡ t ∷ records h t.next_all qs c')
unfolding records
records-load h p q qs (e, ne, u, l, n, c) t k =
    subst
      (λ w.
        (c' : AllChain h w.next_all qs) × (u ∷ records h u.next_all qs c
          ≡ w ∷ records h w.next_all qs c'))
      (some-injective u t (sym l ∙ k)) (c, refl)
