-- ===== src/Admin/Stat.antt =====
-- The table of threads in the reply of STAT: how the client's loads find each thread's fields.
use mathlib.Core.List.{reverse, reverse-cons}
use sa_wa.Base.{
  ℕ, zero, suc, ◌+◌, ◌*◌, ◌^◌, ◌<◌, ◌≡◌, pos, ltb, true, refl, sym, ap, ◌∙◌, subst, some, List, [],
  ◌∷◌, ◌++◌, nonneg, arith, length, length-append, append_assoc, append-nil, get_or, if◌then◌else◌,
  get_elem?,
}
use sa_wa.Bytes.{bytes_of_u32, u32_of_bytes_lem, load_u32, load_u32-bytes_of_u32}
use sa_wa.Thread.{ConnectionThread}
use sa_wa.Pool.{stat_fields}
use sa_wa.Pool.Stats.{entry, entries}
use sa_wa.Client.{Row, to_int, load_row, load_rows}

length-entry : (t : ConnectionThread) → length (entry t) ≡ 20
unfolding entry stat_fields bytes_of_u32
length-entry t = refl

-- The entries in the order of the threads' numbers.
unfoldable pub flat : List ConnectionThread → List ℕ
flat [] = []
flat (t ∷ ts) = entry t ++ flat ts

pub length-flat : (ts : List ConnectionThread) → length (flat ts) ≡ length ts * 20
unfolding flat
length-flat [] = refl
length-flat (t ∷ ts) =
    omega (arith, length-append (entry t) (flat ts), length-flat ts, length-entry t)

pub length-entries : (ts : List ConnectionThread) → length (entries ts) ≡ length ts * 20
unfolding entries
length-entries [] = refl
length-entries (t ∷ ts) =
    omega (arith, length-append (entries ts) (entry t), length-entries ts, length-entry t)

flat-append : (ts us : List ConnectionThread) → flat (ts ++ us) ≡ flat ts ++ flat us
unfolding flat
flat-append [] us = refl
flat-append (t ∷ ts) us =
    ap (◌++◌ (entry t)) (flat-append ts us) ∙ sym (append_assoc (entry t) (flat ts) (flat us))

pub entries-flat : (ts : List ConnectionThread) → entries ts ≡ flat (reverse ts)
unfolding entries flat
entries-flat [] = refl
entries-flat (t ∷ ts) =
    ap (λ x. x ++ entry t) (entries-flat ts)
    ∙ ap (◌++◌ (flat (reverse ts))) (sym (append-nil (entry t)))
    ∙ sym (flat-append (reverse ts) (t ∷ []))
    ∙ ap flat (sym (reverse-cons t ts))

-- The counters of a thread are ints.
pub record Fits (t : ConnectionThread) : Type 0 where
  pub connections : t.nb_connections < 2 ^ 31
  pub info0 : get_or t.info 0 0 < 2 ^ 31
  pub info1 : get_or t.info 1 0 < 2 ^ 31
  pub info2 : get_or t.info 2 0 < 2 ^ 31

-- The line of a thread, with this byte for its activity.
abbrev pub row : ConnectionThread → ℕ → Row
row t active = record {
  active = active;
  nb_connections = pos t.nb_connections;
  info0 = pos (get_or t.info 0 0);
  info1 = pos (get_or t.info 1 0);
  info2 = pos (get_or t.info 2 0);
}

to_int_small : (n : ℕ) → n < 2 ^ 31 → to_int n ≡ pos n
unfolding to_int
to_int_small n h = let small : ltb n (2 ^ 31) ≡ true = ground (arith, h) in rw small refl

load_u32-suc : (b i : ℕ) (xs : List ℕ) → load_u32 (b ∷ xs) (suc i) ≡ load_u32 xs i
unfolding load_u32
load_u32-suc b i [] = refl
load_u32-suc b i (a ∷ []) = refl
load_u32-suc b i (a ∷ c ∷ []) = refl
load_u32-suc b i (a ∷ c ∷ d ∷ xs) = refl

load_u32-append :
    (front xs : List ℕ) (i k : ℕ) → k ≡ length front + i → load_u32 (front ++ xs) k ≡ load_u32 xs i
load_u32-append [] xs i k h = ap (load_u32 xs) (omega arith)
load_u32-append (b ∷ front) xs i zero h = absurd (omega arith)
load_u32-append (b ∷ front) xs i (suc k) h =
    load_u32-suc b k (front ++ xs) ∙ load_u32-append front xs i k (omega arith)

get_elem?-append :
    (front xs : List ℕ) (i k : ℕ)
    → k ≡ length front + i
    → get_elem? (front ++ xs) k ≡ get_elem? xs i
get_elem?-append [] xs i k h = ap (get_elem? xs) (omega arith)
get_elem?-append (b ∷ front) xs i zero h = absurd (omega arith)
get_elem?-append (b ∷ front) xs i (suc k) h = get_elem?-append front xs i k (omega arith)

-- The sixteen bytes of a thread's counters, and its activity.
unfoldable pub counters : ConnectionThread → ℕ → List ℕ → List ℕ
counters t active rest =
    bytes_of_u32 t.nb_connections
    ++ (bytes_of_u32 (get_or t.info 0 0)
        ++ (bytes_of_u32 (get_or t.info 1 0)
            ++ (bytes_of_u32 (get_or t.info 2 0) ++ active ∷ rest)))

module _ (t : ConnectionThread) (front rest : List ℕ) (active at : ℕ) (f : Fits t)
    (h : at ≡ length front) where
  body : List ℕ
  body = counters t active rest

  load0 : load_u32 (front ++ counters t active rest) at ≡ some t.nb_connections
  unfolding counters bytes_of_u32
  load0 =
      load_u32-append front (counters t active rest) 0 at (omega arith)
      ∙ load_u32-bytes_of_u32 t.nb_connections _ (omega (arith, f.connections))

  load4 : load_u32 (front ++ counters t active rest) (at + 4) ≡ some (get_or t.info 0 0)
  unfolding counters bytes_of_u32 load_u32
  load4 =
      load_u32-append front (counters t active rest) 4 (at + 4) (omega arith)
      ∙ ap some (u32_of_bytes_lem (get_or t.info 0 0) (omega (arith, f.info0)))

  load8 : load_u32 (front ++ counters t active rest) (at + 8) ≡ some (get_or t.info 1 0)
  unfolding counters bytes_of_u32 load_u32
  load8 =
      load_u32-append front (counters t active rest) 8 (at + 8) (omega arith)
      ∙ ap some (u32_of_bytes_lem (get_or t.info 1 0) (omega (arith, f.info1)))

  load12 : load_u32 (front ++ counters t active rest) (at + 12) ≡ some (get_or t.info 2 0)
  unfolding counters bytes_of_u32 load_u32
  load12 =
      load_u32-append front (counters t active rest) 12 (at + 12) (omega arith)
      ∙ ap some (u32_of_bytes_lem (get_or t.info 2 0) (omega (arith, f.info2)))

  activity : get_elem? (front ++ counters t active rest) (at + 16) ≡ some active
  unfolding counters bytes_of_u32
  activity = get_elem?-append front (counters t active rest) 16 (at + 16) (omega arith)

  load_row-counters : load_row (front ++ counters t active rest) at ≡ some (row t active)
  unfolding load_row
  load_row-counters =
      rw
        (
          load0,
          load4,
          load8,
          load12,
          activity,
          to_int_small t.nb_connections f.connections,
          to_int_small (get_or t.info 0 0) f.info0,
          to_int_small (get_or t.info 1 0) f.info1,
          to_int_small (get_or t.info 2 0) f.info2,
        )
        refl

-- Whether a thread has a client.
abbrev pub activity_of : ConnectionThread → ℕ
activity_of t = if nonneg t.client_sock then 1 else 0

pub rows : List ConnectionThread → List Row
rows [] = []
rows (t ∷ ts) = row t (activity_of t) ∷ rows ts

-- An entry is the counters, the activity and the padding.
entry-counters :
    (t : ConnectionThread) (xs : List ℕ)
    → entry t ++ xs ≡ counters t (activity_of t) (0 ∷ 0 ∷ 0 ∷ xs)
unfolding entry stat_fields counters bytes_of_u32
entry-counters t xs = refl

unfoldable pub AllFit : List ConnectionThread → Type 0
AllFit [] = Unit
AllFit (t ∷ ts) = Fits t × AllFit ts

AllFit-append : (ts us : List ConnectionThread) → AllFit ts → AllFit us → AllFit (ts ++ us)
unfolding AllFit
AllFit-append [] us a b = b
AllFit-append (t ∷ ts) us (f, a) b = (f, AllFit-append ts us a b)

pub AllFit-reverse : (ts : List ConnectionThread) → AllFit ts → AllFit (reverse ts)
unfolding AllFit
AllFit-reverse [] a = a
AllFit-reverse (t ∷ ts) (f, a) =
    subst AllFit (sym (reverse-cons t ts))
      (AllFit-append (reverse ts) (t ∷ []) (AllFit-reverse ts a) (f, tt))

-- The entries of the threads, then one whose activity and padding are other bytes.
pub load_rows-flat :
    (ts : List ConnectionThread) (front : List ℕ) (t : ConnectionThread) (active i : ℕ)
    (rest : List ℕ)
    → AllFit ts
    → Fits t
    → length front ≡ 20 * i
    → load_rows (front ++ (flat ts ++ counters t active rest)) i (suc (length ts))
      ≡ some (rows ts ++ row t active ∷ [])
unfolding load_rows flat rows AllFit
load_rows-flat [] front t active i rest a f h =
    rw (load_row-counters t front rest active (20 * i) f (omega arith)) refl
load_rows-flat (u ∷ us) front t active i rest (g, a) f h =
    let tail : List ℕ = flat us ++ counters t active rest in
    let shape : entry u ++ flat us ++ counters t active rest
        ≡ counters u (activity_of u) (0 ∷ 0 ∷ 0 ∷ tail) =
      append_assoc (entry u) (flat us) (counters t active rest) ∙ entry-counters u tail in
    let next : front ++ (entry u ++ flat us ++ counters t active rest) ≡ front ++ entry u ++ tail =
      ap (◌++◌ front) (append_assoc (entry u) (flat us) (counters t active rest))
      ∙ sym (append_assoc front (entry u) tail) in
    let first : load_row (front ++ (entry u ++ flat us ++ counters t active rest)) (20 * i)
        ≡ some (row u (activity_of u)) =
      ap (λ x. load_row (front ++ x) (20 * i)) shape
      ∙ load_row-counters u front (0 ∷ 0 ∷ 0 ∷ tail) (activity_of u) (20 * i) g (omega arith) in
    let others : load_rows (front ++ (entry u ++ flat us ++ counters t active rest)) (i + 1)
          (suc (length us))
        ≡ some (rows us ++ row t active ∷ []) =
      ap (λ x. load_rows x (i + 1) (suc (length us))) next
      ∙ load_rows-flat us (front ++ entry u) t active (i + 1) rest a f
          (omega (arith, length-append front (entry u), length-entry u)) in
    rw (first, others) refl
