-- ===== src/Storage/Splice.antt =====
-- Reading and writing a range of a file's bytes.
use sa_wa.Base.{
  ℕ, zero, suc, ◌+◌, ◌-◌, ◌≤◌, ◌≡◌, refl, ap, ◌∙◌, List, [], ◌∷◌, ◌++◌, arith, length, take, drop,
  length-append, length-drop, length-take, take-append, drop-nil, append-nil, drop-all,
}

abbrev pub read_at : ℕ → ℕ → List ℕ → List ℕ
read_at p n bytes = take n (drop p bytes)

-- A write behind the end fills the gap with zero bytes.
unfoldable pub write_at : ℕ → List ℕ → List ℕ → List ℕ
write_at zero xs bytes = xs ++ drop (length xs) bytes
write_at (suc p) xs [] = 0 ∷ write_at p xs []
write_at (suc p) xs (b ∷ bytes) = b ∷ write_at p xs bytes

pub read_at-write_at :
    (p : ℕ) (xs bytes : List ℕ) → read_at p (length xs) (write_at p xs bytes) ≡ xs
unfolding write_at
read_at-write_at zero xs bytes = take-append xs (drop (length xs) bytes)
read_at-write_at (suc p) xs [] = read_at-write_at p xs []
read_at-write_at (suc p) xs (b ∷ bytes) = read_at-write_at p xs bytes

pub write_at_empty : (xs : List ℕ) → write_at 0 xs [] ≡ xs
unfolding write_at
write_at_empty xs = ap (◌++◌ xs) (drop-nil (length xs)) ∙ append-nil xs

-- A write that covers all bytes replaces them.
pub write_at_zero : (xs bytes : List ℕ) → length bytes ≤ length xs → write_at 0 xs bytes ≡ xs
unfolding write_at
write_at_zero xs bytes h = ap (◌++◌ xs) (drop-all (length xs) bytes h) ∙ append-nil xs

drop-drop : (m n : ℕ) (bytes : List ℕ) → drop m (drop n bytes) ≡ drop (n + m) bytes
drop-drop m zero bytes = let e : 0 + m ≡ m = omega arith in ap (λ k. drop k bytes) (omega arith)
drop-drop m (suc n) [] = drop-nil m ∙ ap (λ k. drop k []) {x = suc (n + m)} (omega arith)
drop-drop m (suc n) (b ∷ bytes) =
    drop-drop m n bytes ∙ ap (λ k. drop k (b ∷ bytes)) {x = suc (n + m)} (omega arith)

pub length-write_at :
    (p : ℕ) (xs bytes : List ℕ)
    → p + length xs ≤ length bytes
    → length (write_at p xs bytes) ≡ length bytes
unfolding write_at
length-write_at zero xs bytes h =
    omega (arith, length-append xs (drop (length xs) bytes), length-drop (length xs) bytes)
length-write_at (suc p) xs [] h = absurd (omega arith)
length-write_at (suc p) xs (b ∷ bytes) h = ap suc (length-write_at p xs bytes (omega arith))

-- A write that starts at or behind the end makes the file as long as it reaches.
pub length-write_at_beyond :
    (p : ℕ) (xs bytes : List ℕ) → length bytes ≤ p → length (write_at p xs bytes) ≡ p + length xs
unfolding write_at
length-write_at_beyond zero xs bytes h =
    omega (arith, length-append xs (drop (length xs) bytes), length-drop (length xs) bytes)
length-write_at_beyond (suc p) xs [] h = omega (arith, length-write_at_beyond p xs [] (omega arith))
length-write_at_beyond (suc p) xs (b ∷ bytes) h =
    omega (arith, length-write_at_beyond p xs bytes (omega arith))

-- A write changes nothing in front of it.
pub read_at-write_at_before :
    (q n p : ℕ) (xs bytes : List ℕ)
    → q + n ≤ p
    → p ≤ length bytes
    → read_at q n (write_at p xs bytes) ≡ read_at q n bytes
unfolding write_at
read_at-write_at_before zero zero p xs bytes h k = refl
read_at-write_at_before zero (suc n) zero xs bytes h k = absurd (omega arith)
read_at-write_at_before zero (suc n) (suc p) xs [] h k = absurd (omega arith)
read_at-write_at_before zero (suc n) (suc p) xs (b ∷ bytes) h k =
    ap (◌∷◌ b) (read_at-write_at_before zero n p xs bytes (omega arith) (omega arith))
read_at-write_at_before (suc q) n zero xs bytes h k = absurd (omega arith)
read_at-write_at_before (suc q) n (suc p) xs [] h k = absurd (omega arith)
read_at-write_at_before (suc q) n (suc p) xs (b ∷ bytes) h k =
    read_at-write_at_before q n p xs bytes (omega arith) (omega arith)

drop-append_beyond :
    (q : ℕ) (xs ys : List ℕ) → length xs ≤ q → drop q (xs ++ ys) ≡ drop (q - length xs) ys
drop-append_beyond q [] ys h = ap (λ k. drop k ys) {x = q} (omega arith)
drop-append_beyond zero (x ∷ xs) ys h = absurd (omega arith)
drop-append_beyond (suc q) (x ∷ xs) ys h =
    drop-append_beyond q xs ys (omega arith) ∙ ap (λ k. drop k ys) {x = q - length xs} (omega arith)

-- Nor behind it.
pub drop-write_at_after :
    (q p : ℕ) (xs bytes : List ℕ)
    → p + length xs ≤ q
    → p ≤ length bytes
    → drop q (write_at p xs bytes) ≡ drop q bytes
unfolding write_at
drop-write_at_after q zero xs bytes h k =
    drop-append_beyond q xs (drop (length xs) bytes) (omega arith)
    ∙ drop-drop (q - length xs) (length xs) bytes
    ∙ ap (λ k. drop k bytes) {x = length xs + (q - length xs)} (omega arith)
drop-write_at_after zero (suc p) xs bytes h k = absurd (omega arith)
drop-write_at_after (suc q) (suc p) xs [] h k = absurd (omega arith)
drop-write_at_after (suc q) (suc p) xs (b ∷ bytes) h k =
    drop-write_at_after q p xs bytes (omega arith) (omega arith)

pub length-read_at :
    (p n : ℕ) (bytes : List ℕ) → p + n ≤ length bytes → length (read_at p n bytes) ≡ n
length-read_at p n bytes h = omega (arith, length-take n (drop p bytes), length-drop p bytes)

-- A write behind some bytes leaves them.
pub write_at-append :
    (p n : ℕ) (xs front bytes : List ℕ)
    → p ≡ length front + n
    → write_at p xs (front ++ bytes) ≡ front ++ write_at n xs bytes
unfolding write_at
write_at-append p n xs [] bytes h = ap (λ k. write_at k xs bytes) {x = p} (omega arith)
write_at-append zero n xs (b ∷ front) bytes h = absurd (omega arith)
write_at-append (suc p) n xs (b ∷ front) bytes h =
    ap (◌∷◌ b) (write_at-append p n xs front bytes (omega arith))
