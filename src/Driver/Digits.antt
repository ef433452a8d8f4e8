-- ===== src/Driver/Digits.antt =====
-- The numbers in the dump of sawa.c: how many characters they have, none of them 0.
use sa_wa.Base.{
  ℕ, zero, suc, ◌+◌, ◌-◌, ◌/◌, ◌%◌, ◌≤◌, ◌<◌, ◌≡◌, refl, sym, ap, ◌∙◌, subst, [], ◌∷◌, ◌++◌, length,
  take, replicate, Text, arith, le_or_lt, inl, inr, length-append, length-replicate, lt→ltb, le→ltb,
}
use sa_wa.Driver.Log.{hex_digit, hex_digits, padded}

unfoldable pub NonZero : Text → Type 0
NonZero [] = Unit
NonZero (c ∷ s) = (0 < c) × NonZero s

pub NonZero-append : (s t : Text) → NonZero s → NonZero t → NonZero (s ++ t)
unfolding NonZero
NonZero-append [] t h k = k
NonZero-append (c ∷ s) t (p, h) k = (p, NonZero-append s t h k)

NonZero-replicate : (n c : ℕ) → 0 < c → NonZero (replicate n c)
unfolding NonZero
NonZero-replicate zero c h = tt
NonZero-replicate (suc n) c h = (h, NonZero-replicate n c h)

pub NonZero-take : (n : ℕ) (s : Text) → NonZero s → NonZero (take n s)
unfolding NonZero
NonZero-take zero s h = tt
NonZero-take (suc n) [] h = tt
NonZero-take (suc n) (c ∷ s) (p, h) = (p, NonZero-take n s h)

module _ (places n : ℕ) where
  hex_digits-last : n < 16 → hex_digits (suc places) n ≡ hex_digit n ∷ []
  unfolding hex_digits
  hex_digits-last h = rw (lt→ltb n 16 h, hex_digits) refl

  hex_digits-more :
      16 ≤ n → hex_digits (suc places) n ≡ hex_digits places (n / 16) ++ hex_digit (n % 16) ∷ []
  unfolding hex_digits
  hex_digits-more h = rw (le→ltb n 16 h, hex_digits) refl

hex_digits-NonZero : (places n : ℕ) → NonZero (hex_digits places n)
unfolding NonZero hex_digits
hex_digits-NonZero zero n = tt
hex_digits-NonZero (suc places) n = elim (le_or_lt 16 n) [
  | inl h ↦ subst NonZero (sym (hex_digits-more places n h)) (
      NonZero-append (hex_digits places (n / 16)) (hex_digit (n % 16) ∷ [])
        (hex_digits-NonZero places (n / 16)) (ground arith, tt))
  | inr h ↦ subst NonZero (sym (hex_digits-last places n h)) (ground arith, tt)
]

hex_digits-length : (places n : ℕ) → length (hex_digits places n) ≤ places
unfolding hex_digits
hex_digits-length zero n = omega arith
hex_digits-length (suc places) n = elim (le_or_lt 16 n) [
  | inl h ↦ omega (
    arith,
    ap length (hex_digits-more places n h),
    length-append (hex_digits places (n / 16)) (hex_digit (n % 16) ∷ []),
    hex_digits-length places (n / 16),
  )
  | inr h ↦ omega (arith, ap length (hex_digits-last places n h))
]

pub padded-NonZero : (width n : ℕ) → NonZero (padded width n)
unfolding padded
padded-NonZero width n =
    NonZero-append (replicate (width - length (hex_digits 8 n)) b'0') (hex_digits 8 n)
      (NonZero-replicate (width - length (hex_digits 8 n)) b'0' (omega arith))
      (hex_digits-NonZero 8 n)

length-padded_lem :
    (width n : ℕ)
    → length (padded width n) ≡ (width - length (hex_digits 8 n)) + length (hex_digits 8 n)
unfolding padded
length-padded_lem width n =
    length-append (replicate (width - length (hex_digits 8 n)) b'0') (hex_digits 8 n)
    ∙ ap (λ k. k + length (hex_digits 8 n))
        (length-replicate (width - length (hex_digits 8 n)) b'0')

pub length-padded_byte : (byte : ℕ) → length (padded 2 (byte % 256)) ≡ 2
length-padded_byte byte =
    let n : ℕ = byte % 256 in
    elim (le_or_lt 16 n) [
      | inl h ↦ omega (
        arith,
        length-padded_lem 2 n,
        ap length (hex_digits-more 7 n h),
        length-append (hex_digits 7 (n / 16)) (hex_digit (n % 16) ∷ []),
        ap length (hex_digits-last 6 (n / 16) (omega arith)),
      )
      | inr h ↦ omega (arith, length-padded_lem 2 n, ap length (hex_digits-last 7 n h))
    ]

pub length-padded : (n : ℕ) → (4 ≤ length (padded 4 n)) × (length (padded 4 n) ≤ 8)
length-padded n = (
  omega (arith, length-padded_lem 4 n),
  omega (arith, length-padded_lem 4 n, hex_digits-length 8 n),
)
