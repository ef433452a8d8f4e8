-- ===== src/Base/Texts.antt =====
-- Text as lists of bytes: literals, equality, decimal numbers.
use sa_wa.Base.Tests.{◌>>=◌}
use Prim.Native.Nat.{ℕ, zero, suc, ◌+◌, ◌-◌, ◌*◌, ◌/◌, ◌%◌, ◌≤◌, ◌<◌, compare, Ordering}
use Prim.Native.Char.{code}
use Prim.Native.String.{String}
use mathlib.Core.Path.{◌≡◌, refl}
use mathlib.Core.Bool.{Bool, true, false}
use mathlib.Core.Option.{Option, none, some}
use mathlib.Core.List.{List, [], ◌∷◌, ◌++◌}
use native.Mathlib.Omega.{arith}

abbrev pub Text : Type 0
Text = List ℕ

abbrev pub codes : String → Text
codes String.[] = []
codes (String.◌∷◌ c s) = code c ∷ codes s

unfoldable pub text_eq : Text → Text → Bool
text_eq [] [] = true
text_eq [] (y ∷ ys) = false
text_eq (x ∷ xs) [] = false
text_eq (x ∷ xs) (y ∷ ys) = elim (compare x y) [ Ordering.eq ↦ text_eq xs ys | _ ↦ false ]

pub text_eq_refl : (xs : Text) → text_eq xs xs ≡ true
unfolding text_eq
text_eq_refl [] = refl
text_eq_refl (x ∷ xs) = ground (arith, text_eq_refl xs)

pub text_eq_sound : (xs ys : Text) → text_eq xs ys ≡ true → xs ≡ ys
unfolding text_eq
text_eq_sound [] [] h = refl
text_eq_sound [] (y ∷ ys) h = absurd (cc)
text_eq_sound (x ∷ xs) [] h = absurd (cc)
text_eq_sound (x ∷ xs) (y ∷ ys) h = ground (arith, text_eq_sound xs ys)

-- The characters in front of the first 0 byte; undefined if the block holds none.
unfoldable pub c_string : List ℕ → Option Text
c_string [] = none
c_string (zero ∷ bytes) = some []
c_string (suc c ∷ bytes) = do s ← c_string bytes; some (suc c ∷ s)

-- to_string of a number; there are never more digits than the number.
unfoldable digits : ℕ → ℕ → Text
digits zero n = []
digits (suc fuel) n = elim (compare n 10) [
  | Ordering.lt ↦ (48 + n) ∷ []
  | _ ↦ digits fuel (n / 10) ++ (48 + n % 10) ∷ []
]

unfoldable pub decimal : ℕ → Text
unfolding digits
decimal n = digits (suc n) n

-- The number that a text of digits stands for, behind those that are read already.
unfoldable pub number : ℕ → Text → ℕ
number acc [] = acc
number acc (d ∷ ds) = number (acc * 10 + (d - 48)) ds

number-snoc :
    (acc : ℕ) (xs : Text) (d : ℕ) → number acc (xs ++ d ∷ []) ≡ number acc xs * 10 + (d - 48)
unfolding number
number-snoc acc [] d = refl
number-snoc acc (x ∷ xs) d = number-snoc (acc * 10 + (x - 48)) xs d

number-digits : (fuel n : ℕ) → n < fuel → number 0 (digits fuel n) ≡ n
unfolding digits number
number-digits zero n h = absurd (omega arith)
number-digits (suc fuel) n h =
    ground (arith, number-snoc 0 (digits fuel (n / 10)) (48 + n % 10), number-digits fuel (n / 10))

pub number-decimal : (n : ℕ) → number 0 (decimal n) ≡ n
unfolding decimal
number-decimal n = number-digits (suc n) n (omega arith)

unfoldable pub Digits : Text → Type 0
Digits [] = Unit
Digits (d ∷ ds) = (b'0' ≤ d) × (d ≤ b'9') × Digits ds

Digits-snoc : (xs : Text) (d : ℕ) → Digits xs → b'0' ≤ d → d ≤ b'9' → Digits (xs ++ d ∷ [])
unfolding Digits
Digits-snoc [] d h a b = (a, b, tt)
Digits-snoc (x ∷ xs) d (l, u, h) a b = (l, u, Digits-snoc xs d h a b)

digits-Digits : (fuel n : ℕ) → Digits (digits fuel n)
unfolding digits Digits
digits-Digits zero n = tt
digits-Digits (suc fuel) n =
    ground (arith, Digits-snoc (digits fuel (n / 10)) (48 + n % 10) (digits-Digits fuel (n / 10)))

pub Digits-decimal : (n : ℕ) → Digits (decimal n)
unfolding decimal
Digits-decimal n = digits-Digits (suc n) n
