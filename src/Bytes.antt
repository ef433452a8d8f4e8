-- ===== src/Bytes.antt =====
-- The representation of integers in memory and in messages (protocol.md): unsigned 32-bit numbers,
-- least significant byte first. Allocations are lists of bytes; a fresh one holds stale bytes.
use sa_wa.Base.{
  ℕ, zero, suc, ◌+◌, ◌-◌, ◌*◌, ◌/◌, ◌%◌, ◌^◌, ◌≤◌, ◌<◌, ◌≡◌, refl, ap, ◌∙◌, Option, none, some,
  List, [], ◌∷◌, ◌++◌, arith, length, take, length-append, length-take, take-all, append-nil,
}

-- What a store of a 32-bit integer leaves in memory.
unfoldable pub bytes_of_u32 : ℕ → List ℕ
bytes_of_u32 n = n % 256 ∷ n / 256 % 256 ∷ n / 65536 % 256 ∷ n / 16777216 % 256 ∷ []

unfoldable pub u32_of_bytes : ℕ → ℕ → ℕ → ℕ → ℕ
u32_of_bytes a b c d = a + 256 * b + 65536 * c + 16777216 * d

-- A load of a 32-bit integer at an address; undefined if a byte lies outside the allocation.
unfoldable pub load_u32 : List ℕ → ℕ → Option ℕ
load_u32 [] i = none
load_u32 (a ∷ []) i = none
load_u32 (a ∷ b ∷ []) i = none
load_u32 (a ∷ b ∷ c ∷ []) i = none
load_u32 (a ∷ b ∷ c ∷ d ∷ xs) zero = some (u32_of_bytes a b c d)
load_u32 (a ∷ b ∷ c ∷ d ∷ xs) (suc i) = load_u32 (b ∷ c ∷ d ∷ xs) i

-- The bytes that an allocation holds before it is written.
unfoldable pub stale_bytes : (ℕ → ℕ) → ℕ → ℕ → List ℕ
stale_bytes stale i zero = []
stale_bytes stale i (suc n) = stale i ∷ stale_bytes stale (i + 1) n

-- `new uint8_t[n]`, filled from the front with `xs`.
unfoldable pub fill : (ℕ → ℕ) → ℕ → List ℕ → List ℕ
fill stale n xs = take n xs ++ stale_bytes stale (length xs) (n - length xs)

pub length-stale_bytes : (stale : ℕ → ℕ) (i n : ℕ) → length (stale_bytes stale i n) ≡ n
unfolding stale_bytes
length-stale_bytes stale i zero = refl
length-stale_bytes stale i (suc n) = ap suc (length-stale_bytes stale (i + 1) n)

pub length-fill : (stale : ℕ → ℕ) (n : ℕ) (xs : List ℕ) → length (fill stale n xs) ≡ n
unfolding fill
length-fill stale n xs = omega (
  arith,
  length-append (take n xs) (stale_bytes stale (length xs) (n - length xs)),
  length-take n xs,
  length-stale_bytes stale (length xs) (n - length xs),
)

-- A buffer that is filled completely holds no stale byte.
pub fill-exact : (stale : ℕ → ℕ) (n : ℕ) (xs : List ℕ) → length xs ≡ n → fill stale n xs ≡ xs
unfolding fill stale_bytes
fill-exact stale n xs h =
    let none_left : n - length xs ≡ 0 = omega arith in
    ap (λ k. take n xs ++ stale_bytes stale (length xs) k) none_left
    ∙ append-nil (take n xs)
    ∙ take-all n xs (omega arith)

pub length-bytes_of_u32 : (n : ℕ) → length (bytes_of_u32 n) ≡ 4
unfolding bytes_of_u32
length-bytes_of_u32 n = refl

-- Encoding and decoding a 32-bit integer are inverse.
pub u32_of_bytes_lem :
    (n : ℕ)
    → n < 2 ^ 32
    → u32_of_bytes (n % 256) (n / 256 % 256) (n / 65536 % 256) (n / 16777216 % 256) ≡ n
unfolding u32_of_bytes
u32_of_bytes_lem n h = omega arith

-- The integer stored at the front, and those behind the bytes in front of it.
pub load_u32-bytes_of_u32 :
    (n : ℕ) (rest : List ℕ) → n < 2 ^ 32 → load_u32 (bytes_of_u32 n ++ rest) 0 ≡ some n
unfolding load_u32 bytes_of_u32
load_u32-bytes_of_u32 n rest h = ap some (u32_of_bytes_lem n h)

-- The field behind the command byte, and the one behind that.
pub load_u32-command :
    (op n : ℕ) (rest : List ℕ) → n < 2 ^ 32 → load_u32 (op ∷ (bytes_of_u32 n ++ rest)) 1 ≡ some n
unfolding load_u32 bytes_of_u32
load_u32-command op n rest h = ap some (u32_of_bytes_lem n h)

pub load_u32-second :
    (op m n : ℕ) → n < 2 ^ 32 → load_u32 (op ∷ (bytes_of_u32 m ++ bytes_of_u32 n)) 5 ≡ some n
unfolding load_u32 bytes_of_u32
load_u32-second op m n h = ap some (u32_of_bytes_lem n h)

-- A load is defined exactly inside the allocation.
pub load_u32_inside : (xs : List ℕ) (i : ℕ) → i + 4 ≤ length xs → (n : ℕ) × (load_u32 xs i ≡ some n)
unfolding load_u32
load_u32_inside [] i h = absurd (omega arith)
load_u32_inside (a ∷ []) i h = absurd (omega arith)
load_u32_inside (a ∷ b ∷ []) i h = absurd (omega arith)
load_u32_inside (a ∷ b ∷ c ∷ []) i h = absurd (omega arith)
load_u32_inside (a ∷ b ∷ c ∷ d ∷ xs) zero h = (u32_of_bytes a b c d, refl)
load_u32_inside (a ∷ b ∷ c ∷ d ∷ xs) (suc i) h = load_u32_inside (b ∷ c ∷ d ∷ xs) i (omega arith)

pub load_u32_outside : (xs : List ℕ) (i : ℕ) → length xs < i + 4 → load_u32 xs i ≡ none
unfolding load_u32
load_u32_outside [] i h = refl
load_u32_outside (a ∷ []) i h = refl
load_u32_outside (a ∷ b ∷ []) i h = refl
load_u32_outside (a ∷ b ∷ c ∷ []) i h = refl
load_u32_outside (a ∷ b ∷ c ∷ d ∷ xs) zero h = absurd (omega arith)
load_u32_outside (a ∷ b ∷ c ∷ d ∷ xs) (suc i) h = load_u32_outside (b ∷ c ∷ d ∷ xs) i (omega arith)

-- A buffer that nothing was read into is all stale.
pub fill-nil : (stale : ℕ → ℕ) (n : ℕ) → fill stale n [] ≡ stale_bytes stale 0 n
unfolding fill
fill-nil stale zero = ap (stale_bytes stale 0) {x = 0 - 0} (omega arith)
fill-nil stale (suc n) = ap (stale_bytes stale 0) {x = suc n - 0} (omega arith)
