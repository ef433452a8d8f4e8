-- ===== src/Client/SelfTest.antt =====
-- The client's self-test: the pages that threadTest writes, and its comparison with what it reads.
use sa_wa.Storage.{Recv}
use sa_wa.Sawa.{msg_ok}
use sa_wa.Client.{SawaInterface, returned, thrown, bad_size, is_code, send_write_cmd, send_read_cmd}
use sa_wa.Base.{
  Option, some, ◌*◌, if◌then◌else◌, ◌>>=◌, ℕ, zero, suc, ◌+◌, ◌-◌, ◌%◌, ◌≤◌, ◌<◌, ◌≡◌, ◌≢◌, refl,
  Bool, true, false, List, [], ◌∷◌, ◌++◌, take, ◌==◌, ℤ, arith, ◌⊎◌, inl, inr, Bool-cases,
}

-- Whether strncmp of two allocations answers 0.
unfoldable pub strncmp_equal : ℕ → List ℕ → List ℕ → Bool
strncmp_equal zero xs ys = true
strncmp_equal (suc n) [] ys = true
strncmp_equal (suc n) (x ∷ xs) [] = true
strncmp_equal (suc n) (zero ∷ xs) (y ∷ ys) = y == 0
strncmp_equal (suc n) (suc x ∷ xs) (y ∷ ys) = elim (suc x == y) [
  | true ↦ strncmp_equal n xs ys
  | false ↦ false
]

-- The bytes of page i from byte j on.
unfoldable pub test_bytes : ℕ → ℕ → ℕ → List ℕ
test_bytes i j zero = []
test_bytes i j (suc n) = (i + j) % 256 ∷ test_bytes i (j + 1) n

unfoldable pub test_page : ℕ → List ℕ
unfolding test_bytes
test_page i = test_bytes i 0 4096

-- The test on a page that was read back.
unfoldable pub page_passes : ℕ → List ℕ → Bool
unfolding strncmp_equal test_page
page_passes i buffer_in = strncmp_equal 4096 buffer_in (test_page i)

-- What a thread of the test reports: a write's code, a page that differs, or an exception, which
-- ends it.
pub data Report : Type 0 where
  error_code : ℤ → ℕ → Report
  page_differs : ℕ → Report
  exception : ℕ → Report
  no_memory : Report

unfoldable pub page_reports : ℕ → ℤ → Bool → List Report
unfolding is_code
page_reports i result passes =
    (if is_code result msg_ok then [] else error_code result i ∷ [])
    ++ (if passes then [] else page_differs i ∷ [])

-- The loop of threadTest from page i on, with what the reads of each page's two replies answer.
unfoldable pub thread_test :
    (ℕ → ℕ) → SawaInterface → ℕ → List (Recv × Recv) → Option (SawaInterface × List Report)
unfolding page_reports page_passes
thread_test stale sawa i [] = some (sawa, [])
thread_test stale sawa i ((write_reply, read_reply) ∷ rest) = do
  (sawa, result) ← send_write_cmd stale sawa (test_page i) (i * 4096) write_reply
  (sawa, outcome) ← send_read_cmd stale sawa (i * 4096) 4096 read_reply
  elim outcome [
    | thrown code ↦ some (sawa, exception code ∷ [])
    | bad_size ↦ some (sawa, no_memory ∷ [])
    | returned buffer_in ↦ do
      (sawa, reports) ← thread_test stale sawa (i + 1) rest
      some (sawa, page_reports i result (page_passes i buffer_in) ++ reports)
  ]

same_byte :
    (n v : ℕ) (xs ys : List ℕ)
    → (v ≡ 0) ⊎ (strncmp_equal n xs ys ≡ true)
    → strncmp_equal (suc n) (v ∷ xs) (v ∷ ys) ≡ true
unfolding strncmp_equal
same_byte n zero xs ys h = refl
same_byte n (suc v) xs ys (inl h) = absurd (omega arith)
same_byte n (suc v) xs ys (inr h) = ground (arith, h)

-- Whether the next byte 0 of the page is among the next m.
ZeroWithin : ℕ → ℕ → ℕ → Type 0
ZeroWithin i j m = (((i + j) % 256 ≡ 0) × (0 < m)) ⊎ (256 - (i + j) % 256 < m)

next_byte : (i j m : ℕ) → ZeroWithin i j (suc m) → ((i + j) % 256 ≡ 0) ⊎ ZeroWithin i (j + 1) m
unfolding ZeroWithin
next_byte i j m (inl (z, h)) = inl z
next_byte i j m (inr h) = elim (Bool-cases ((i + (j + 1)) % 256 == 0)) [
  | inl e ↦ inr (inl (ground arith, omega arith))
  | inr e ↦ inr (inr (let n : (i + (j + 1)) % 256 ≢ 0 = ground arith in omega arith))
]

reaches_zero :
    (i j n m : ℕ) (others : List ℕ)
    → m ≤ n
    → ZeroWithin i j m
    → strncmp_equal n (take m (test_bytes i j n) ++ others) (test_bytes i j n) ≡ true
unfolding test_bytes ZeroWithin
reaches_zero i j n zero others h d = absurd (omega arith)
reaches_zero i j zero (suc m) others h d = absurd (omega arith)
reaches_zero i j (suc n) (suc m) others h d =
    same_byte n ((i + j) % 256) (take m (test_bytes i (j + 1) n) ++ others) (test_bytes i (j + 1) n)
      (elim (next_byte i j m d) [
        | inl z ↦ inl z
        | inr z ↦ inr (reaches_zero i (j + 1) n m others (omega arith) z)
      ])

page-ZeroWithin : (i : ℕ) → ZeroWithin i 0 256
unfolding ZeroWithin
page-ZeroWithin i = elim (Bool-cases ((i + 0) % 256 == 0)) [
  | inl e ↦ inl (ground arith, omega arith)
  | inr e ↦ inr (let n : (i + 0) % 256 ≢ 0 = ground arith in omega arith)
]

-- The self-test passes every page whose first 256 bytes are read back as they were written, whatever
-- the other 3840 are: the comparison stops at the page's first byte 0.
pub page_passes-prefix :
    (i : ℕ) (others : List ℕ) → page_passes i (take 256 (test_page i) ++ others) ≡ true
unfolding page_passes test_page
page_passes-prefix i others = reaches_zero i 0 4096 256 others (omega arith) (page-ZeroWithin i)
