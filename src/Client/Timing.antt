-- ===== src/Client/Timing.antt =====
-- timeval_subtract of server/sawa_client_interface.cpp, with which testServer takes its time. The
-- numbers do not wrap.
use sa_wa.Base.{
  ℕ, suc, ◌+◌, ◌-◌, ◌*◌, ◌/◌, ◌%◌, ◌<◌, ◌≤◌, ◌≡◌, refl, ap, ◌∙◌, Bool, true, false, ℤ, pos, negsuc,
  leb, ltb, if◌then◌else◌, arith, Bool-cases, inl, inr,
}

infixl 6 ◌+ℤ◌ ◌-ℤ◌
-- m - n as an integer.
unfoldable pub diff : ℕ → ℕ → ℤ
diff m n = if leb n m then pos (m - n) else negsuc (n - m - 1)

unfoldable pub ◌+ℤ◌ : ℤ → ℤ → ℤ
unfolding diff
pos a +ℤ pos b = pos (a + b)
pos a +ℤ negsuc b = diff a (suc b)
negsuc a +ℤ pos b = diff b (suc a)
negsuc a +ℤ negsuc b = negsuc (a + b + 1)

unfoldable pub ◌-ℤ◌ : ℤ → ℤ → ℤ
unfolding diff
pos a -ℤ pos b = diff a b
pos a -ℤ negsuc b = pos (a + suc b)
negsuc a -ℤ pos b = negsuc (a + b)
negsuc a -ℤ negsuc b = diff b a

unfoldable pub is_below : ℤ → ℤ → Bool
is_below (pos a) (pos b) = ltb a b
is_below (pos a) (negsuc b) = false
is_below (negsuc a) (pos b) = true
is_below (negsuc a) (negsuc b) = ltb b a

-- Division of C, which cuts off towards 0, and the product, both by 1000000.
unfoldable pub per_million : ℤ → ℤ
unfolding diff
per_million (pos a) = pos (a / 1000000)
per_million (negsuc a) = diff 0 (suc a / 1000000)

unfoldable pub million_times : ℤ → ℤ
unfolding diff
million_times (pos a) = pos (1000000 * a)
million_times (negsuc a) = diff 0 (1000000 * suc a)

pub record Timeval : Type 0 where
  pub tv_sec : ℤ
  pub tv_usec : ℤ

-- The first and the second of the tests, each on the difference that it looks at.
unfoldable pub carry : Timeval → Timeval → Timeval
unfolding ◌+ℤ◌ ◌-ℤ◌ is_below per_million million_times
carry x y =
    if is_below x.tv_usec y.tv_usec
    then (let nsec = per_million (y.tv_usec -ℤ x.tv_usec) +ℤ pos 1 in
        record { tv_sec = y.tv_sec +ℤ nsec; tv_usec = y.tv_usec -ℤ million_times nsec })
    else y

unfoldable pub give_back : Timeval → Timeval → Timeval
unfolding ◌+ℤ◌ ◌-ℤ◌ is_below per_million million_times
give_back x y =
    if is_below (pos 1000000) (x.tv_usec -ℤ y.tv_usec)
    then (let nsec = per_million (y.tv_usec -ℤ x.tv_usec) in
        record { tv_sec = y.tv_sec -ℤ nsec; tv_usec = y.tv_usec +ℤ million_times nsec })
    else y

-- The result.
unfoldable pub timeval_subtract : Timeval → Timeval → Timeval
unfolding carry give_back ◌-ℤ◌
timeval_subtract x y =
    let y' = give_back x (carry x y) in
    record { tv_sec = x.tv_sec -ℤ y'.tv_sec; tv_usec = x.tv_usec -ℤ y'.tv_usec }

abbrev pub at_time : ℕ → ℕ → Timeval
at_time s u = record { tv_sec = pos s; tv_usec = pos u }

diff-pos : (m n : ℕ) → n ≤ m → diff m n ≡ pos (m - n)
unfolding diff
diff-pos m n h = ground arith

module _ (xs xu ys yu : ℕ) (hx : xu < 1000000) (hy : yu < 1000000) where
  -- The second behind a carry of one.
  carried : Timeval
  carried = record { tv_sec = pos (ys + 1); tv_usec = negsuc (1000000 - yu - 1) }

  one_second : xu < yu → per_million (pos yu -ℤ pos xu) +ℤ pos 1 ≡ pos 1
  unfolding ◌-ℤ◌ ◌+ℤ◌ per_million
  one_second below =
      ap (λ z. per_million z +ℤ pos 1) (diff-pos yu xu (omega arith))
      ∙ ap pos {x = (yu - xu) / 1000000 + 1} {y = 1} (omega arith)

  borrowed : pos yu -ℤ pos 1000000 ≡ negsuc (1000000 - yu - 1)
  unfolding ◌-ℤ◌ diff
  borrowed = ground arith

  carry-below : xu < yu → carry (at_time xs xu) (at_time ys yu) ≡ carried
  unfolding carry is_below carried million_times ◌+ℤ◌
  carry-below below =
      let test : ltb xu yu ≡ true = ground arith in rw (test, one_second below, borrowed) refl

  carry-above : yu ≤ xu → carry (at_time xs xu) (at_time ys yu) ≡ at_time ys yu
  unfolding carry is_below
  carry-above above = let test : ltb xu yu ≡ false = ground arith in rw test refl

  give_back-carried : xu < yu → give_back (at_time xs xu) carried ≡ carried
  unfolding give_back is_below carried ◌-ℤ◌
  give_back-carried below =
      let test : ltb 1000000 (xu + suc (1000000 - yu - 1)) ≡ false = ground arith in rw test refl

  give_back-above : yu ≤ xu → give_back (at_time xs xu) (at_time ys yu) ≡ at_time ys yu
  unfolding give_back is_below ◌-ℤ◌
  give_back-above above =
      let test : ltb 1000000 (xu - yu) ≡ false = ground arith in
      rw (diff-pos xu yu above, test) refl

-- Of two times whose microseconds are below a second, the later one first, the result is the time
-- between them, in seconds and the microseconds above them.
pub timeval_subtract-elapsed :
    (xs xu ys yu d : ℕ)
    → xu < 1000000
    → yu < 1000000
    → 1000000 * xs + xu ≡ 1000000 * ys + yu + d
    → timeval_subtract (at_time xs xu) (at_time ys yu) ≡ at_time (d / 1000000) (d % 1000000)
unfolding timeval_subtract ◌-ℤ◌ carried
timeval_subtract-elapsed xs xu ys yu d hx hy e = elim (Bool-cases (ltb xu yu)) [
  | inl below ↦
      let less : xu < yu = ground arith in
      let y' =
        ap (give_back (at_time xs xu)) (carry-below xs xu ys yu hx hy less)
        ∙ give_back-carried xs xu ys yu hx hy less in
      ap (λ y. record { tv_sec = pos xs -ℤ y.tv_sec; tv_usec = pos xu -ℤ y.tv_usec }) y'
      ∙ ap (λ s. record { tv_sec = s; tv_usec = pos (xu + suc (1000000 - yu - 1)) })
          (diff-pos xs (ys + 1) (omega arith))
      ∙ same (xs - (ys + 1)) (xu + suc (1000000 - yu - 1)) (omega arith) (omega arith)
  | inr above ↦
      let more : yu ≤ xu = ground arith in
      let y' =
        ap (give_back (at_time xs xu)) (carry-above xs xu ys yu hx hy more)
        ∙ give_back-above xs xu ys yu hx hy more in
      ap (λ y. record { tv_sec = pos xs -ℤ y.tv_sec; tv_usec = pos xu -ℤ y.tv_usec }) y'
      ∙ ap (λ s. record { tv_sec = s; tv_usec = diff xu yu }) (diff-pos xs ys (omega arith))
      ∙ ap (λ u. record { tv_sec = pos (xs - ys); tv_usec = u }) (diff-pos xu yu more)
      ∙ same (xs - ys) (xu - yu) (omega arith) (omega arith)
]
  where
    same :
        (s u : ℕ)
        → s ≡ d / 1000000
        → u ≡ d % 1000000
        → at_time s u ≡ at_time (d / 1000000) (d % 1000000)
    same s u f g = λ i. at_time (f i) (g i)
