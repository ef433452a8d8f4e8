-- ===== src/Util/Search.antt =====
-- strnCaseStr against the places where the text stands.
use sa_wa.Base.{
  ℕ, zero, suc, ◌+◌, ◌-◌, ◌≤◌, ◌<◌, ◌≡◌, refl, sym, subst, Bool, true, false, ◌&&◌, ◌∷◌, ◌==◌, Text,
  arith, Bool-cases, inl, inr, ◌↔◌,
}
use sa_wa.Util.{tolower, same_text, scan, strn_case_str}

scan-finds :
    (mem : ℕ → ℕ) (c : ℕ) (rest : Text) (at left : ℕ)
    → scan mem (tolower c) rest at left ≡ true
    → (i : ℕ) × (i < at + left) × (same_text mem i (c ∷ rest) ≡ true)
unfolding scan same_text
scan-finds mem c rest at zero h = absurd (cc)
scan-finds mem c rest at (suc left) h =
    elim (Bool-cases ((tolower (mem at) == tolower c) && same_text mem (at + 1) rest)) [
      | inl e ↦ (at, omega arith, e)
      | inr e ↦
          let (i, b, m) = scan-finds mem c rest (at + 1) left (
            subst
              (λ x. elim x [ true ↦ true | false ↦ scan mem (tolower c) rest (at + 1) left ] ≡ true)
              e h) in
          (i, omega arith, m)
    ]

later :
    (mem : ℕ → ℕ) (find : Text) (at i : ℕ)
    → at ≤ i
    → same_text mem at find ≡ false
    → same_text mem i find ≡ true
    → at + 1 ≤ i
later mem find at i l e m = grind arith

finds-scan :
    (mem : ℕ → ℕ) (c : ℕ) (rest : Text) (at left i : ℕ)
    → at ≤ i
    → i < at + left
    → same_text mem i (c ∷ rest) ≡ true
    → scan mem (tolower c) rest at left ≡ true
unfolding scan same_text
finds-scan mem c rest at zero i l h m = absurd (omega arith)
finds-scan mem c rest at (suc left) i l h m =
    let step : Bool → Type 0 =
      λ x. elim x [ true ↦ true | false ↦ scan mem (tolower c) rest (at + 1) left ] ≡ true in
    elim (Bool-cases ((tolower (mem at) == tolower c) && same_text mem (at + 1) rest)) [
      | inl e ↦ subst step (sym e) refl
      | inr e ↦
          subst step (sym e) (
            finds-scan mem c rest (at + 1) left i (later mem (c ∷ rest) at i l e m) (omega arith) m)
    ]

-- strnCaseStr answers whether the text stands, up to the case of letters, at one of the addresses
-- in front of the last one of the range. The text may end behind the range.
pub strn_case_str_iff :
    (mem : ℕ → ℕ) (c : ℕ) (rest : Text) (max : ℕ)
    → (strn_case_str mem (c ∷ rest) max ≡ true)
      ↔ ((i : ℕ) × (i + 1 < max) × (same_text mem i (c ∷ rest) ≡ true))
unfolding strn_case_str
strn_case_str_iff mem c rest max = (
  (λ h. let (i, b, m) = scan-finds mem c rest 0 (max - 1) h in (i, omega arith, m)),
  (λ (i, b, m). finds-scan mem c rest 0 (max - 1) i (omega arith) (omega arith) m),
)
