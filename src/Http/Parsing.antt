-- ===== src/Http/Parsing.antt =====
-- The loop over the matches of a request line against its first match.
use sa_wa.Base.{
  ℕ, zero, suc, ◌+◌, ◌≤◌, ◌<◌, ◌≡◌, refl, Option, none, some, List, [], ◌∷◌, length, get_or, arith,
  Text, Option-cases, inl, inr,
}
use sa_wa.Http.Request.{Match, take_group, take_groups, match_loop}

-- The library's regex_search: a match has the whole and the three groups of the expression, and
-- takes at least one character.
pub record IsSearch (regex_search : Text → Option Match) : Type 0 where
  pub four : (s : Text) (m : Match) → regex_search s ≡ some m → length m.groups ≡ 4
  pub shorter : (s : Text) (m : Match) → regex_search s ≡ some m → length m.suffix < length s

-- The first group and the third group of the first match.
unfoldable pub first_match : Option Match → Text × Text
first_match none = ([], [])
first_match (some m) = (get_or m.groups 1 [], get_or m.groups 3 [])

take_groups-past : (idx : ℕ) (xs : List Text) (r : Text × Text) → 4 ≤ idx → take_groups idx xs r ≡ r
unfolding take_groups take_group
take_groups-past idx [] r h = refl
take_groups-past idx (x ∷ xs) r h = ground (arith, take_groups-past (idx + 1) xs r)

take_groups-four :
    (gs : List Text) → length gs ≡ 4 → take_groups 0 gs ([], []) ≡ (get_or gs 1 [], get_or gs 3 [])
unfolding take_groups take_group
take_groups-four [] h = absurd (omega arith)
take_groups-four (a ∷ []) h = absurd (omega arith)
take_groups-four (a ∷ b ∷ []) h = absurd (omega arith)
take_groups-four (a ∷ b ∷ c ∷ []) h = absurd (omega arith)
take_groups-four (a ∷ b ∷ c ∷ d ∷ []) h = refl
take_groups-four (a ∷ b ∷ c ∷ d ∷ e ∷ gs) h = absurd (omega arith)

module _ (regex_search : Text → Option Match) (v : IsSearch regex_search) where
  match_loop-past :
      (fuel idx : ℕ) (s : Text) (r : Text × Text)
      → length s < fuel
      → 4 ≤ idx
      → match_loop regex_search fuel idx s r ≡ some r
  unfolding match_loop
  match_loop-past zero idx s r h i = absurd (omega arith)
  match_loop-past (suc fuel) idx s r h i = elim (Option-cases (regex_search s)) [
    | inl e ↦ ground (arith, e)
    | inr (m, e) ↦ ground (
      arith,
      e,
      take_groups-past idx m.groups r i,
      match_loop-past fuel (idx + length m.groups) m.suffix r (omega (arith, v.shorter s m e))
          (omega arith),
    )
  ]

-- Where a match has four submatches and takes a character at least: with one unit of fuel for each
-- character and one more the loop over the matches ends. The path is the first group of the first
-- match and the query its third group, although the switch also puts the path into the query in
-- between; both are empty where nothing matches.
pub match_loop-first :
    (regex_search : Text → Option Match) (s : Text)
    → IsSearch regex_search
    → match_loop regex_search (suc (length s)) 0 s ([], []) ≡ some (first_match (regex_search s))
unfolding match_loop first_match
match_loop-first regex_search s v = elim (Option-cases (regex_search s)) [
  | inl e ↦ ground (arith, e)
  | inr (m, e) ↦ ground (
    arith,
    e,
    take_groups-four m.groups (v.four s m e),
    match_loop-past regex_search v (length s) (length m.groups) m.suffix
        (get_or m.groups 1 [], get_or m.groups 3 []) (v.shorter s m e)
        (omega (arith, v.four s m e)),
  )
]
