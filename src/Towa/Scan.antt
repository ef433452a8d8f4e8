-- ===== src/Towa/Scan.antt =====
-- scanClasspath against the directory it reads.
use mathlib.Core.Option.{some-injective, none-ne-some}
use mathlib.Core.Bool.{true≢false}
use sa_wa.Base.{
  ◌≢◌, ◌≡◌, refl, sym, ap, ◌∙◌, Bool, true, false, Option, none, some, List, [], ◌∷◌, ◌++◌, ◌⊎◌,
  inl, inr, ◌-◌, ◌≤◌, length, take, drop, Text, text_eq, text_eq_refl, text_eq_sound, codes,
  if◌then◌else◌, arith, Bool-cases, ◌↔◌, take-append-drop, take-append, drop-append, length-append,
}
use sa_wa.Towa.Manager.{
  Entry, directory, regular, other, Classpath, count, insert, is_war, scan_entries,
}

-- A directory with a regular file of a name.
unfoldable pub HasFile : Text → List Entry → Type 0
HasFile name [] = ⊥
HasFile name (regular n ∷ rest) = (n ≡ name) ⊎ HasFile name rest
HasFile name (directory n ∷ rest) = HasFile name rest
HasFile name (other n ∷ rest) = HasFile name rest

count_same :
    (t u : Text) (set : List Text) → count u set ≡ true → text_eq t u ≡ true → count t set ≡ true
count_same t u set h e = ap (λ x. count x set) (text_eq_sound t u e) ∙ h

count-cons :
    (t u : Text) (set : List Text) → count t (u ∷ set) ≡ (if text_eq t u then true else count t set)
unfolding count
count-cons t u set = refl

pub count-insert :
    (t u : Text) (set : List Text)
    → count t (insert u set) ≡ (if text_eq t u then true else count t set)
unfolding insert
count-insert t u set = elim (Bool-cases (count u set)) [
  | inl e ↦ elim (Bool-cases (text_eq t u)) [
    | inl f ↦ ground (arith, e, f, count_same t u set e f)
    | inr f ↦ ground (arith, e, f)
  ]
  | inr e ↦ ap (λ b. count t (if b then set else u ∷ set)) e ∙ count-cons t u set
]

unfoldable pub stem : Text → Text
stem name = take (length name - 4) name

is_war_sound : (name : Text) → is_war name ≡ some true → name ≡ stem name ++ codes ".war"
unfolding is_war stem
is_war_sound name h =
    let last : text_eq (drop (length name - 4) name) (codes ".war") ≡ true = ground arith in
    sym (take-append-drop (length name - 4) name)
    ∙ ap (◌++◌ (take (length name - 4) name))
        (text_eq_sound (drop (length name - 4) name) (codes ".war") last)

length_war : (name : Text) → length (name ++ codes ".war") - 4 ≡ length name
length_war name = omega (arith, length-append name (codes ".war"))

is_war-append : (name : Text) → is_war (name ++ codes ".war") ≡ some true
unfolding is_war
is_war-append name =
    let last : drop (length (name ++ codes ".war") - 4) (name ++ codes ".war") ≡ codes ".war" =
      ap (λ k. drop k (name ++ codes ".war")) (length_war name) ∙ drop-append name (codes ".war") in
    let same : text_eq (drop (length (name ++ codes ".war") - 4) (name ++ codes ".war"))
          (codes ".war")
        ≡ true =
      ap (λ x. text_eq x (codes ".war")) last ∙ text_eq_refl (codes ".war") in
    ground (arith, same, length-append name (codes ".war"))

stem-append : (name : Text) → stem (name ++ codes ".war") ≡ name
unfolding stem
stem-append name =
    ap (λ k. take k (name ++ codes ".war")) (length_war name) ∙ take-append name (codes ".war")

-- The regular file adds its stem to the archives.
module _ (name n : Text) (wars : List Text) (w : is_war n ≡ some true) where
  stem_in :
      count name (insert (stem n) wars) ≡ true
      → (count name wars ≡ true) ⊎ (n ≡ name ++ codes ".war")
  stem_in h = elim (Bool-cases (text_eq name (stem n))) [
    | inl e ↦
        inr (is_war_sound n w ∙ ap (λ x. x ++ codes ".war") (sym (text_eq_sound name (stem n) e)))
    | inr e ↦ inl (
        ap (λ b. if b then true else count name wars) (sym e)
        ∙ sym (count-insert name (stem n) wars)
        ∙ h)
  ]

  in_stem :
      (count name wars ≡ true) ⊎ (n ≡ name ++ codes ".war")
      → count name (insert (stem n) wars) ≡ true
  in_stem (inl h) = elim (Bool-cases (text_eq name (stem n))) [
    | inl e ↦ count-insert name (stem n) wars ∙ ap (λ b. if b then true else count name wars) e
    | inr e ↦ count-insert name (stem n) wars ∙ ap (λ b. if b then true else count name wars) e ∙ h
  ]
  in_stem (inr h) =
      count-insert name (stem n) wars
      ∙ ap (λ b. if b then true else count name wars)
          (ap (text_eq name) (ap stem h ∙ stem-append name) ∙ text_eq_refl name)

not_war : (name n : Text) → is_war n ≡ some false → n ≢ name ++ codes ".war"
not_war name n h e =
    true≢false (some-injective true false (sym (is_war-append name) ∙ sym (ap is_war e) ∙ h))

pub option_bool : (o : Option Bool) → (o ≡ none) ⊎ ((o ≡ some false) ⊎ (o ≡ some true))
option_bool none = inl refl
option_bool (some false) = inr (inl refl)
option_bool (some true) = inr (inr refl)

module _ (n : Text) (rest : List Entry) (c : Classpath) where
  pub scan-short : is_war n ≡ none → scan_entries (regular n ∷ rest) c ≡ none
  unfolding scan_entries
  scan-short e = ground (arith, e)

  pub scan-skip : is_war n ≡ some false → scan_entries (regular n ∷ rest) c ≡ scan_entries rest c
  unfolding scan_entries
  scan-skip e = ground (arith, e)

  pub scan-add :
      is_war n ≡ some true
      → scan_entries (regular n ∷ rest) c
        ≡ scan_entries rest (record c { wars = insert (stem n) c.wars })
  unfolding scan_entries stem
  scan-add e = ground (arith, e)

scan-HasFile :
    (name : Text) (entries : List Entry) (c c' : Classpath)
    → scan_entries entries c ≡ some c'
    → count name c'.wars ≡ true
    → (count name c.wars ≡ true) ⊎ HasFile (name ++ codes ".war") entries
unfolding scan_entries HasFile
scan-HasFile name [] c c' h k = inl (ap (λ x. count name x.wars) (some-injective c c' h) ∙ k)
scan-HasFile name (directory n ∷ rest) c c' h k =
    scan-HasFile name rest (record c { dirs = insert n c.dirs }) c' h k
scan-HasFile name (other n ∷ rest) c c' h k = scan-HasFile name rest c c' h k
scan-HasFile name (regular n ∷ rest) c c' h k = elim (option_bool (is_war n)) [
  | inl e ↦ absurd (none-ne-some c' (sym (scan-short n rest c e) ∙ h))
  | inr (inl e) ↦ elim (scan-HasFile name rest c c' (sym (scan-skip n rest c e) ∙ h) k) [
    | inl q ↦ inl q
    | inr q ↦ inr (inr q)
  ]
  | inr (inr e) ↦
      elim (scan-HasFile name rest (record c { wars = insert (stem n) c.wars }) c'
        (sym (scan-add n rest c e) ∙ h) k) [
          | inl q ↦ elim (stem_in name n c.wars e q) [ inl r ↦ inl r | inr r ↦ inr (inl r) ]
          | inr q ↦ inr (inr q)
        ]
]

HasFile-scan :
    (name : Text) (entries : List Entry) (c c' : Classpath)
    → scan_entries entries c ≡ some c'
    → (count name c.wars ≡ true) ⊎ HasFile (name ++ codes ".war") entries
    → count name c'.wars ≡ true
unfolding scan_entries HasFile
HasFile-scan name [] c c' h (inl k) = ap (λ x. count name x.wars) (sym (some-injective c c' h)) ∙ k
HasFile-scan name [] c c' h (inr k) = absurd k
HasFile-scan name (directory n ∷ rest) c c' h k =
    HasFile-scan name rest (record c { dirs = insert n c.dirs }) c' h k
HasFile-scan name (other n ∷ rest) c c' h k = HasFile-scan name rest c c' h k
HasFile-scan name (regular n ∷ rest) c c' h k = elim (option_bool (is_war n)) [
  | inl e ↦ absurd (none-ne-some c' (sym (scan-short n rest c e) ∙ h))
  | inr (inl e) ↦
      HasFile-scan name rest c c' (sym (scan-skip n rest c e) ∙ h)
        (elim k [ inl q ↦ inl q | inr (inl q) ↦ absurd (not_war name n e q) | inr (inr q) ↦ inr q ])
  | inr (inr e) ↦
      HasFile-scan name rest (record c { wars = insert (stem n) c.wars }) c'
        (sym (scan-add n rest c e) ∙ h)
        (elim k [
          | inl q ↦ inl (in_stem name n c.wars e (inl q))
          | inr (inl q) ↦ inl (in_stem name n c.wars e (inr q))
          | inr (inr q) ↦ inr q
        ])
]

-- Every regular file has a name of at least four characters.
unfoldable pub LongNames : List Entry → Type 0
LongNames [] = Unit
LongNames (regular n ∷ rest) = (4 ≤ length n) × LongNames rest
LongNames (directory n ∷ rest) = LongNames rest
LongNames (other n ∷ rest) = LongNames rest

long_name : (n : Text) → 4 ≤ length n → is_war n ≢ none
unfolding is_war
long_name n h e = ground arith

pub scan_entries_total :
    (entries : List Entry) (c : Classpath)
    → LongNames entries
    → (c' : Classpath) × (scan_entries entries c ≡ some c')
unfolding scan_entries LongNames
scan_entries_total [] c l = (c, refl)
scan_entries_total (directory n ∷ rest) c l =
    scan_entries_total rest (record c { dirs = insert n c.dirs }) l
scan_entries_total (other n ∷ rest) c l = scan_entries_total rest c l
scan_entries_total (regular n ∷ rest) c (b, l) = elim (option_bool (is_war n)) [
  | inl e ↦ absurd (long_name n b e)
  | inr (inl e) ↦ let (c', h) = scan_entries_total rest c l in (c', scan-skip n rest c e ∙ h)
  | inr (inr e) ↦
      let (c', h) = scan_entries_total rest (record c { wars = insert (stem n) c.wars }) l in
      (c', scan-add n rest c e ∙ h)
]

-- The archives of a scan that ends.
pub wars-HasFile :
    (entries : List Entry) (name : Text) (c : Classpath)
    → scan_entries entries (record { wars = []; dirs = [] }) ≡ some c
    → (count name c.wars ≡ true) ↔ HasFile (name ++ codes ".war") entries
unfolding count
wars-HasFile entries name c h = (
  (λ k. elim (scan-HasFile name entries (record { wars = []; dirs = [] }) c h k) [
    | inl q ↦ absurd (true≢false (sym q))
    | inr q ↦ q
  ]),
  (λ k. HasFile-scan name entries (record { wars = []; dirs = [] }) c h (inr k)),
)
