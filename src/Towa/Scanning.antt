-- ===== src/Towa/Scanning.antt =====
-- scanClasspath: the archives that it unpacks and the servlets that it reads.
use mathlib.Core.Option.{some-injective, none-ne-some}
use mathlib.Core.Bool.{true≢false}
use sa_wa.Base.{
  ◌≡◌, refl, sym, ap, ◌∙◌, Bool, true, false, none, some, List, [], ◌∷◌, ◌++◌, inl, inr, Text,
  text_eq, text_eq_refl, text_eq_sound, codes, if◌then◌else◌, arith, Bool-cases, Option-cases, ◌↔◌,
  map, ◌&&◌, not, ◌||◌,
}
use sa_wa.Towa.WebXml.{TowaServlet, Xml, read_web_xml, Unpacking, uncompress_war}
use sa_wa.Towa.Manager.{
  Entry, directory, regular, other, Classpath, count, insert, is_war, scan_entries, read_wars,
  scan_classpath,
}
use sa_wa.Towa.Scan.{
  HasFile, LongNames, wars-HasFile, scan_entries_total, option_bool, stem, scan-short, scan-skip,
  scan-add, count-insert,
}

-- A name among the archives whose document gives no servlet.
Unreadable : Xml → List Text → Type 0
Unreadable xml wars = (name : Text) × (count name wars ≡ true) × (read_web_xml xml name ≡ none)

count-later : (t u : Text) (set : List Text) → count t set ≡ true → count t (u ∷ set) ≡ true
unfolding count
count-later t u set h = ground (arith, h)

count-first : (u : Text) (set : List Text) → count u (u ∷ set) ≡ true
unfolding count
count-first u set = rw (text_eq_refl u) refl

-- The folder of an archive.
abbrev pub folder_of : Text → Text
folder_of name = codes "./classpath/" ++ name

-- The loop over the archives, one of them in front of the rest.
module _ (xml : Xml) (dirs : List Text) (war : Text) (wars : List Text) where
  read_wars-bad : read_web_xml xml war ≡ none → read_wars xml dirs (war ∷ wars) ≡ none
  unfolding read_wars
  read_wars-bad e = ground (arith, e)

  read_wars-later : read_wars xml dirs wars ≡ none → read_wars xml dirs (war ∷ wars) ≡ none
  unfolding read_wars
  read_wars-later f = elim (Option-cases (read_web_xml xml war)) [
    | inl e ↦ ground (arith, e)
    | inr (servlet, e) ↦ ground (arith, e, f)
  ]

  read_wars-both :
      (servlet : TowaServlet) (us : List Unpacking) (ss : List TowaServlet)
      → read_web_xml xml war ≡ some servlet
      → read_wars xml dirs wars ≡ some (us, ss)
      → read_wars xml dirs (war ∷ wars)
        ≡ some ((if count war dirs then us else uncompress_war (folder_of war) ∷ us), servlet ∷ ss)
  unfolding read_wars
  read_wars-both servlet us ss e f = rw (e, f, read_wars) refl

read_wars-none :
    (xml : Xml) (dirs wars : List Text) → read_wars xml dirs wars ≡ none → Unreadable xml wars
unfolding Unreadable read_wars
read_wars-none xml dirs [] h = absurd (none-ne-some ([], []) (sym h))
read_wars-none xml dirs (war ∷ wars) h = elim (Option-cases (read_web_xml xml war)) [
  | inl e ↦ (war, count-first war wars, e)
  | inr (servlet, e) ↦ elim (Option-cases (read_wars xml dirs wars)) [
    | inl f ↦
        let (name, k, r) = read_wars-none xml dirs wars f in (name, count-later name war wars k, r)
    | inr ((us, ss), f) ↦
        absurd (none-ne-some _ (sym h ∙ read_wars-both xml dirs war wars servlet us ss e f))
  ]
]

none-read_wars :
    (xml : Xml) (dirs wars : List Text) → Unreadable xml wars → read_wars xml dirs wars ≡ none
unfolding Unreadable count
none-read_wars xml dirs [] (name, k, r) = absurd (true≢false (sym k))
none-read_wars xml dirs (war ∷ wars) (name, k, r) = elim (Bool-cases (text_eq name war)) [
  | inl e ↦
      read_wars-bad xml dirs war wars (ap (read_web_xml xml) (sym (text_eq_sound name war e)) ∙ r)
  | inr e ↦ read_wars-later xml dirs war wars (
      none-read_wars xml dirs wars
        (name, sym (ap (λ b. if b then true else count name wars) e) ∙ k, r))
]

folders_step :
    (name war : Text) (dirs wars : List Text) (us : List Unpacking)
    → count (folder_of name) (map (λ u. u.folder) us) ≡ (count name wars && not (count name dirs))
    → count
        (folder_of name)
        (map (λ u. u.folder) (if count war dirs then us else uncompress_war (folder_of war) ∷ us))
      ≡ (count name (war ∷ wars) && not (count name dirs))
unfolding count uncompress_war text_eq
folders_step name war dirs wars us later = elim (Bool-cases (text_eq name war)) [
  | inl e ↦
      let same : count name dirs ≡ count war dirs =
        ap (λ x. count x dirs) (text_eq_sound name war e) in
      elim (Bool-cases (count war dirs)) [
        | inl k ↦ ground (arith, e, k, same, later)
        | inr k ↦ ground (arith, e, k, same, later)
      ]
  | inr e ↦ elim (Bool-cases (count war dirs)) [
    | inl k ↦ ground (arith, e, k, later)
    | inr k ↦ ground (arith, e, k, later)
  ]
]

-- Which folders the loop makes.
folders-read_wars :
    (xml : Xml) (dirs wars : List Text) (us : List Unpacking) (ss : List TowaServlet) (name : Text)
    → read_wars xml dirs wars ≡ some (us, ss)
    → count (folder_of name) (map (λ u. u.folder) us) ≡ (count name wars && not (count name dirs))
unfolding count read_wars
folders-read_wars xml dirs [] us ss name h =
    ap (λ x. count (folder_of name) (map (λ u. u.folder) x.0)) (sym (some-injective _ _ h))
folders-read_wars xml dirs (war ∷ wars) us ss name h = elim (Option-cases (read_web_xml xml war)) [
  | inl e ↦ absurd (none-ne-some _ (sym (read_wars-bad xml dirs war wars e) ∙ h))
  | inr (servlet, e) ↦ elim (Option-cases (read_wars xml dirs wars)) [
    | inl f ↦ absurd (none-ne-some _ (sym (read_wars-later xml dirs war wars f) ∙ h))
    | inr ((us', ss'), f) ↦
        let same =
          some-injective _ _ (sym (read_wars-both xml dirs war wars servlet us' ss' e f) ∙ h) in
        let later = folders-read_wars xml dirs wars us' ss' name f in
        ap (λ x. count (folder_of name) (map (λ u. u.folder) x.0)) (sym same)
        ∙ folders_step name war dirs wars us' later
  ]
]

unfoldable pub has_directory : Text → List Entry → Bool
has_directory name [] = false
has_directory name (directory n ∷ rest) = text_eq name n || has_directory name rest
has_directory name (regular n ∷ rest) = has_directory name rest
has_directory name (other n ∷ rest) = has_directory name rest

scan_entries-dirs :
    (name : Text) (entries : List Entry) (c c' : Classpath)
    → scan_entries entries c ≡ some c'
    → count name c'.dirs ≡ (has_directory name entries || count name c.dirs)
unfolding scan_entries has_directory
scan_entries-dirs name [] c c' h = ap (λ x. count name x.dirs) (sym (some-injective c c' h))
scan_entries-dirs name (directory n ∷ rest) c c' h =
    let later = scan_entries-dirs name rest (record c { dirs = insert n c.dirs }) c' h in
    ground (arith, later, count-insert name n c.dirs)
scan_entries-dirs name (other n ∷ rest) c c' h = scan_entries-dirs name rest c c' h
scan_entries-dirs name (regular n ∷ rest) c c' h = elim (option_bool (is_war n)) [
  | inl e ↦ absurd (none-ne-some c' (sym (scan-short n rest c e) ∙ h))
  | inr (inl e) ↦ scan_entries-dirs name rest c c' (sym (scan-skip n rest c e) ∙ h)
  | inr (inr e) ↦
      scan_entries-dirs name rest (record c { wars = insert (stem n) c.wars }) c'
        (sym (scan-add n rest c e) ∙ h)
]

-- Of a directory whose regular files have names of at least four characters: the scan is undefined
-- exactly if it has a regular file of some name with .war behind it where the XML library finds no
-- servlet for that name; otherwise the folders that it makes are those of the names of such files
-- that the directory has no directory of.
pub scan_classpath-archives :
    (xml : Xml) (entries : List Entry)
    → LongNames entries
    → ((scan_classpath xml entries ≡ none)
        ↔ ((name : Text) × HasFile (name ++ codes ".war") entries × (read_web_xml xml name ≡ none)))
      × ((us : List Unpacking) (ss : List TowaServlet) (name : Text)
          → scan_classpath xml entries ≡ some (us, ss)
          → (count (folder_of name) (map (λ u. u.folder) us) ≡ true)
            ↔ (HasFile (name ++ codes ".war") entries × (has_directory name entries ≡ false)))
unfolding scan_classpath Unreadable count
scan_classpath-archives xml entries l =
    let empty : Classpath = record { wars = []; dirs = [] } in
    let (c, h) = scan_entries_total entries empty l in
    let scanned : scan_classpath xml entries ≡ read_wars xml c.dirs c.wars =
      rw (h, scan_classpath) refl in
    let files = λ (name : Text). wars-HasFile entries name c h in
    let dirs = λ (name : Text). scan_entries-dirs name entries empty c h in
    (
      (
        (λ e.
            let (name, k, r) = read_wars-none xml c.dirs c.wars (sym scanned ∙ e) in
            (name, (files name).0 k, r)),
        (λ (name, k, r). scanned ∙ none-read_wars xml c.dirs c.wars (name, (files name).1 k, r)),
      ),
      λ us ss name e.
          let made = folders-read_wars xml c.dirs c.wars us ss name (sym scanned ∙ e) in
          (
            (λ k. ((files name).0 (ground (arith, made, k)), ground (arith, made, k, dirs name))),
            (λ (k, d). made ∙ ground (arith, (files name).1 k, d, dirs name)),
          ),
    )
