-- ===== src/Util/Dump.antt =====
-- dumpMem of server/util.cpp: the rows that it prints of a block of memory.
use Prim.Native.Nat.{min}
use sa_wa.Base.{
  ℕ, zero, suc, ◌+◌, ◌-◌, ◌/◌, ◌≤◌, ◌<◌, ◌≡◌, refl, subst, sym, ap, ◌∙◌, Bool, true, false, List,
  [], ◌∷◌, ◌&&◌, leb, arith, inl, inr, Bool-cases, if◌then◌else◌, get_or, take, drop, length,
}

-- The table: a dot for what is not printable.
unfoldable pub ascii : ℕ → ℕ
ascii c = if leb b' ' c && leb c b'~' then c else b'.'

-- A row: its offset, the bytes that are shown as numbers, and those shown as characters.
pub record DumpRow : Type 0 where
  pub offset : ℕ
  pub hex : List ℕ
  pub characters : List ℕ

-- The loop over the columns from column i, at byte j.
unfoldable pub columns_hex : List ℕ → ℕ → ℕ → ℕ → ℕ → List ℕ
columns_hex addr size i j zero = []
columns_hex addr size i j (suc left) =
    let rest = columns_hex addr size (i + 1) (j + 1) left in
    if leb size j then [] else get_or addr i 0 ∷ rest

unfoldable pub columns_ascii : List ℕ → ℕ → ℕ → ℕ → List ℕ
unfolding ascii
columns_ascii addr size j zero = []
columns_ascii addr size j (suc left) =
    let rest = columns_ascii addr size (j + 1) left in
    if leb size j then b' ' ∷ rest else ascii (get_or addr j 0) ∷ rest

unfoldable pub dump_row : List ℕ → ℕ → ℕ → DumpRow
unfolding columns_hex columns_ascii
dump_row addr size j = record {
  offset = j;
  hex = columns_hex addr size 0 j 16;
  characters = columns_ascii addr size j 16;
}

-- The outer loop. Each row takes a byte at least, so there are at most as many as bytes.
unfoldable pub rows_from : ℕ → List ℕ → ℕ → ℕ → List DumpRow
rows_from zero addr size j = []
rows_from (suc fuel) addr size j =
    let rest = rows_from fuel addr size (j + 16) in
    if leb size j then [] else dump_row addr size j ∷ rest

-- The call, with the flag of the debugging mode.
unfoldable pub dump_mem : Bool → List ℕ → ℕ → List DumpRow
unfolding rows_from
dump_mem false addr size = []
dump_mem true addr size = rows_from size addr size 0

-- Every row shows the numbers of the first bytes again, as many as are left in the block.
unfoldable pub ShowsStart : List ℕ → ℕ → List DumpRow → Type 0
ShowsStart addr size [] = Unit
ShowsStart addr size (r ∷ rs) =
    (r.hex ≡ take (min 16 (size - r.offset)) addr) × ShowsStart addr size rs

drop-get_or :
    (addr : List ℕ) (i : ℕ) → i < length addr → drop i addr ≡ get_or addr i 0 ∷ drop (i + 1) addr
drop-get_or [] i h = absurd (omega arith)
drop-get_or (x ∷ addr) zero h = refl
drop-get_or (x ∷ addr) (suc i) h =
    drop-get_or addr i (omega arith)
    ∙ ap (λ k. get_or addr i 0 ∷ drop k (x ∷ addr)) {x = suc (i + 1)} {y = suc i + 1} (omega arith)

columns_hex-take :
    (addr : List ℕ) (size i j left : ℕ)
    → size ≤ length addr
    → i ≤ j
    → columns_hex addr size i j left ≡ take (min left (size - j)) (drop i addr)
unfolding columns_hex
columns_hex-take addr size i j zero l h =
    ap (λ k. take k (drop i addr)) {x = 0} {y = min 0 (size - j)} (omega arith)
columns_hex-take addr size i j (suc left) l h = elim (Bool-cases (leb size j)) [
  | inl e ↦
      let none_left : 0 ≡ min (suc left) (size - j) =
        (let b : size ≤ j = ground arith in omega arith) in
      ap (λ b. if b then [] else get_or addr i 0 ∷ columns_hex addr size (i + 1) (j + 1) left) e
      ∙ ap (λ k. take k (drop i addr)) none_left
  | inr e ↦
      let inside : j < size = ground arith in
      let more : suc (min left (size - (j + 1))) ≡ min (suc left) (size - j) = omega arith in
      ap (λ b. if b then [] else get_or addr i 0 ∷ columns_hex addr size (i + 1) (j + 1) left) e
      ∙ ap (◌∷◌ (get_or addr i 0)) (columns_hex-take addr size (i + 1) (j + 1) left l (omega arith))
      ∙ ap (take (suc (min left (size - (j + 1))))) (sym (drop-get_or addr i (omega arith)))
      ∙ ap (λ k. take k (drop i addr)) more
]

dump_row-take :
    (addr : List ℕ) (size j : ℕ)
    → size ≤ length addr
    → ((dump_row addr size j).hex ≡ take (min 16 (size - (dump_row addr size j).offset)) addr)
unfolding dump_row
dump_row-take addr size j l = columns_hex-take addr size 0 j 16 l (omega arith)

module _ (fuel : ℕ) (addr : List ℕ) (size j : ℕ) where
  rows_from-end : leb size j ≡ true → rows_from (suc fuel) addr size j ≡ []
  unfolding rows_from
  rows_from-end e =
      ap (λ b. if b then [] else dump_row addr size j ∷ rows_from fuel addr size (j + 16)) e

  rows_from-row :
      leb size j ≡ false
      → rows_from (suc fuel) addr size j ≡ dump_row addr size j ∷ rows_from fuel addr size (j + 16)
  unfolding rows_from
  rows_from-row e =
      ap (λ b. if b then [] else dump_row addr size j ∷ rows_from fuel addr size (j + 16)) e

rows_from-ShowsStart :
    (fuel : ℕ) (addr : List ℕ) (size j : ℕ)
    → size ≤ length addr
    → ShowsStart addr size (rows_from fuel addr size j)
unfolding ShowsStart rows_from
rows_from-ShowsStart zero addr size j l = tt
rows_from-ShowsStart (suc fuel) addr size j l = elim (Bool-cases (leb size j)) [
  | inl e ↦ subst (ShowsStart addr size) (sym (rows_from-end fuel addr size j e)) tt
  | inr e ↦
      subst (ShowsStart addr size) (sym (rows_from-row fuel addr size j e))
        (dump_row-take addr size j l, rows_from-ShowsStart fuel addr size (j + 16) l)
]

-- The number of rows that a block wants.
rows_from-length :
    (fuel : ℕ) (addr : List ℕ) (size j : ℕ)
    → size - j ≤ fuel
    → length (rows_from fuel addr size j) ≡ (size - j + 15) / 16
unfolding rows_from
rows_from-length zero addr size j h = omega arith
rows_from-length (suc fuel) addr size j h = elim (Bool-cases (leb size j)) [
  | inl e ↦
      ap length (rows_from-end fuel addr size j e)
      ∙ (let b : size ≤ j = ground arith in omega arith)
  | inr e ↦
      ap length (rows_from-row fuel addr size j e)
      ∙ (let b : j < size = ground arith in omega (arith, rows_from-length fuel addr size (j + 16)))
]

-- In the debugging mode the dump of a block prints one row for each sixteen bytes of it, the last of
-- them for the rest. Every row shows the numbers of the first bytes of the block instead of its own.
pub dump_mem-ShowsStart :
    (addr : List ℕ) (size : ℕ)
    → size ≤ length addr
    → (length (dump_mem true addr size) ≡ (size + 15) / 16)
      × ShowsStart addr size (dump_mem true addr size)
unfolding dump_mem
dump_mem-ShowsStart addr size l = (
  rows_from-length size addr size 0 (omega arith) ∙ omega arith,
  rows_from-ShowsStart size addr size 0 l,
)
