-- ===== src/Driver/Rows.antt =====
-- The dump of sawa.c: every row shows its own bytes, and no row leaves its buffer.
use Prim.Native.Nat.{min}
use sa_wa.Base.{
  ℕ, zero, suc, ◌+◌, ◌-◌, ◌≤◌, ◌<◌, ◌≡◌, refl, sym, ap, ◌∙◌, Option, none, some, List, [], ◌∷◌,
  ◌++◌, length, take, drop, leb, if◌then◌else◌, Text, codes, arith, le_or_lt, inl, inr,
  length-append, length-take, length-drop, take-append-drop, append_assoc, le→leb, lt→leb,
}
use sa_wa.Bytes.{stale_bytes, length-stale_bytes}
use sa_wa.Driver.Digits.{NonZero, NonZero-append, NonZero-take, padded-NonZero, length-padded}
use sa_wa.Driver.Log.{padded, sprintf, dump_columns, dump_rows, driver_dump_mem}
use sa_wa.Driver.Columns.{cells, Next, dump_columns-cells, sprintf-behind}

spaces : NonZero (codes "  ")
unfolding NonZero
spaces = (omega arith, (omega arith, tt))

-- A row of the dump, and the rows of a block from byte j on.
unfoldable pub row_of : List ℕ → ℕ → ℕ → Text
unfolding cells padded
row_of addr size j =
    take 6 (padded 4 j ++ codes "  ") ++ (cells addr (min 16 (size - j)) j ++ codes "\n")

unfoldable pub rows_of : ℕ → List ℕ → ℕ → ℕ → List Text
unfolding row_of
rows_of zero addr size j = []
rows_of (suc fuel) addr size j =
    let rest = rows_of fuel addr size (j + 16) in
    if leb size j then [] else row_of addr size j ∷ rest

-- The start of a row in a buffer of 64 bytes.
row_starts :
    (j : ℕ) (buffer : List ℕ)
    → length buffer ≡ 64
    → (rest : List ℕ) × (sprintf buffer 0 (padded 4 j ++ codes "  ")
        ≡ some (take 6 (padded 4 j ++ codes "  ") ++ rest))
      × (length rest ≡ 58)
row_starts j buffer n =
    let start : Text = padded 4 j ++ codes "  " in
    let (four, eight) = length-padded j in
    let long = length-append (padded 4 j) (codes "  ") in
    let rest : List ℕ = drop 6 start ++ (0 ∷ drop (length start + 1) buffer) in
    (
      rest,
      sprintf-behind [] start buffer (omega arith)
          ∙ ap (λ x. some (x ++ (0 ∷ drop (length start + 1) buffer)))
              (sym (take-append-drop 6 start))
          ∙ ap some
              (append_assoc (take 6 start) (drop 6 start) (0 ∷ drop (length start + 1) buffer)),
      omega (
        arith,
        length-append (drop 6 start) (0 ∷ drop (length start + 1) buffer),
        length-drop 6 start,
        length-drop (length start + 1) buffer,
      ),
    )

module _ (addr : List ℕ) (size : ℕ) (l : size ≤ length addr) where
  rows_of-end : (fuel j : ℕ) → size ≤ j → rows_of fuel addr size j ≡ []
  unfolding rows_of
  rows_of-end zero j e = refl
  rows_of-end (suc fuel) j e = ground (arith, le→leb size j e)

  -- A row is printed, and the next one begins behind it.
  dump_columns-row :
      (j : ℕ) (buffer : List ℕ)
      → j < size
      → length buffer ≡ 64
      → (started : List ℕ) × (next : Option (ℕ × List ℕ)) × (sprintf buffer 0
            (padded 4 j ++ codes "  ")
          ≡ some started)
        × (dump_columns addr size 16 j 6 started ≡ some (row_of addr size j, next))
        × Next size 16 j next
  unfolding row_of
  dump_columns-row j buffer e n =
      let start : Text = padded 4 j ++ codes "  " in
      let (rest, begun, left) = row_starts j buffer n in
      let six : length (take 6 start) ≡ 6 = omega (
        arith,
        length-take 6 start,
        length-append (padded 4 j) (codes "  "),
        (length-padded j).0,
      ) in
      let (next, shown, behind) =
        dump_columns-cells addr size 16 j (take 6 start) rest (omega arith) l (omega arith)
          (omega arith)
          (NonZero-take 6 start
            (NonZero-append (padded 4 j) (codes "  ") (padded-NonZero 4 j) spaces)) in
      (
        take 6 start ++ rest,
        next,
        begun,
        ap (λ k. dump_columns addr size 16 j k (take 6 start ++ rest)) (sym six) ∙ shown,
        behind,
      )

  dump_rows-Next :
      (fuel j : ℕ) (buffer started : List ℕ) (row : Text) (next : Option (ℕ × List ℕ))
      → j < size
      → sprintf buffer 0 (padded 4 j ++ codes "  ") ≡ some started
      → dump_columns addr size 16 j 6 started ≡ some (row, next)
      → Next size 16 j next
      → ((b : List ℕ)
          → length b ≡ 64
          → dump_rows fuel addr size (j + 16) b ≡ some (rows_of fuel addr size (j + 16)))
      → dump_rows (suc fuel) addr size j buffer ≡ some (row ∷ rows_of fuel addr size (j + 16))
  unfolding dump_rows Next
  dump_rows-Next fuel j buffer started row none e s c n ih =
      rw (lt→leb size j e, s, c, rows_of-end fuel (j + 16) (omega arith), dump_rows) refl
  dump_rows-Next fuel j buffer started row (some (k, b)) e s c (same, m, n) ih =
      let later : dump_rows fuel addr size k b ≡ some (rows_of fuel addr size (j + 16)) =
        ap (λ i. dump_rows fuel addr size i b) same ∙ ih b n in
      rw (lt→leb size j e, s, c, later, dump_rows) refl

  dump_rows-rows_of :
      (fuel j : ℕ) (buffer : List ℕ)
      → size - j < fuel
      → length buffer ≡ 64
      → dump_rows fuel addr size j buffer ≡ some (rows_of fuel addr size j)
  unfolding dump_rows rows_of
  dump_rows-rows_of zero j buffer f n = absurd (omega arith)
  dump_rows-rows_of (suc fuel) j buffer f n = elim (le_or_lt size j) [
    | inl e ↦ ground (arith, le→leb size j e)
    | inr e ↦
        let (started, next, begun, shown, behind) = dump_columns-row j buffer e n in
        dump_rows-Next fuel j buffer started (row_of addr size j) next e begun shown behind
          (λ b m. dump_rows-rows_of fuel (j + 16) b (omega arith) m)
        ∙ rw (lt→leb size j e, rows_of) refl
  ]

-- Of a block of memory with so many bytes at least, the dump of the driver ends, stays in its buffer
-- of 64 bytes, and prints a row for each sixteen bytes, the last for the rest: each row shows its
-- offset in hexadecimal, in four digits at least and with two spaces behind it, cut to six characters,
-- and then its own bytes in two digits each.
pub driver_dump_mem-rows_of :
    (stale : ℕ → ℕ) (addr : List ℕ) (size : ℕ)
    → size ≤ length addr
    → driver_dump_mem stale addr size ≡ some (rows_of (suc size) addr size 0)
unfolding driver_dump_mem
driver_dump_mem-rows_of stale addr size l =
    dump_rows-rows_of addr size l (suc size) 0 (stale_bytes stale 0 64) (omega arith)
      (length-stale_bytes stale 0 64)
