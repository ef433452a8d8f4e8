-- ===== src/Driver/Columns.antt =====
-- A row of the dump of sawa.c, written into its buffer.
use Prim.Native.Nat.{min}
use sa_wa.Base.{
  ℕ, zero, suc, ◌+◌, ◌-◌, ◌*◌, ◌%◌, ◌≤◌, ◌<◌, ◌≡◌, refl, sym, ap, ◌∙◌, Option, none, some, List, [],
  ◌∷◌, ◌++◌, length, get_elem?, get_or, drop, Text, codes, c_string, arith, le_or_lt, inl, inr,
  length-append, length-drop, append_assoc, le→leb, lt→leb,
}
use sa_wa.Storage.{write_at}
use sa_wa.Driver.Digits.{NonZero, NonZero-append, padded-NonZero, length-padded_byte}
use sa_wa.Driver.Log.{padded, sprintf, print_row, dump_columns}

-- The text that a buffer starts with, and the text that is written behind it.
write_at-behind :
    (front xs rest : List ℕ)
    → write_at (length front) xs (front ++ rest) ≡ front ++ (xs ++ drop (length xs) rest)
unfolding write_at
write_at-behind [] xs rest = refl
write_at-behind (c ∷ front) xs rest = ap (◌∷◌ c) (write_at-behind front xs rest)

pub sprintf-behind :
    (front text rest : List ℕ)
    → length text + 1 ≤ length rest
    → sprintf (front ++ rest) (length front) text
      ≡ some ((front ++ text) ++ (0 ∷ drop (length text + 1) rest))
unfolding sprintf
sprintf-behind front text rest h =
    let fits =
      le→leb (length front + length text + 1) (length (front ++ rest))
        (omega (arith, length-append front rest)) in
    let written : write_at (length front) (text ++ 0 ∷ []) (front ++ rest)
        ≡ (front ++ text) ++ (0 ∷ drop (length text + 1) rest) =
      write_at-behind front (text ++ 0 ∷ []) rest
      ∙ ap (λ k. front ++ ((text ++ 0 ∷ []) ++ drop k rest)) (length-append text (0 ∷ []))
      ∙ ap (◌++◌ front) (append_assoc text (0 ∷ []) (drop (length text + 1) rest))
      ∙ sym (append_assoc front text (0 ∷ drop (length text + 1) rest)) in
    rw (fits, sprintf) (ap some written)

c_string-front : (s rest : Text) → NonZero s → c_string (s ++ 0 ∷ rest) ≡ some s
unfolding c_string NonZero
c_string-front [] rest h = refl
c_string-front (zero ∷ s) rest (p, h) = absurd (omega arith)
c_string-front (suc c ∷ s) rest (p, h) = rw (c_string-front s rest h, c_string) refl

print_row-front :
    (front rest : List ℕ)
    → 2 ≤ length rest
    → NonZero front
    → (buffer : List ℕ) × (print_row (front ++ rest) (length front)
        ≡ some (front ++ codes "\n", buffer))
      × (length buffer ≡ length front + length rest)
unfolding print_row NonZero
print_row-front front rest h z =
    let buffer : List ℕ = (front ++ codes "\n") ++ (0 ∷ drop 2 rest) in
    (
      buffer,
      rw
          (
            sprintf-behind front (codes "\n") rest (omega arith),
            c_string-front (front ++ codes "\n") (drop 2 rest)
                (NonZero-append front (codes "\n") z (omega arith, tt)),
            print_row,
          )
          refl,
      omega (
        arith,
        length-append (front ++ codes "\n") (0 ∷ drop 2 rest),
        length-append front (codes "\n"),
        length-drop 2 rest,
      ),
    )

get_elem-get_or : (xs : List ℕ) (i : ℕ) → i < length xs → get_elem? xs i ≡ some (get_or xs i 0)
get_elem-get_or [] i h = absurd (omega arith)
get_elem-get_or (x ∷ xs) zero h = refl
get_elem-get_or (x ∷ xs) (suc i) h = get_elem-get_or xs i (omega arith)

-- A byte as a column.
abbrev pub cell : ℕ → Text
cell byte = codes " " ++ padded 2 (byte % 256)

-- The columns of n bytes from byte j on.
unfoldable pub cells : List ℕ → ℕ → ℕ → Text
unfolding padded
cells addr zero j = []
cells addr (suc n) j = cell (get_or addr j 0) ++ cells addr n (j + 1)

-- Where the next row begins, if the block has more.
unfoldable pub Next : ℕ → ℕ → ℕ → Option (ℕ × List ℕ) → Type 0
Next size left j none = size < j + left
Next size left j (some (k, buffer)) = (k ≡ j + left) × (k ≤ size) × (length buffer ≡ 64)

Next-suc :
    (size left j : ℕ) (next : Option (ℕ × List ℕ))
    → Next size left (j + 1) next
    → Next size (suc left) j next
unfolding Next
Next-suc size left j none h = omega arith
Next-suc size left j (some (k, buffer)) (e, l, n) = (omega arith, l, n)

cell-NonZero : (byte : ℕ) → NonZero (cell byte)
unfolding NonZero
cell-NonZero byte = (omega arith, padded-NonZero 2 (byte % 256))

module _ (addr : List ℕ) (size : ℕ) where
  dump_columns-end :
      (left j : ℕ) (front rest : List ℕ)
      → size ≤ j
      → 2 ≤ length rest
      → NonZero front
      → dump_columns addr size (suc left) j (length front) (front ++ rest)
        ≡ some (front ++ codes "\n", none)
  unfolding dump_columns
  dump_columns-end left j front rest e h z =
      rw (le→leb size j e, (print_row-front front rest h z).1, dump_columns) refl

  dump_columns-byte :
      (left j : ℕ) (front rest : List ℕ)
      → j < size
      → size ≤ length addr
      → 4 ≤ length rest
      → dump_columns addr size (suc left) j (length front) (front ++ rest)
        ≡ dump_columns addr size left
            (j + 1)
            (length (front ++ cell (get_or addr j 0)))
            ((front ++ cell (get_or addr j 0)) ++ 0 ∷ drop 4 rest)
  unfolding dump_columns
  dump_columns-byte left j front rest e l h =
      let byte : ℕ = get_or addr j 0 in
      let three : length (cell byte) ≡ 3 = omega (arith, length-padded_byte byte) in
      let written : sprintf (front ++ rest) (length front) (cell byte)
          ≡ some ((front ++ cell byte) ++ 0 ∷ drop 4 rest) =
        sprintf-behind front (cell byte) rest (omega arith)
        ∙ ap (λ k. some ((front ++ cell byte) ++ 0 ∷ drop k rest)) {x = length (cell byte) + 1}
            {y = 4} (omega arith) in
      rw (lt→leb size j e, get_elem-get_or addr j (omega arith), written, dump_columns)
        (ap (λ k. dump_columns addr size left (j + 1) k ((front ++ cell byte) ++ 0 ∷ drop 4 rest))
          {x = length front + 3} {y = length (front ++ cell byte)}
          (omega (arith, length-append front (cell byte))))

  pub dump_columns-cells :
      (left j : ℕ) (front rest : List ℕ)
      → j ≤ size
      → size ≤ length addr
      → length front + length rest ≡ 64
      → length front + 3 * left + 2 ≤ 64
      → NonZero front
      → (next : Option (ℕ × List ℕ)) × (dump_columns addr size left j (length front) (front ++ rest)
          ≡ some (front ++ (cells addr (min left (size - j)) j ++ codes "\n"), next))
        × Next size left j next
  unfolding cells Next dump_columns print_row-front
  dump_columns-cells zero j front rest e l whole fits z =
      let (buffer, printed, n) = print_row-front front rest (omega arith) z in
      (
        some (j, buffer),
        rw (printed, dump_columns)
            (ap (λ k. some (front ++ (cells addr k j ++ codes "\n"), some (j, buffer))) {x = 0}
              {y = min 0 (size - j)} (omega arith)),
        (omega arith, e, omega arith),
      )
  dump_columns-cells (suc left) j front rest e l whole fits z = elim (le_or_lt size j) [
    | inl b ↦ (
      none,
      dump_columns-end left j front rest b (omega arith) z
          ∙ ap (λ k. some (front ++ (cells addr k j ++ codes "\n"), none)) {x = 0}
              {y = min (suc left) (size - j)} (omega arith),
      omega arith,
    )
    | inr b ↦
        let byte : Text = cell (get_or addr j 0) in
        let three : length byte ≡ 3 = omega (arith, length-padded_byte (get_or addr j 0)) in
        let n : ℕ = min left (size - (j + 1)) in
        let (next, shown, behind) =
          dump_columns-cells left (j + 1) (front ++ byte) (0 ∷ drop 4 rest) (omega arith) l
            (omega (arith, length-append front byte, length-drop 4 rest))
            (omega (arith, length-append front byte))
            (NonZero-append front byte z (cell-NonZero (get_or addr j 0))) in
        (
          next,
          dump_columns-byte left j front rest b l (omega arith)
              ∙ shown
              ∙ ap (λ x. some (x, next))
                  (append_assoc front byte (cells addr n (j + 1) ++ codes "\n")
                    ∙ ap (◌++◌ front) (sym (append_assoc byte (cells addr n (j + 1)) (codes "\n"))))
              ∙ ap (λ k. some (front ++ (cells addr k j ++ codes "\n"), next)) {x = suc n}
                  {y = min (suc left) (size - j)} (omega arith),
          Next-suc size left j next behind,
        )
  ]
