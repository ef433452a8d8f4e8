-- ===== src/Driver/Log.antt =====
-- sawa.c: what is written to the kernel's log, the dump of memory and the errors of a read. `none` is
-- an access outside the buffer of a row or outside the memory.
use sa_wa.Base.{
  ℕ, zero, suc, ◌+◌, ◌-◌, ◌/◌, ◌%◌, true, false, Option, none, some, List, [], ◌∷◌, ◌++◌, length,
  get_elem?, replicate, ltb, leb, ◌==◌, if◌then◌else◌, Text, codes, c_string, ◌>>=◌,
}
use sa_wa.Bytes.{stale_bytes}
use sa_wa.Storage.{write_at}

abbrev pub hex_digit : ℕ → ℕ
hex_digit d = if ltb d 10 then b'0' + d else 87 + d

-- The digits of %x of a number of 32 bits: at most `places`, which is 8 for these.
unfoldable pub hex_digits : ℕ → ℕ → Text
hex_digits zero n = []
hex_digits (suc places) n =
    let front = hex_digits places (n / 16) in
    if ltb n 16 then hex_digit n ∷ [] else front ++ hex_digit (n % 16) ∷ []

-- %02x and %04x, with the number of places.
unfoldable pub padded : ℕ → ℕ → Text
unfolding hex_digits
padded width n = let digits = hex_digits 8 n in replicate (width - length digits) b'0' ++ digits

-- A text and its 0 written into the buffer.
unfoldable pub sprintf : List ℕ → ℕ → Text → Option (List ℕ)
unfolding write_at
sprintf buffer at text =
    if leb (at + length text + 1) (length buffer)
    then some (write_at at (text ++ 0 ∷ []) buffer)
    else none

-- The end of a row, which is printed: '\n' and 0 are written behind the columns.
unfoldable pub print_row : List ℕ → ℕ → Option (Text × List ℕ)
unfolding sprintf c_string
print_row buffer col = do
  buffer' ← sprintf buffer col (codes "\n")
  text ← c_string buffer'
  some (text, buffer')

-- The loop over the columns, `left` of them, from byte j on: the row that is printed, and where and
-- with which buffer the next one begins unless the block has ended in this row.
unfoldable pub dump_columns : List ℕ → ℕ → ℕ → ℕ → ℕ → List ℕ → Option (Text × Option (ℕ × List ℕ))
unfolding print_row padded sprintf
dump_columns addr size zero j col buffer = do
  (row, buffer') ← print_row buffer col
  some (row, some (j, buffer'))
dump_columns addr size (suc left) j col buffer = elim (leb size j) [
  | true ↦ do (row, buffer') ← print_row buffer col; some (row, none)
  | false ↦ do
    byte ← get_elem? addr j
    buffer' ← sprintf buffer col (codes " " ++ padded 2 (byte % 256))
    dump_columns addr size left (j + 1) (col + 3) buffer'
]

-- The outer loop.
unfoldable pub dump_rows : ℕ → List ℕ → ℕ → ℕ → List ℕ → Option (List Text)
unfolding dump_columns sprintf padded
dump_rows zero addr size j buffer = none
dump_rows (suc fuel) addr size j buffer = elim (leb size j) [
  | true ↦ some []
  | false ↦ do
    buffer' ← sprintf buffer 0 (padded 4 j ++ codes "  ")
    (row, next) ← dump_columns addr size 16 j 6 buffer'
    elim next [
      | none ↦ some (row ∷ [])
      | some (j', buffer'') ↦ do rows ← dump_rows fuel addr size j' buffer''; some (row ∷ rows)
    ]
]

-- Each round takes a byte at least.
unfoldable pub driver_dump_mem : (ℕ → ℕ) → List ℕ → ℕ → Option (List Text)
unfolding dump_rows
driver_dump_mem stale addr size = dump_rows (suc size) addr size 0 (stale_bytes stale 0 64)

abbrev pub sawa_msg_err : ℕ
sawa_msg_err = 0x43

abbrev pub sawa_msg_noauth : ℕ
sawa_msg_noauth = 0x44

unfoldable pub sawa_handle_error : ℕ → Text
unfolding hex_digits
sawa_handle_error errno =
    if errno == sawa_msg_err
    then codes "SaWa: failure to read (Error)\n"
    else if errno == sawa_msg_noauth
    then codes "SaWa: failure to read (Unauthorized)\n"
    else codes "SaWa: failure to read (unknown response code " ++ hex_digits 8 errno ++ codes ")\n"
