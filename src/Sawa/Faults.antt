-- ===== src/Sawa/Faults.antt =====
-- Requests outside the protocol: the check of the range, messages that are too short, too long or
-- cut off.
use sa_wa.Base.{
  ℕ, suc, ◌+◌, ◌-◌, ◌*◌, ◌%◌, ◌^◌, ◌≤◌, ◌<◌, ◌≡◌, refl, ap, ◌∙◌, ◌↔◌, ◌⊎◌, inl, inr, Bool, true,
  false, none, some, List, [], ◌∷◌, ◌&&◌, ◌||◌, not, arith, length, drop, take, length-drop,
  length-take, take-all, le→leb, ltb, lt→ltb, ◌==◌, Bool-cases,
}
use sa_wa.Bytes.{
  bytes_of_u32, load_u32, u32_of_bytes_lem, load_u32_inside, load_u32_outside, stale_bytes,
  fill-nil,
}
use sa_wa.Storage.{FileOps, Recv, got, failed, write_at, length-write_at_beyond}
use sa_wa.Sawa.{
  Session, is_in_bounds, store_range, write_file, dispatch, process_request, announced, receive,
  read_data, msg_ok,
}
use sa_wa.Sawa.Protocol.{Request, encode, IsRequest, IsDisk, Healthy}
use sa_wa.Sawa.Refinement.{Moved, store_range-Moved, Answered, process_request-answer}
use sa_wa.Sawa.Serving.{length-encode, announced-header}

-- checkValidRequest adds in 32 bits: a range that passes 2^32 and wraps into the disk is accepted.
wrapped-is_in_bounds :
    (nb offset size : ℕ)
    → offset < 2 ^ 32
    → size < 2 ^ 32
    → nb * 512 < 2 ^ 32
    → 2 ^ 32 ≤ offset + size
    → offset + size ≤ 2 ^ 32 + nb * 512
    → is_in_bounds nb offset size ≡ true
unfolding is_in_bounds
wrapped-is_in_bounds nb offset size ho hs fits over wrap = ground arith

-- The request's code reads past the end of its message.
abbrev pub truncated : List ℕ → Bool
truncated [] = true
truncated (op ∷ rest) = not (op == 1) && (ltb (length rest) 4 || ((op == 2) && ltb (length rest) 8))

announced_big : (n : ℕ) → 32768 < n → n < 2 ^ 32 → announced (got (bytes_of_u32 n)) ≡ none
unfolding announced load_u32 bytes_of_u32
announced_big n big small = rw (u32_of_bytes_lem n small, lt→ltb 32768 n big)

abbrev pub IsRefused : Recv → Type 0
IsRefused failed = Unit {0}
IsRefused (got bytes) =
    (length bytes < 4) ⊎ ((n : ℕ) × (bytes ≡ bytes_of_u32 n) × (32768 < n) × (n < 2 ^ 32))

announced_refused : (header : Recv) → IsRefused header → announced header ≡ none
unfolding announced
announced_refused failed h = refl
announced_refused (got bytes) (inl short) =
    rw (load_u32_outside (take 4 bytes) 0 (omega (arith, length-take 4 bytes)), announced)
announced_refused (got bytes) (inr (n, e, big, small)) = rw e (announced_big n big small)

module _ (F : FileOps) where
  -- A write whose range passes 2^32 and wraps into the disk is accepted, and leaves a file that
  -- reaches to the end of the range: it no longer has the size of its sectors.
  pub write_file_wraps :
      Healthy F
      → (s : Session F) (offset : ℕ) (bytes : List ℕ) → IsDisk F s
      → s.nb_sectors * 512 ≤ offset
      → offset < 2 ^ 32
      → length bytes < 2 ^ 32
      → 2 ^ 32 ≤ offset + length bytes
      → offset + length bytes ≤ 2 ^ 32 + s.nb_sectors * 512
      → (s' : Session F) × (write_file F s bytes offset (length bytes) ≡ some s')
        × (length (F.contents s'.fp) ≡ offset + length bytes)
        × ¬ IsDisk F s'
  unfolding write_file
  write_file_wraps ok s offset bytes d behind ho hs over wrap =
      rw
        (
          accepted,
          le→leb (length bytes) (length bytes) (omega arith),
          take-all (length bytes) bytes (omega arith),
        )
        (
          store_range F s bytes offset,
          refl,
          grown,
          λ d'. absurd (omega (arith, grown, m.sectors_eq, d'.full)),
        )
    where
      m :
          Moved F s
            (store_range F s bytes offset)
            (write_at offset bytes (F.contents s.fp))
            (msg_ok ∷ [])
      m = store_range-Moved F ok s offset bytes

      accepted : is_in_bounds s.nb_sectors offset (length bytes) ≡ true
      accepted = wrapped-is_in_bounds s.nb_sectors offset (length bytes) ho hs d.fits over wrap

      grown : length (F.contents (store_range F s bytes offset).fp) ≡ offset + length bytes
      grown =
          ap length m.disk_eq
          ∙ length-write_at_beyond offset bytes (F.contents s.fp) (omega (arith, d.full))

  write_file_defined :
      (s : Session F) (addr : List ℕ) (offset size : ℕ)
      → size ≤ length addr
      → (s' : Session F) × (write_file F s addr offset size ≡ some s')
  unfolding write_file
  write_file_defined s addr offset size h =
      elim (Bool-cases (is_in_bounds s.nb_sectors offset size)) [
        | inl inside ↦ rw (inside, le→leb size (length addr) h) (_, refl)
        | inr outside ↦ rw outside (_, refl)
      ]

  dispatch_defined :
      (stale : ℕ → ℕ) (s : Session F) (op offset : ℕ) (rest : List ℕ)
      → 4 ≤ length rest
      → suc (length rest) ≤ 32768
      → ((op == 2) && ltb (length rest) 8) ≡ false
      → (s' : Session F) × (dispatch F stale s (op ∷ rest) (length (op ∷ rest)) op offset ≡ some s')
  unfolding dispatch
  dispatch_defined stale s op offset rest h k whole = elim (Bool-cases (op == 2)) [
    | inl is_read ↦
        let (n, e) = load_u32_inside (op ∷ rest) 5 (ground arith) in rw (is_read, e) (_, refl)
    | inr not_read ↦ elim (Bool-cases (op == 3)) [
      | inl is_write ↦
          let size : ℕ = (suc (length rest) + 2 ^ 32 - 5) % 2 ^ 32 in
          let (s', e) =
            write_file_defined s (drop 4 rest) offset size (omega (arith, length-drop 4 rest)) in
          rw (not_read, is_write, e) (_, refl)
      | inr other ↦ rw (not_read, other) (s, refl)
    ]
  ]

  process_request_defined :
      (stale : ℕ → ℕ) (s : Session F) (addr : List ℕ)
      → length addr ≤ 32768
      → truncated addr ≡ false
      → (s' : Session F) × (process_request F stale s addr (length addr) ≡ some s')
  unfolding process_request
  process_request_defined stale s [] h whole = absurd (cc)
  process_request_defined stale s (op ∷ rest) h whole = elim (Bool-cases (op == 1)) [
    | inl is_info ↦ rw is_info (_, refl)
    | inr not_info ↦
        let (offset, e) = load_u32_inside (op ∷ rest) 1 (ground arith) in
        let (s', e') = dispatch_defined stale s op offset rest (ground arith) h (ground arith) in
        rw (not_info, e) (s', e')
  ]

  process_request_undefined :
      (stale : ℕ → ℕ) (s : Session F) (addr : List ℕ)
      → truncated addr ≡ true
      → process_request F stale s addr (length addr) ≡ none
  unfolding process_request dispatch
  process_request_undefined stale s [] cut = refl
  process_request_undefined stale s (op ∷ rest) cut = elim (Bool-cases (ltb (length rest) 4)) [
    | inl short ↦
        let not_info : (op == 1) ≡ false = ground arith in
        rw (not_info, load_u32_outside (op ∷ rest) 1 (ground arith)) refl
    | inr room ↦
        let not_info : (op == 1) ≡ false = ground arith in
        let is_read : (op == 2) ≡ true = ground arith in
        let (offset, e) = load_u32_inside (op ∷ rest) 1 (ground arith) in
        rw (not_info, e, is_read, load_u32_outside (op ∷ rest) 5 (ground arith)) refl
  ]

  -- The handling of a message is undefined exactly when the message is empty, has no room for the
  -- offset though it is no INFO, or is a READ with no room for the size.
  pub process_request-truncated :
      (stale : ℕ → ℕ) (s : Session F) (addr : List ℕ)
      → length addr ≤ 32768
      → (process_request F stale s addr (length addr) ≡ none) ↔ (truncated addr ≡ true)
  process_request-truncated stale s addr h = (only, process_request_undefined stale s addr)
    where
      only : process_request F stale s addr (length addr) ≡ none → truncated addr ≡ true
      only e = elim (Bool-cases (truncated addr)) [
        | inl cut ↦ cut
        | inr whole ↦ let (s', e') = process_request_defined stale s addr h whole in absurd (cc)
      ]

  -- A connection that announces a request's message and closes without sending it has the request
  -- carried out that the buffer's stale memory spells.
  pub read_data_closed :
      Healthy F
      → (stale : ℕ → ℕ → ℕ) (s : Session F) (r : Request) → IsDisk F s
      → IsRequest r
      → stale_bytes (stale 0) 0 (length (encode r)) ≡ encode r
      → (s' : Session F) × (read_data F stale s (got (bytes_of_u32 (length (encode r))) ∷ [])
          ≡ some s')
        × Answered F s r s'
  unfolding read_data receive
  read_data_closed ok stale s r d v spelt =
      let (n, e, h) = length-encode r v in
      let (s', done, a) = process_request-answer F ok s d (stale 0) r v in
      let size = announced-header (length (encode r)) (omega arith) ∙ ap some e in
      (s', rw (size, read_data, fill-nil (stale 0) (suc n), ← e, spelt, done), a)

  -- A connection whose read of a message's size fails, delivers fewer than four bytes, or announces
  -- more than 32768 bytes is left at once, with no reply and nothing changed.
  pub read_data_refuses :
      (stale : ℕ → ℕ → ℕ) (s : Session F) (header : Recv) (rest : List Recv)
      → IsRefused header
      → read_data F stale s (header ∷ rest) ≡ some s
  unfolding read_data
  read_data_refuses stale s header [] h = rw (announced_refused header h, read_data)
  read_data_refuses stale s header (body ∷ rest) h = rw (announced_refused header h, read_data)
