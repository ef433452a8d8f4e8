-- ===== src/Driver/Sending.antt =====
-- The loop of tcp_client_send: a message goes out whole and in order.
use sa_wa.Base.{
  ℕ, zero, suc, ◌+◌, ◌-◌, ◌*◌, ◌/◌, ◌%◌, ◌≤◌, ◌<◌, ◌≡◌, sym, ap, ◌∙◌, subst, false, List, [], ◌∷◌,
  ◌++◌, ℤ, pos, negsuc, take, drop, length, ◌==◌, arith, ◌⊎◌, inl, inr, Bool-cases, length-append,
  length-drop, length-take, take-append-drop, append_assoc, ==_iff,
}
use sa_wa.Bytes.{bytes_of_u32, u32_of_bytes}
use sa_wa.Driver.Tcp.{
  returned, send_loop, tcp_client_send, written_or, create_address, inet_addr, htonl, add_bytes,
}

-- Answers of kernel_sendmsg on a connection that works: it takes from one byte up to all that are
-- left, or asks to be called again.
unfoldable pub Working : ℕ → List ℤ → Type 0
Working left [] = Unit
Working left (pos n ∷ answers) = (1 ≤ n) × (n ≤ left) × ((n ≡ left) ⊎ Working (left - n) answers)
Working left (negsuc n ∷ answers) = ((n ≡ 10) ⊎ (n ≡ 511)) × Working left answers

-- How many of the answers take bytes.
unfoldable pub accepting : List ℤ → ℕ
accepting [] = 0
accepting (pos n ∷ answers) = suc (accepting answers)
accepting (negsuc n ∷ answers) = accepting answers

send_loop-again :
    (left written : List ℕ) (n : ℕ) (answers : List ℤ)
    → (n ≡ 10) ⊎ (n ≡ 511)
    → send_loop false left written (negsuc n ∷ answers) ≡ send_loop false left written answers
unfolding send_loop
send_loop-again left written n answers h = ground arith

send_loop-last :
    (left written : List ℕ) (n : ℕ) (answers : List ℤ)
    → suc n ≡ length left
    → send_loop false left written (pos (suc n) ∷ answers)
      ≡ (written ++ left, returned (pos (length written + length left)))
unfolding send_loop written_or
send_loop-last left written n answers h =
    let total : length (written ++ left) ≡ suc (length written + n) =
      omega (arith, length-append written left) in
    ground (arith, total)

send_loop-part :
    (left written : List ℕ) (n : ℕ) (answers : List ℤ)
    → suc n < length left
    → send_loop false left written (pos (suc n) ∷ answers)
      ≡ send_loop false (drop (suc n) left) (written ++ take (suc n) left) answers
unfolding send_loop
send_loop-part left written n answers h = ground arith

send_loop-whole :
    (left written : List ℕ) (answers : List ℤ)
    → 0 < length left
    → Working (length left) answers
    → length left ≤ accepting answers
    → send_loop false left written answers
      ≡ (written ++ left, returned (pos (length written + length left)))
unfolding Working accepting
send_loop-whole left written [] some_left w enough = absurd (omega arith)
send_loop-whole left written (negsuc n ∷ answers) some_left (again, w) enough =
    send_loop-again left written n answers again
    ∙ send_loop-whole left written answers some_left w enough
send_loop-whole left written (pos zero ∷ answers) some_left (a, b, w) enough = absurd (omega arith)
send_loop-whole left written (pos (suc n) ∷ answers) some_left (a, b, inl all) enough =
    send_loop-last left written n answers all
send_loop-whole left written (pos (suc n) ∷ answers) some_left (a, b, inr w) enough =
    elim (Bool-cases (suc n == length left)) [
      | inl e ↦ send_loop-last left written n answers ((==_iff (suc n) (length left)).0 e)
      | inr e ↦
          let more : suc n < length left = ground arith in
          let front : List ℕ = take (suc n) left in
          let back : List ℕ = drop (suc n) left in
          let less : length back ≡ length left - suc n = length-drop (suc n) left in
          let all : (written ++ front) ++ back ≡ written ++ left =
            append_assoc written front back ∙ ap (◌++◌ written) (take-append-drop (suc n) left) in
          let number : length (written ++ front) + length back ≡ length written + length left =
            omega (arith, length-append written front, length-take (suc n) left) in
          send_loop-part left written n answers more
          ∙ send_loop-whole back (written ++ front) answers (omega arith)
              (subst (λ k. Working k answers) (sym less) w) (omega arith)
          ∙ ap (λ x. (x, returned (pos (length (written ++ front) + length back)))) all
          ∙ ap (λ k. (written ++ left, returned (pos k))) number
    ]

-- On a connection that works, and that takes bytes in at least as many calls as the message has,
-- sending a message that is not empty ends: the whole message is on the wire, in order, and the
-- call returns its length.
pub tcp_client_send-whole :
    (buf : List ℕ) (answers : List ℤ)
    → 0 < length buf
    → Working (length buf) answers
    → length buf ≤ accepting answers
    → tcp_client_send false buf answers ≡ (buf, returned (pos (length buf)))
unfolding tcp_client_send
tcp_client_send-whole buf answers some w enough =
    send_loop-whole buf [] answers some w enough ∙ ap (λ k. (buf, returned (pos k))) (omega arith)

module _ (a b c d : ℕ) (ha : a < 256) (hb : b < 256) (hc : c < 256) (hd : d < 256) where
  create_address_lem : create_address a b c d ≡ d + 256 * c + 65536 * b + 16777216 * a
  unfolding create_address add_bytes
  create_address_lem = omega arith

  htonl_lem :
      htonl (d + 256 * c + 65536 * b + 16777216 * a) ≡ a + 256 * b + 65536 * c + 16777216 * d
  unfolding htonl u32_of_bytes
  htonl_lem = omega arith

  inet_addr_lem : inet_addr a b c d ≡ a + 256 * b + 65536 * c + 16777216 * d
  unfolding inet_addr u32_of_bytes
  inet_addr_lem = omega arith

  bytes_of_address : bytes_of_u32 (a + 256 * b + 65536 * c + 16777216 * d) ≡ a ∷ b ∷ c ∷ d ∷ []
  unfolding bytes_of_u32
  bytes_of_address =
      let n : ℕ = a + 256 * b + 65536 * c + 16777216 * d in
      let e₀ : n % 256 ≡ a = omega arith in
      let e₁ : n / 256 % 256 ≡ b = omega arith in
      let e₂ : n / 65536 % 256 ≡ c = omega arith in
      let e₃ : n / 16777216 % 256 ≡ d = omega arith in λ i. e₀ i ∷ e₁ i ∷ e₂ i ∷ e₃ i ∷ []

-- The address that the driver connects to has the four given bytes in memory, in order, and is the
-- one that inet_addr makes of them.
pub create_address-inet_addr :
    (a b c d : ℕ)
    → a < 256
    → b < 256
    → c < 256
    → d < 256
    → (bytes_of_u32 (htonl (create_address a b c d)) ≡ a ∷ b ∷ c ∷ d ∷ [])
      × (htonl (create_address a b c d) ≡ inet_addr a b c d)
create_address-inet_addr a b c d ha hb hc hd =
    let e = ap htonl (create_address_lem a b c d ha hb hc hd) ∙ htonl_lem a b c d ha hb hc hd in
    (
      ap bytes_of_u32 e ∙ bytes_of_address a b c d ha hb hc hd,
      e ∙ sym (inet_addr_lem a b c d ha hb hc hd),
    )
