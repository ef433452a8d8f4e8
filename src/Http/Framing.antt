-- ===== src/Http/Framing.antt =====
-- How a client reads a response: the announced length and the body behind the blank line.
use sa_wa.Base.{
  ℕ, ◌≡◌, refl, ap, ◌∙◌, Bool, true, false, Option, none, some, [], ◌∷◌, ◌++◌, length, ◌==◌, leb,
  arith, Text, codes, decimal, number, number-decimal, Digits, Digits-decimal,
}
use sa_wa.Http.Files.{WebFile}
use sa_wa.Http.Serve.{generate200_response, generate500_response}

-- What follows the first text in the second, where that starts with it.
unfoldable pub strip : Text → Text → Option Text
strip [] s = some s
strip (c ∷ cs) [] = none
strip (c ∷ cs) (d ∷ s) = elim (c == d) [ true ↦ strip cs s | false ↦ none ]

unfoldable pub behind : Text → Text → Option Text
unfolding strip
behind find [] = none
behind find (c ∷ s) = elim (strip find (c ∷ s)) [ some r ↦ some r | none ↦ behind find s ]

unfoldable pub leading : Text → Text
leading [] = []
leading (c ∷ s) = elim (leb b'0' c) [
  | true ↦ elim (leb c b'9') [ true ↦ c ∷ leading s | false ↦ [] ]
  | false ↦ []
]

unfoldable pub content_length : Text → Option ℕ
unfolding behind leading number
content_length s = elim (behind (codes "Content-Length: ") s) [
  | some r ↦ some (number 0 (leading r))
  | none ↦ none
]

-- What follows the first empty line.
unfoldable pub body_behind : Bool → Text → Option Text
body_behind newline [] = none
body_behind newline (c ∷ s) = elim (c == b'\n') [
  | true ↦ elim newline [ true ↦ some s | false ↦ body_behind true s ]
  | false ↦ body_behind false s
]

unfoldable pub body_of : Text → Option Text
unfolding body_behind
body_of s = body_behind false s

leading-Digits : (xs rest : Text) → Digits xs → leading (xs ++ b'\n' ∷ rest) ≡ xs
unfolding leading Digits
leading-Digits [] rest h = refl
leading-Digits (x ∷ xs) rest (a, b, h) = ground (arith, leading-Digits xs rest h)

body_behind-Digits :
    (xs rest : Text) → Digits xs → body_behind false (xs ++ rest) ≡ body_behind false rest
unfolding body_behind Digits
body_behind-Digits [] rest h = refl
body_behind-Digits (x ∷ xs) rest (a, b, h) = ground (arith, body_behind-Digits xs rest h)

read_length : (n : ℕ) (rest : Text) → some (number 0 (leading (decimal n ++ b'\n' ∷ rest))) ≡ some n
read_length n rest =
    ap (λ x. some (number 0 x)) (leading-Digits (decimal n) rest (Digits-decimal n))
    ∙ ap some (number-decimal n)

pub content_length-generate200 :
    (file : WebFile) → content_length (generate200_response file) ≡ some file.size
unfolding content_length behind strip generate200_response
content_length-generate200 file = read_length file.size _

pub body_of-generate200 : (file : WebFile) → body_of (generate200_response file) ≡ some file.content
unfolding body_of body_behind generate200_response
body_of-generate200 file = body_behind-Digits (decimal file.size) _ (Digits-decimal file.size)

abbrev pub error_page : Text → Text
error_page desc = codes "<h1>500 Internal Server Error</h1>\n" ++ desc

pub content_length-generate500 :
    (desc : Text) → content_length (generate500_response desc) ≡ some (length (error_page desc))
unfolding content_length behind strip generate500_response
content_length-generate500 desc = read_length (length (error_page desc)) _

pub body_of-generate500 :
    (desc : Text) → body_of (generate500_response desc) ≡ some (error_page desc)
unfolding body_of body_behind generate500_response
body_of-generate500 desc =
    body_behind-Digits (decimal (length (error_page desc))) _
      (Digits-decimal (length (error_page desc)))
