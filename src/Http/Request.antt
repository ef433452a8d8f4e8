-- ===== src/Http/Request.antt =====
-- HTTPRequest of server/http_srv.cpp: what is read from the bytes of a request. The regular
-- expression is a parameter: its first match in a text, as the four submatches and what follows
-- the match.
use sa_wa.Base.{
  ℕ, zero, suc, ◌+◌, Bool, true, false, Option, none, some, List, [], ◌∷◌, length, get_or, ◌==◌,
  if◌then◌else◌, Text, codes, c_string, ◌>>=◌,
}
use sa_wa.Util.{strn_case_str}

pub record Match : Type 0 where
  pub groups : List Text
  pub suffix : Text

pub record HttpRequest : Type 0 where
  pub path : Text
  pub query_string : Text
  pub keep_alive : Bool

abbrev pub request_message_len : ℕ
request_message_len = 1016

unfoldable pub getline : Text → Text
getline [] = []
getline (c ∷ s) = elim (c == b'\n') [ true ↦ [] | false ↦ c ∷ getline s ]

-- The switch on the number of a submatch, counted over all matches. Case 1 goes on into case 3.
unfoldable pub take_group : ℕ → Text → Text × Text → Text × Text
take_group idx x (path, query) =
    if idx == 1 then (x, x) else if idx == 3 then (path, x) else (path, query)

unfoldable pub take_groups : ℕ → List Text → Text × Text → Text × Text
unfolding take_group
take_groups idx [] r = r
take_groups idx (x ∷ xs) r = take_groups (idx + 1) xs (take_group idx x r)

-- The loop over the matches. Each starts behind the one before it, so there are at most as many as
-- characters.
unfoldable pub match_loop :
    (Text → Option Match) → ℕ → ℕ → Text → Text × Text → Option (Text × Text)
unfolding take_groups
match_loop regex_search zero idx s r = none
match_loop regex_search (suc fuel) idx s r = elim (regex_search s) [
  | none ↦ some r
  | some m ↦
      match_loop regex_search fuel (idx + length m.groups) m.suffix (take_groups idx m.groups r)
]

-- The constructor, on the block of the request's first message and the memory behind it.
unfoldable pub http_request : (Text → Option Match) → (ℕ → ℕ) → List ℕ → Option HttpRequest
unfolding c_string getline match_loop
http_request regex_search beyond block = do
  s ← c_string block
  r ← match_loop regex_search (suc (length (getline s))) 0 (getline s) ([], [])
  some (record {
    path = r.0;
    query_string = r.1;
    keep_alive =
        strn_case_str (λ i. get_or block i (beyond i)) (codes "Connection: Keep-Alive")
          request_message_len;
  })

unfoldable pub is_valid : HttpRequest → Bool
is_valid request = elim request.path [ [] ↦ false | (c ∷ cs) ↦ true ]
