-- ===== src/Http/Reading.antt =====
-- The loop that reads a connection: it ends on all input, and writes whole responses only.
use sa_wa.Base.{
  ℕ, zero, suc, ◌≡◌, refl, ap, ◌∙◌, Bool, Option, none, some, List, [], ◌∷◌, ◌++◌, arith, Text,
  codes, Bool-cases, inl, inr, ◌>>=◌, c_string, replicate, get_or,
}
use sa_wa.Bytes.{fill}
use sa_wa.Storage.{Recv, got, failed}
use sa_wa.Util.{strn_case_str}
use sa_wa.Http.Request.{HttpRequest, http_request, request_message_len, getline}
use sa_wa.Http.Parsing.{IsSearch, first_match, match_loop-first}
use sa_wa.Http.Serve.{
  Environment, Connection, answer_request, process_http_request, request_block, is_complete,
  read_http_data,
}
use sa_wa.Http.Caching.{Every, FromDisk, Readable}
use sa_wa.Http.Answers.{Answered, answer_request-files}

c_string-append :
    (xs ys : List ℕ) (t : Text) → c_string ys ≡ some t → (s : Text) × (c_string (xs ++ ys) ≡ some s)
unfolding c_string
c_string-append [] ys t h = (t, h)
c_string-append (zero ∷ xs) ys t h = ([], refl)
c_string-append (suc c ∷ xs) ys t h =
    let (s, e) = c_string-append xs ys t h in (suc c ∷ s, ap (λ o. o >>= λ s. some (suc c ∷ s)) e)

-- What a server without Java classes relies on.
pub record IsServer (env : Environment) : Type 0 where
  pub plain : env.towa ≡ none
  pub readable : Readable env.files
  pub search : IsSearch env.regex_search
  pub short_pointer : (t : Text) × (c_string env.pointer ≡ some t)

request_block-ends :
    (env : Environment) (top : Option (List ℕ)) (msg : List ℕ)
    → IsServer env
    → (s : Text) × (c_string (request_block env top msg) ≡ some s)
unfolding request_block c_string
request_block-ends env none msg v = c_string-append msg (replicate 8 0) [] refl
request_block-ends env (some top) msg v =
    let (t, e) = v.short_pointer in c_string-append top env.pointer t e

http_request-total :
    (env : Environment) (block : List ℕ) (s : Text)
    → IsSearch env.regex_search
    → c_string block ≡ some s
    → (request : HttpRequest) × (http_request env.regex_search env.beyond block ≡ some request)
unfolding http_request
http_request-total env block s v e =
    let r : Text × Text = first_match (env.regex_search (getline s)) in
    (
      record {
        path = r.0;
        query_string = r.1;
        keep_alive =
            strn_case_str (λ i. get_or block i (env.beyond i)) (codes "Connection: Keep-Alive")
              request_message_len;
      },
      ground (arith, e, match_loop-first env.regex_search (getline s) v),
    )

-- Responses, one behind the other.
pub data Responses : Connection → Connection → Type 0 where
  no_more : (s : Connection) → Responses s s
  one_more :
      (s s₁ s₂ : Connection) (keep_alive keep : Bool)
      → Answered s keep_alive s₁ keep
      → Responses s₁ s₂
      → Responses s s₂

-- The cache is one of files as they are on disk.
abbrev pub CacheOk : Environment → Connection → Type 0
CacheOk env s = Every (FromDisk env.stale env.files) s.cache

process_http_request-Answered :
    (env : Environment) (s : Connection) (top : Option (List ℕ)) (msg : List ℕ)
    → IsServer env
    → CacheOk env s
    → (s' : Connection) × (keep_alive keep : Bool) × (process_http_request env s
          (request_block env top msg)
        ≡ some (s', keep))
      × Answered s keep_alive s' keep
      × CacheOk env s'
unfolding process_http_request
process_http_request-Answered env s top msg v ok =
    let (t, e) = request_block-ends env top msg v in
    let (request, r) = http_request-total env (request_block env top msg) t v.search e in
    let (s', keep, a, answered, ok') = answer_request-files env s request v.plain v.readable ok in
    (s', request.keep_alive, keep, ap (λ o. o >>= answer_request env s) r ∙ a, answered, ok')

-- On a server without Java classes, whose files open and are smaller than 2 GB, whose search for
-- the regular expression gives four submatches and takes a character at least, and whose pointers
-- hold a 0 byte, with a cache of files as they are on disk, whatever the reads of a connection
-- answer, the loop ends without undefined behaviour; what it has written is whole responses, each
-- counted in its column, and the cache is one of files as they are on disk.
pub read_http_data-Responses :
    (env : Environment) (s : Connection) (top : Option (List ℕ)) (reads : List Recv)
    → IsServer env
    → CacheOk env s
    → (s' : Connection) × (read_http_data env s top reads ≡ some s')
      × Responses s s'
      × CacheOk env s'
unfolding read_http_data
read_http_data-Responses env s top [] v ok = (s, refl, no_more s, ok)
read_http_data-Responses env s top (failed ∷ rest) v ok = (s, refl, no_more s, ok)
read_http_data-Responses env s top (got [] ∷ rest) v ok = (s, refl, no_more s, ok)
read_http_data-Responses env s top (got (b ∷ bytes) ∷ rest) v ok =
    let msg : List ℕ = fill (λ i. 0) request_message_len (b ∷ bytes) in
    elim (Bool-cases (is_complete (b ∷ bytes))) [
      | inr e ↦
          let (s', r, rs, ok') =
            read_http_data-Responses env s (elim top [ none ↦ some msg | some t ↦ some t ]) rest v
              ok in
          (s', ground (arith, e, r), rs, ok')
      | inl e ↦
          let (s₁, keep_alive, keep, p, a, ok₁) =
            process_http_request-Answered env s top msg v ok in
          elim (Bool-cases keep) [
            | inl k ↦
                let (s', r, rs, ok') = read_http_data-Responses env s₁ none rest v ok₁ in
                (s', ground (arith, e, p, k, r), one_more s s₁ s' keep_alive keep a rs, ok')
            | inr k ↦
                (s₁, ground (arith, e, p, k), one_more s s₁ s₁ keep_alive keep a (no_more s₁), ok₁)
          ]
    ]
