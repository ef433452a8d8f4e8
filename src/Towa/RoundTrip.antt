-- ===== src/Towa/RoundTrip.antt =====
-- The messages between the two processes: what is sent is what arrives.
use sa_wa.Base.{
  ℕ, suc, ◌^◌, ◌<◌, ◌≡◌, refl, ap, ◌∙◌, Bool, true, false, Option, some, List, [], ◌∷◌, ◌++◌,
  length, arith, Text, ◌≢◌,
}
use sa_wa.Bytes.{fill-exact, bytes_of_u32, u32_of_bytes_lem, load_u32}
use sa_wa.Towa.{
  Message, message, send_to, read_content, read_body, read_message, request_text, request_bytes,
  listen_to_msg, send_msg, tokens,
}
use sa_wa.Towa.AppPool.{Answer, respond, process_towa_request}

-- The first fread finds the size, and the rest of the pipe is the content.
read_message-size :
    (stale : ℕ → ℕ) (unset : ℕ) (has_header : Bool) (content : List ℕ)
    → length content < 2 ^ 31
    → read_message stale unset has_header (bytes_of_u32 (length content) ++ content)
      ≡ read_body stale unset has_header (length content) content
unfolding read_message bytes_of_u32 load_u32
read_message-size stale unset has_header content h =
    ap (λ k. read_body stale unset has_header k content)
      (u32_of_bytes_lem (length content) (omega arith))

read_content-exact :
    (stale : ℕ → ℕ) (header : ℕ) (content : List ℕ)
    → length content < 2 ^ 31
    → read_content stale header (length content) content
      ≡ some (record { header = header; content = content })
unfolding read_content
read_content-exact stale header content h =
    ground (arith, fill-exact stale (length content) content refl)

-- A message without a header arrives with its content.
pub read_message-send_to :
    (stale : ℕ → ℕ) (unset : ℕ) (msg : Message)
    → length msg.content < 2 ^ 31
    → read_message stale unset false (send_to msg)
      ≡ some (record { header = unset; content = msg.content })
unfolding send_to read_body
read_message-send_to stale unset msg h =
    read_message-size stale unset false msg.content h ∙ read_content-exact stale unset msg.content h

-- An answer's first byte arrives as the header.
pub read_message-header :
    (stale : ℕ → ℕ) (unset h : ℕ) (msg : Message) (body : List ℕ)
    → msg.content ≡ h ∷ body
    → suc (length body) < 2 ^ 31
    → read_message stale unset true (send_to msg) ≡ some (record { header = h; content = body })
unfolding send_to read_body
read_message-header stale unset h msg body e b =
    ap (λ c. read_message stale unset true (bytes_of_u32 (length c) ++ c)) e
    ∙ read_message-size stale unset true (h ∷ body) (omega arith)
    ∙ read_content-exact stale h body (omega arith)

unfoldable pub NoBar : Text → Type 0
NoBar [] = Unit
NoBar (c ∷ s) = (c ≢ b'|') × NoBar s

pub tokens-part : (xs s : Text) → NoBar xs → tokens (xs ++ b'|' ∷ s) ≡ xs ∷ tokens s
unfolding tokens NoBar
tokens-part [] s h = refl
tokens-part (c ∷ xs) s (n, h) = ground (arith, tokens-part xs s h)

-- The query that a list of parts gives: the first of them.
unfoldable pub first_part : List Text → Text
first_part [] = []
first_part (t ∷ ts) = t

pub first_part-tokens : (s : Text) → NoBar s → first_part (tokens s) ≡ s
unfolding tokens first_part NoBar
first_part-tokens [] h = refl
first_part-tokens (c ∷ s) (n, h) = ground (arith, first_part-tokens s h)

pub tokens-request_text :
    (verb classname query : Text)
    → NoBar verb
    → NoBar classname
    → tokens (request_text verb classname query) ≡ verb ∷ classname ∷ tokens query
unfolding request_text
tokens-request_text verb classname query v c =
    ground (arith, tokens-part verb (classname ++ b'|' ∷ query) v, tokens-part classname query c)

process_towa_request-parts :
    (unset : ℕ) (java : Text → Text → Text → Answer) (verb classname query : Text)
    → NoBar verb
    → NoBar classname
    → process_towa_request unset java (message unset (request_text verb classname query))
      ≡ respond unset (java verb classname (first_part (tokens query)))
unfolding process_towa_request message first_part
process_towa_request-parts unset java verb classname query v c =
    ground (arith, tokens-request_text verb classname query v c)

-- The two messages, around what the other process makes of the first.
pub send_msg-callback :
    (stale : ℕ → ℕ) (unset : ℕ) (callback : Message → Option Message) (verb classname query : Text)
    (answer : Message) (h : ℕ) (body : List ℕ)
    → length (request_text verb classname query) < 2 ^ 31
    → callback (message unset (request_text verb classname query)) ≡ some answer
    → answer.content ≡ h ∷ body
    → suc (length body) < 2 ^ 31
    → send_msg stale unset callback verb classname query
      ≡ some (record { header = h; content = body })
unfolding send_msg listen_to_msg request_bytes message
send_msg-callback stale unset callback verb classname query answer h body size r content short =
    let msg : Message = message unset (request_text verb classname query) in
    let arrives : read_message stale unset false (send_to msg) ≡ some msg =
      read_message-send_to stale unset msg size in
    ground (arith, arrives, r, read_message-header stale unset h answer body content short)

-- Where verb, class and query hold no bar, and the request and the answer are smaller than 2 GB:
-- the class's method is called with exactly this verb and query, and what its process answers
-- arrives at the web server, its first byte as the header and the rest as the content.
pub send_msg-respond :
    (stale : ℕ → ℕ) (unset : ℕ) (java : Text → Text → Text → Answer) (verb classname query : Text)
    (answer : Message) (h : ℕ) (body : List ℕ)
    → NoBar verb
    → NoBar classname
    → NoBar query
    → length (request_text verb classname query) < 2 ^ 31
    → respond unset (java verb classname query) ≡ some answer
    → answer.content ≡ h ∷ body
    → suc (length body) < 2 ^ 31
    → send_msg stale unset (process_towa_request unset java) verb classname query
      ≡ some (record { header = h; content = body })
send_msg-respond stale unset java verb classname query answer h body v c q size r content short =
    send_msg-callback stale unset (process_towa_request unset java) verb classname query answer h
      body size
      (process_towa_request-parts unset java verb classname query v c
        ∙ ap (λ x. respond unset (java verb classname x)) (first_part-tokens query q)
        ∙ r)
      content short
