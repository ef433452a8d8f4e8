-- ===== src/Http/Java.antt =====
-- A request for a Java class, from the web server over the pipes to the class and back.
use sa_wa.Base.{
  ℕ, suc, ◌^◌, ◌<◌, ◌≡◌, refl, ◌∙◌, Bool, true, false, some, List, ◌∷◌, length, arith, ◌==◌, ◌||◌,
  Text, codes, drop, if◌then◌else◌, Bool-cases, inl, inr,
}
use sa_wa.Towa.{message, send_msg, towa_http_200, towa_http_404}
use sa_wa.Towa.AppPool.{Answer, respond}
use sa_wa.Towa.Jni.{Jni, TowaAppPool, gave}
use sa_wa.Towa.Process.{callback}
use sa_wa.Towa.Answers.{request_answer}
use sa_wa.Towa.Listening.{Asked, Carried, replied}
use sa_wa.Towa.RoundTrip.{send_msg-callback}
use sa_wa.Http.Request.{HttpRequest, is_valid}
use sa_wa.Http.Files.{WebFile}
use sa_wa.Http.Serve.{
  Environment, Connection, http_200_col, http_500_col, generate200_response, generate500_response,
  respond_with, send_file, send_towa, answer_request,
}
use sa_wa.Http.Framing.{
  content_length, body_of, content_length-generate200, body_of-generate200,
  content_length-generate500, body_of-generate500, error_page,
}

-- Whether a header is shown as a page.
abbrev pub is_page : ℕ → Bool
is_page h = (h == towa_http_200) || (h == towa_http_404)

abbrev pub column_of : ℕ → ℕ
column_of h = if is_page h then http_200_col else http_500_col

-- The body that a browser gets.
abbrev pub shown_as : ℕ → List ℕ → List ℕ
shown_as h body = if is_page h then body else error_page body

-- The request of a path without its first character.
abbrev pub asked_by : HttpRequest → Asked
asked_by request = record {
  verb = codes "GET";
  classname = drop 1 request.path;
  query = request.query_string;
}

send_towa-shown :
    (s : Connection) (keep_alive : Bool) (h : ℕ) (body : List ℕ)
    → (response : Text) × (send_towa s keep_alive (record { header = h; content = body })
        ≡ (respond_with s (column_of h) response, if is_page h then keep_alive else false))
      × (content_length response ≡ some (length (shown_as h body)))
      × (body_of response ≡ some (shown_as h body))
unfolding send_towa send_file
send_towa-shown s keep_alive h body = elim (Bool-cases (is_page h)) [
  | inl e ↦
      let page : WebFile = record { content = body; size = length body } in
      (
        generate200_response page,
        ground (arith, e),
        content_length-generate200 page ∙ ground (arith, e),
        body_of-generate200 page ∙ ground (arith, e),
      )
  | inr e ↦ (
    generate500_response body,
    ground (arith, e),
    content_length-generate500 body ∙ ground (arith, e),
    body_of-generate500 body ∙ ground (arith, e),
  )
]

sent_back :
    (jni : Jni) (pool : TowaAppPool) (stale : ℕ → ℕ) (unset fuel : ℕ) (t t' : jni.State) (r : Asked)
    (a : Answer) (h : ℕ) (body : List ℕ)
    → Carried r
    → request_answer jni pool fuel r.verb r.classname r.query t ≡ (gave a, t')
    → respond unset a ≡ some (message unset (h ∷ body))
    → suc (length body) < 2 ^ 31
    → send_msg stale unset (callback jni stale unset fuel pool t) r.verb r.classname r.query
      ≡ some (record { header = h; content = body })
unfolding callback message
sent_back jni pool stale unset fuel t t' r a h body c told answer short =
    let done = replied jni pool unset fuel r a (message unset (h ∷ body)) t t' c told answer in
    send_msg-callback stale unset (callback jni stale unset fuel pool t) r.verb r.classname r.query
      (message unset (h ∷ body)) h body c.short (ground (arith, done)) refl short

-- On a web server whose manager's process runs the Java classes: a valid request whose path and query
-- hold no bar, with a message smaller than 2 GB, for which the calls to the Java machine tell an
-- answer that makes a reply smaller than 2 GB, is answered by one response, in the column of pages or
-- of errors by the reply's header; the response announces the length of its body, which is the
-- reply's content, in an error behind its heading; only a page keeps the connection, where the request
-- asks for it.
pub answer_request-request_answer :
    (jni : Jni) (pool : TowaAppPool) (stale : ℕ → ℕ) (unset fuel : ℕ) (t t' : jni.State)
    (env : Environment) (s : Connection) (request : HttpRequest) (a : Answer) (h : ℕ)
    (body : List ℕ)
    → env.towa ≡ some (send_msg stale unset (callback jni stale unset fuel pool t))
    → is_valid request ≡ true
    → Carried (asked_by request)
    → request_answer jni pool fuel (codes "GET") (drop 1 request.path) request.query_string t
      ≡ (gave a, t')
    → respond unset a ≡ some (message unset (h ∷ body))
    → suc (length body) < 2 ^ 31
    → (response : Text) × (answer_request env s request
        ≡ some (
          respond_with s (column_of h) response,
          if is_page h then request.keep_alive else false,
        ))
      × (content_length response ≡ some (length (shown_as h body)))
      × (body_of response ≡ some (shown_as h body))
unfolding answer_request
answer_request-request_answer jni pool stale unset fuel t t' env s request a h body java valid
      carried told answer short =
    let sent =
      sent_back jni pool stale unset fuel t t' (asked_by request) a h body carried told answer
        short in
    let (response, shown, announced, holds) = send_towa-shown s request.keep_alive h body in
    (response, ground (arith, java, valid, sent, shown), announced, holds)
