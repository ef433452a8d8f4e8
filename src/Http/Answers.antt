-- ===== src/Http/Answers.antt =====
-- What processRequest writes and counts for one request.
use mathlib.Core.Option.{some-injective, none-ne-some}
use sa_wa.Base.{
  ℕ, ◌≡◌, refl, sym, ap, ◌∙◌, subst, Bool, true, false, Option, none, some, ◌++◌, length, arith,
  ◌==◌, Text, codes, Bool-cases, inl, inr, drop, ◌||◌,
}
use sa_wa.Bytes.{length-fill}
use sa_wa.Thread.{update_screen}
use sa_wa.Towa.{Message, towa_http_200, towa_http_404}
use sa_wa.Http.Request.{HttpRequest, is_valid}
use sa_wa.Http.Files.{FileSystem, WebFile, Cache}
use sa_wa.Http.Serve.{
  Environment, Connection, http_404, http_200_col, http_404_col, http_500_col, generate200_response,
  generate500_response, respond_with, send_file, send_towa, answer_request,
}
use sa_wa.Http.Framing.{
  content_length, body_of, content_length-generate200, body_of-generate200,
  content_length-generate500, body_of-generate500, error_page,
}
use sa_wa.Http.Caching.{Every, FromDisk, OnDisk, Readable, get_file-Every}

-- A response, the column that counts it, and whether the connection may be kept. A page announces
-- its length; the page of a missing file announces 12 bytes and has 23.
pub data Response (keep_alive : Bool) : Text → ℕ → Bool → Type 0 where
  found :
      (response body : Text)
      → content_length response ≡ some (length body)
      → body_of response ≡ some body
      → Response keep_alive response http_200_col keep_alive
  error :
      (response body : Text)
      → content_length response ≡ some (length body)
      → body_of response ≡ some body
      → Response keep_alive response http_500_col false
  missing :
      (response body : Text)
      → content_length response ≡ some 12
      → body_of response ≡ some body
      → length body ≡ 23
      → Response keep_alive response http_404_col false

-- The connection behind one response.
pub record Answered (s : Connection) (keep_alive : Bool) (s' : Connection) (keep : Bool)
    : Type 0 where
  pub response : Text
  pub column : ℕ
  pub written : s'.output ≡ s.output ++ response
  pub counted : s'.thread ≡ update_screen s.thread column
  pub kind : Response keep_alive response column keep

error-Answered :
    (s : Connection) (keep_alive : Bool) (desc : Text)
    → Answered s keep_alive (respond_with s http_500_col (generate500_response desc)) false
unfolding respond_with
error-Answered s keep_alive desc = record {
  response = generate500_response desc;
  column = http_500_col;
  written = refl;
  counted = refl;
  kind =
      error (generate500_response desc) (error_page desc) (content_length-generate500 desc)
        (body_of-generate500 desc);
}

send_file-Answered :
    (s : Connection) (cache : Cache) (keep_alive : Bool) (file : Option WebFile)
    → ((f : WebFile) → file ≡ some f → length f.content ≡ f.size)
    → Answered s keep_alive
        (send_file (record s { cache = cache }) keep_alive file).0
        (send_file (record s { cache = cache }) keep_alive file).1
unfolding send_file respond_with content_length body_of
send_file-Answered s cache keep_alive (some file) h = record {
  response = generate200_response file;
  column = http_200_col;
  written = refl;
  counted = refl;
  kind =
      found (generate200_response file) file.content
        (content_length-generate200 file ∙ ap some (sym (h file refl))) (body_of-generate200 file);
}
send_file-Answered s cache keep_alive none h = record {
  response = http_404;
  column = http_404_col;
  written = refl;
  counted = refl;
  kind = missing http_404 (codes "Error 404 - Not found\n\n") refl refl refl;
}

send_file-cache :
    (s : Connection) (keep_alive : Bool) (file : Option WebFile)
    → (send_file s keep_alive file).0.cache ≡ s.cache
unfolding send_file respond_with
send_file-cache s keep_alive none = refl
send_file-cache s keep_alive (some file) = refl

FromDisk-size :
    (stale : ℕ → ℕ) (files : FileSystem) (q : Text) (f : WebFile)
    → FromDisk stale files q f
    → length f.content ≡ f.size
unfolding FromDisk
FromDisk-size stale files q f (st, bytes, s, o, c, n) =
    ap length c ∙ length-fill stale st.st_size bytes ∙ sym n

OnDisk-size :
    (stale : ℕ → ℕ) (files : FileSystem) (file : Option WebFile)
    → OnDisk stale files file
    → (f : WebFile) → file ≡ some f
    → length f.content ≡ f.size
unfolding OnDisk
OnDisk-size stale files none d f e = absurd (none-ne-some f e)
OnDisk-size stale files (some g) (q, d) f e =
    subst (λ x. length x.content ≡ x.size) (some-injective g f e) (FromDisk-size stale files q g d)

-- Without the Java classes, on a file system whose files open and are smaller than 2 GB and a cache
-- of files as they are on disk, every request is answered by exactly one response behind what was
-- written before, counted in that response's column, and the cache stays one of files as they are
-- on disk; a page and an error's page announce the length that they have, and only a page keeps the
-- connection, where the request asks for it.
pub answer_request-files :
    (env : Environment) (s : Connection) (request : HttpRequest)
    → env.towa ≡ none
    → Readable env.files
    → Every (FromDisk env.stale env.files) s.cache
    → (s' : Connection) × (keep : Bool) × (answer_request env s request ≡ some (s', keep))
      × Answered s request.keep_alive s' keep
      × Every (FromDisk env.stale env.files) s'.cache
unfolding answer_request respond_with
answer_request-files env s request plain readable every = elim (Bool-cases (is_valid request)) [
  | inr e ↦ (
    _,
    _,
    ground (arith, e),
    error-Answered s request.keep_alive (codes "Invalid request"),
    every,
  )
  | inl e ↦
      let (file, cache', g, every', disk) =
        get_file-Every env.stale env.files s.cache request.path readable every in
      let r : Connection × Bool = send_file (record s { cache = cache' }) request.keep_alive file in
      (
        r.0,
        r.1,
        ground (arith, e, plain, g),
        send_file-Answered s cache' request.keep_alive file
            (λ f e. OnDisk-size env.stale env.files file disk f e),
        subst (Every (FromDisk env.stale env.files))
            (sym (send_file-cache (record s { cache = cache' }) request.keep_alive file)) every',
      )
]

-- With the Java classes a valid request is answered by exactly one response behind what was written
-- before, counted in its column; the cache stays as it is.
pub answer_request-towa :
    (env : Environment) (s : Connection) (request : HttpRequest)
    (send : Text → Text → Text → Option Message) (msg : Message)
    → env.towa ≡ some send
    → is_valid request ≡ true
    → send (codes "GET") (drop 1 request.path) request.query_string ≡ some msg
    → (s' : Connection) × (keep : Bool) × (answer_request env s request ≡ some (s', keep))
      × Answered s request.keep_alive s' keep
      × (s'.cache ≡ s.cache)
unfolding answer_request send_towa respond_with
answer_request-towa env s request send msg java valid sent =
    let page : WebFile = record { content = msg.content; size = length msg.content } in
    elim (Bool-cases ((msg.header == towa_http_200) || (msg.header == towa_http_404))) [
      | inl e ↦ (
        _,
        _,
        ground (arith, java, valid, sent, e),
        send_file-Answered s s.cache request.keep_alive (some page) (λ f h.
            ap (λ x. length x.content) (sym (some-injective page f h))
            ∙ ap (λ x. x.size) (some-injective page f h)),
        send_file-cache s request.keep_alive (some page),
      )
      | inr e ↦ (
        _,
        _,
        ground (arith, java, valid, sent, e),
        error-Answered s request.keep_alive msg.content,
        refl,
      )
    ]

-- A valid request for a class that the classes' process reports as missing is answered by a page of
-- success: it is counted in the column of the pages, keeps the connection where the request asks
-- for it, announces the length of the error's text and has that text as its body.
pub answer_request-missing_class :
    (env : Environment) (s : Connection) (request : HttpRequest)
    (send : Text → Text → Text → Option Message) (msg : Message)
    → env.towa ≡ some send
    → is_valid request ≡ true
    → send (codes "GET") (drop 1 request.path) request.query_string ≡ some msg
    → msg.header ≡ towa_http_404
    → (response : Text) × (answer_request env s request
        ≡ some (respond_with s http_200_col response, request.keep_alive))
      × (content_length response ≡ some (length msg.content))
      × (body_of response ≡ some msg.content)
unfolding answer_request send_towa send_file
answer_request-missing_class env s request send msg java valid sent e =
    let page : WebFile = record { content = msg.content; size = length msg.content } in
    (
      generate200_response page,
      ground (arith, java, valid, sent, e),
      content_length-generate200 page,
      body_of-generate200 page,
    )
