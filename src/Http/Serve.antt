-- ===== src/Http/Serve.antt =====
-- HTTPServer of server/http_srv.cpp: the answers to requests, and the loop that reads a connection.
-- `none` is undefined behaviour, such as a file that has a size but does not open.
use sa_wa.Base.{
  ℕ, ◌-◌, Bool, true, false, Option, none, some, List, [], ◌∷◌, ◌++◌, length, ◌==◌, ltb,
  if◌then◌else◌, Text, codes, decimal, text_eq, drop, replicate, ◌>>=◌, ◌||◌, not,
}
use sa_wa.Bytes.{fill}
use sa_wa.Storage.{Recv, got, failed}
use sa_wa.Thread.{ConnectionThread, update_screen}
use sa_wa.Towa.{Message, towa_http_200, towa_http_404}
use sa_wa.Http.Request.{HttpRequest, Match, http_request, is_valid, request_message_len}
use sa_wa.Http.Files.{WebFile, FileSystem, Cache, get_file}

abbrev pub http_200 : Text
http_200 = codes "HTTP/1.1 200 OK\nKeep-Alive: timeout=15, max=95\nConnection: Keep-Alive\n"

abbrev pub http_404 : Text
http_404 =
    codes
      "HTTP/1.1 404 Not Found\nContent-Type: text/html; charset=UTF-8\nContent-Length: 12\n\nError 404 - Not found\n\n"

abbrev pub http_200_col : ℕ
http_200_col = 0

abbrev pub http_404_col : ℕ
http_404_col = 1

abbrev pub http_500_col : ℕ
http_500_col = 2

unfoldable pub generate500_response : Text → Text
generate500_response desc =
    codes
      "HTTP/1.1 500 Internal Server Error\nContent-Type: text/html; charset=UTF-8\nContent-Length: "
    ++ (decimal (length (codes "<h1>500 Internal Server Error</h1>\n" ++ desc))
        ++ (codes "\n\n" ++ (codes "<h1>500 Internal Server Error</h1>\n" ++ desc)))

-- The headers and the content of a file.
unfoldable pub generate200_response : WebFile → Text
generate200_response file =
    http_200
    ++ (codes "Content-Length: "
        ++ (decimal file.size ++ (codes "\nContent-Type: text/html;\n\n" ++ file.content)))

-- What the server works with: the regular expression, the stale bytes of allocations, the file
-- system, and with -towa what the manager's sendMsg answers.
pub record Environment : Type 0 where
  pub regex_search : Text → Option Match
  pub beyond : ℕ → ℕ
  -- The eight bytes of a pointer that is not null.
  pub pointer : List ℕ
  pub stale : ℕ → ℕ
  pub files : FileSystem
  pub towa : Option (Text → Text → Text → Option Message)

pub record Connection : Type 0 where
  pub thread : ConnectionThread
  pub cache : Cache
  pub output : List ℕ

-- A response is written and counted in a column.
unfoldable pub respond_with : Connection → ℕ → Text → Connection
respond_with s column bytes = record s {
  thread = update_screen s.thread column;
  output = s.output ++ bytes;
}

-- The end of processRequest, on the file that was found.
unfoldable pub send_file : Connection → Bool → Option WebFile → Connection × Bool
unfolding respond_with generate200_response
send_file s keep_alive none = (respond_with s http_404_col http_404, false)
send_file s keep_alive (some file) =
    (respond_with s http_200_col (generate200_response file), keep_alive)

-- The switch on the header of the manager's answer. Behind it the answer becomes a file, whatever
-- case was taken.
unfoldable pub send_towa : Connection → Bool → Message → Connection × Bool
unfolding send_file respond_with generate500_response
send_towa s keep_alive msg_in =
    if (msg_in.header == towa_http_200) || (msg_in.header == towa_http_404)
    then send_file s keep_alive
        (some (record { content = msg_in.content; size = length msg_in.content }))
    else (respond_with s http_500_col (generate500_response msg_in.content), false)

-- processRequest, on the block of the first message. The result's Boolean keeps the connection.
unfoldable pub answer_request : Environment → Connection → HttpRequest → Option (Connection × Bool)
unfolding send_file send_towa respond_with generate500_response is_valid
answer_request env s request = elim (is_valid request) [
  | false ↦
      some (respond_with s http_500_col (generate500_response (codes "Invalid request")), false)
  | true ↦ elim env.towa [
    | some send_msg ↦ do
      msg_in ← send_msg (codes "GET") (drop 1 request.path) request.query_string
      some (send_towa s request.keep_alive msg_in)
    | none ↦ do
      found ← get_file env.stale env.files s.cache request.path
      some (send_file (record s { cache = found.1 }) request.keep_alive found.0)
  ]
]

unfoldable pub process_http_request : Environment → Connection → List ℕ → Option (Connection × Bool)
unfolding http_request answer_request
process_http_request env s block = do
  request ← http_request env.regex_search env.beyond block
  answer_request env s request

-- The block that a request is read from: the data of its first message and its next pointer.
unfoldable pub request_block : Environment → Option (List ℕ) → List ℕ → List ℕ
request_block env none msg = msg ++ replicate 8 0
request_block env (some top) msg = top ++ env.pointer

-- The test of readData: strcmp answers 0 where the texts are equal.
unfoldable pub is_complete : List ℕ → Bool
is_complete bytes =
    ltb (length bytes) request_message_len
    || not (text_eq (drop (request_message_len - 4) bytes) (codes "\r\n\r\n"))

-- The loop of readData over the answers of read. `top` is the data of the first message where one
-- is read already.
unfoldable pub read_http_data :
    Environment → Connection → Option (List ℕ) → List Recv → Option Connection
unfolding process_http_request request_block is_complete
read_http_data env s top [] = some s
read_http_data env s top (failed ∷ rest) = some s
read_http_data env s top (got [] ∷ rest) = some s
read_http_data env s top (got (b ∷ bytes) ∷ rest) =
    let data_read : List ℕ = fill (λ i. 0) request_message_len (b ∷ bytes) in
    elim (is_complete (b ∷ bytes)) [
      | false ↦ read_http_data env s (elim top [ none ↦ some data_read | some t ↦ some t ]) rest
      | true ↦ elim (process_http_request env s (request_block env top data_read)) [
        | none ↦ none
        | some (s', true) ↦ read_http_data env s' none rest
        | some (s', false) ↦ some s'
      ]
    ]
