-- ===== src/Towa.antt =====
-- server/towa_ipc.cpp and server/towa_app_pool.cpp: the messages between the web server and the
-- process that runs the Java classes, over named pipes. A pipe is the list of bytes in it. `none`
-- is undefined behaviour or an exception that nothing catches.
pub mod AppPool
pub mod WebXml
pub mod Manager
pub mod Scan
pub mod Scanning
pub mod RoundTrip
pub mod Sending
pub mod Jni
pub mod Machine
pub mod Process
pub mod Telling
pub mod Answers
pub mod Answering
pub mod Listening
use sa_wa.Base.{
  ℕ, zero, suc, ◌+◌, ◌-◌, ◌%◌, ◌^◌, ◌≤◌, ◌<◌, ◌≡◌, refl, Bool, true, false, Option, none, some,
  List, [], ◌∷◌, ◌++◌, length, ◌==◌, ltb, leb, if◌then◌else◌, Text, codes, drop, take, ◌>>=◌,
}
use sa_wa.Bytes.{fill, bytes_of_u32, load_u32}

-- The size is the number of bytes of the content.
pub record Message : Type 0 where
  pub header : ℕ
  pub content : List ℕ

abbrev pub towa_http_200 : ℕ
towa_http_200 = 0x01

abbrev pub towa_http_404 : ℕ
towa_http_404 = 0x02

abbrev pub towa_http_500 : ℕ
towa_http_500 = 0x03

-- Message(string): the header is not set.
unfoldable pub message : ℕ → Text → Message
message unset s = record { header = unset; content = s }

unfoldable pub send_to : Message → List ℕ
send_to msg = bytes_of_u32 (length msg.content) ++ msg.content

-- The allocation and the second fread. A size that is negative as an int cannot be allocated.
unfoldable pub read_content : (ℕ → ℕ) → ℕ → ℕ → List ℕ → Option Message
read_content stale header size body =
    if ltb size (2 ^ 31)
    then some (record { header = header; content = fill stale size body })
    else none

-- What is found behind the size: a header where one is expected, which the size counts.
unfoldable pub read_body : (ℕ → ℕ) → ℕ → Bool → ℕ → List ℕ → Option Message
unfolding read_content
read_body stale unset false size body = read_content stale unset size body
read_body stale unset true zero body = none
read_body stale unset true (suc n) [] = read_content stale unset n []
read_body stale unset true (suc n) (h ∷ body) = read_content stale h n body

-- Message(FILE *, bool) on the bytes of a pipe; an empty one leaves the size 0.
unfoldable pub read_message : (ℕ → ℕ) → ℕ → Bool → List ℕ → Option Message
unfolding read_body
read_message stale unset has_header [] = read_body stale unset has_header 0 []
read_message stale unset has_header (b ∷ bytes) = do
  size ← load_u32 (take 4 (b ∷ bytes)) 0
  read_body stale unset has_header size (drop 4 (b ∷ bytes))

-- What TowaPipe::sendMsg writes, and what it makes of the answer.
unfoldable pub request_text : Text → Text → Text → Text
request_text verb classname querystring =
    verb ++ (codes "|" ++ (classname ++ (codes "|" ++ querystring)))

unfoldable pub request_bytes : ℕ → Text → Text → Text → List ℕ
unfolding send_to message request_text
request_bytes unset verb classname querystring =
    send_to (message unset (request_text verb classname querystring))

-- TowaPipe::listenToMsg: the bytes that answer those of a request.
unfoldable pub listen_to_msg : (ℕ → ℕ) → ℕ → (Message → Option Message) → List ℕ → Option (List ℕ)
unfolding read_message send_to
listen_to_msg stale unset callback ping = do
  msg_in ← read_message stale unset false ping
  msg_out ← callback msg_in
  some (send_to msg_out)

-- sendMsg, with the other process listening.
unfoldable pub send_msg :
    (ℕ → ℕ) → ℕ → (Message → Option Message) → Text → Text → Text → Option Message
unfolding request_bytes listen_to_msg read_message
send_msg stale unset callback verb classname querystring = do
  pong ← listen_to_msg stale unset callback (request_bytes unset verb classname querystring)
  read_message stale unset true pong

-- The loop of getline over a stringstream: a part ends at a bar, and nothing behind the last bar
-- is no part.
unfoldable pub tokens : Text → List Text
tokens [] = []
tokens (c ∷ s) = elim (c == b'|') [
  | true ↦ [] ∷ tokens s
  | false ↦ elim (tokens s) [ [] ↦ (c ∷ []) ∷ [] | (t ∷ ts) ↦ (c ∷ t) ∷ ts ]
]
