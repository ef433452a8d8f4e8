-- ===== src/Towa/Listening.antt =====
-- The loop of server/towa.cpp over the requests that managers send.
use sa_wa.Base.{
  ℕ, ℤ, suc, ◌^◌, ◌<◌, ◌≡◌, refl, ap, ◌∙◌, sym, true, false, List, [], ◌∷◌, ◌++◌, Option, some,
  Text, map, append_assoc, append-nil, length, arith,
}
use sa_wa.Towa.{Message, message, send_to, read_message, request_text, request_bytes, tokens}
use sa_wa.Towa.AppPool.{Answer, respond}
use sa_wa.Towa.Jni.{gave, Jni, TowaAppPool, classpath_option, towa_app_pool}
use sa_wa.Towa.Machine.{replies, app_process_request}
use sa_wa.Towa.Process.{listening, listen, with_pool, towa_main}
use sa_wa.Towa.Answers.{request_answer, processed, reply-processed, reply-replies}
use sa_wa.Towa.RoundTrip.{
  NoBar, read_message-send_to, read_message-header, tokens-request_text, first_part-tokens,
}
use sa_wa.Towa.Answering.{app_process_request-answer}
use sa_wa.Main.Startup.{built, towa_pipe}

-- What a manager sends.
pub record Asked : Type 0 where
  pub verb : Text
  pub classname : Text
  pub query : Text

-- A request that the pipe carries whole: it has no bar in it and is smaller than 2 GB.
pub record Carried (r : Asked) : Type 0 where
  pub verb_whole : NoBar r.verb
  pub class_whole : NoBar r.classname
  pub query_whole : NoBar r.query
  pub short : length (request_text r.verb r.classname r.query) < 2 ^ 31

-- An answer as the manager gets it: the header and the content.
abbrev pub Reply : Type 0
Reply = ℕ × List ℕ

abbrev pub received : Reply → Option Message
received (h, body) = some (record { header = h; content = body })

abbrev pub asks : ℕ → Asked → List ℕ
asks unset r = request_bytes unset r.verb r.classname r.query

module _ (J : Jni) (pool : TowaAppPool) (unset fuel : ℕ) where
  -- From one state to another, the calls for the requests tell answers that make these replies.
  unfoldable pub Tells : List Asked → List Reply → J.State → J.State → Type 0
  Tells [] [] s s' = s ≡ s'
  Tells [] (x ∷ xs) s s' = ⊥
  Tells (r ∷ rs) [] s s' = ⊥
  Tells (r ∷ rs) ((h, body) ∷ rs') s s' =
      (a : Answer) × (t : J.State) × Carried r
      × (request_answer J pool fuel r.verb r.classname r.query s ≡ (gave a, t))
      × (respond unset a ≡ some (message unset (h ∷ body)))
      × (suc (length body) < 2 ^ 31)
      × Tells rs rs' t s'

  abbrev pong_of : Reply → List ℕ
  pong_of (h, body) = send_to (message unset (h ∷ body))

  pub replied :
      (r : Asked) (a : Answer) (msg : Message) (s s' : J.State)
      → Carried r
      → request_answer J pool fuel r.verb r.classname r.query s ≡ (gave a, s')
      → respond unset a ≡ some msg
      → app_process_request J pool unset fuel
          (message unset (request_text r.verb r.classname r.query))
          s
        ≡ (gave (replies msg), s')
  unfolding message
  replied r a msg s s' c told answer =
      let msg_in : Message = message unset (request_text r.verb r.classname r.query) in
      app_process_request-answer J pool unset fuel msg_in r.verb r.classname (tokens r.query) s s' a
        (tokens-request_text r.verb r.classname r.query c.verb_whole c.class_whole)
        (ap (λ q. request_answer J pool fuel r.verb r.classname q s)
            (first_part-tokens r.query c.query_whole)
          ∙ told)
      ∙ ap (λ p. (gave p, s'))
          (reply-replies (processed unset a) msg (reply-processed unset a ∙ answer))

  listen_step :
      (stale : ℕ → ℕ) (ping : List ℕ) (pings : List (List ℕ)) (msg_in msg_out : Message)
      (s s' : J.State) (pongs : List (List ℕ))
      → read_message stale unset false ping ≡ some msg_in
      → app_process_request J pool unset fuel msg_in s ≡ (gave (replies msg_out), s')
      → listen J stale unset fuel pool (ping ∷ pings) s pongs
        ≡ listen J stale unset fuel pool pings s' (pongs ++ send_to msg_out ∷ [])
  unfolding listen
  listen_step stale ping pings msg_in msg_out s s' pongs arrives done =
      ground (arith, arrives, done)

  listen-Tells :
      (stale : ℕ → ℕ) (rs : List Asked) (rs' : List Reply) (s s' : J.State) (pongs : List (List ℕ))
      → Tells rs rs' s s'
      → listen J stale unset fuel pool (map (asks unset) rs) s pongs
        ≡ listening s' (pongs ++ map pong_of rs')
  unfolding listen Tells request_bytes
  listen-Tells stale [] [] s s' pongs t =
      ap (λ p. listening s p) (sym (append-nil pongs)) ∙ ap (λ x. listening x (pongs ++ [])) t
  listen-Tells stale [] (x ∷ xs) s s' pongs t = absurd t
  listen-Tells stale (r ∷ rs) [] s s' pongs t = absurd t
  listen-Tells stale (r ∷ rs) ((h, body) ∷ rs') s s' pongs (a, s1, c, told, answer, b, t) =
      let msg_in : Message = message unset (request_text r.verb r.classname r.query) in
      let arrives : read_message stale unset false (asks unset r) ≡ some msg_in =
        read_message-send_to stale unset msg_in c.short in
      listen_step stale (asks unset r) (map (asks unset) rs) msg_in (message unset (h ∷ body)) s s1
        pongs arrives (replied r a (message unset (h ∷ body)) s s1 c told answer)
      ∙ listen-Tells stale rs rs' s1 s' (pongs ++ pong_of (h, body) ∷ []) t
      ∙ ap (listening s') (append_assoc pongs (pong_of (h, body) ∷ []) (map pong_of rs'))

  read-Tells :
      (stale : ℕ → ℕ) (rs : List Asked) (rs' : List Reply) (s s' : J.State)
      → Tells rs rs' s s'
      → map (read_message stale unset true) (map pong_of rs') ≡ map received rs'
  unfolding Tells message
  read-Tells stale [] [] s s' t = refl
  read-Tells stale [] (x ∷ xs) s s' t = absurd t
  read-Tells stale (r ∷ rs) [] s s' t = absurd t
  read-Tells stale (r ∷ rs) ((h, body) ∷ rs') s s' (a, s1, c, told, answer, b, t) =
      let arrives : read_message stale unset true (pong_of (h, body))
          ≡ some (record { header = h; content = body }) =
        read_message-header stale unset h (message unset (h ∷ body)) body refl b in
      cc (arrives, read-Tells stale rs rs' s1 s' t)

-- If the Java machine is made, the constructor finds its classes and methods, the pipes are made,
-- and the calls for the requests that managers send, without bars and smaller than 2 GB, tell one
-- after another answers that make replies smaller than 2 GB: the process answers each request in its
-- order, what the managers read are these replies, header and content, and it listens again then.
pub towa_main-Tells :
    (jvm : Jni) (pool : TowaAppPool) (stale : ℕ → ℕ) (unset fuel : ℕ) (ping pong : ℤ × ℕ)
    (rs : List Asked) (rs' : List Reply) (s0 s s' : jvm.State)
    → jvm.create_java_vm classpath_option ≡ some s0
    → towa_app_pool jvm unset s0 ≡ (gave pool, s)
    → towa_pipe ping pong ≡ built
    → Tells jvm pool unset fuel rs rs' s s'
    → (pongs : List (List ℕ)) × (towa_main jvm stale unset fuel ping pong (map (asks unset) rs)
        ≡ listening s' pongs)
      × (map (read_message stale unset true) pongs ≡ map received rs')
unfolding towa_main
towa_main-Tells jvm pool stale unset fuel ping pong rs rs' s0 s s' made constructed pipes t = (
  map (pong_of jvm pool unset fuel) rs',
  rw (made, constructed, pipes, towa_main, with_pool)
      (listen-Tells jvm pool unset fuel stale rs rs' s s' [] t),
  read-Tells jvm pool unset fuel stale rs rs' s s' t,
)
