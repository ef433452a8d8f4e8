-- ===== src/Towa/Sending.antt =====
-- TowaMgr of server/towa_mgr.cpp: its constructor and sendMsg, which joins the check of the process
-- with the messages to it.
use sa_wa.Base.{
  ℕ, suc, zero, ◌^◌, ◌<◌, ◌≡◌, refl, ap, ◌∙◌, Bool, true, false, ◌||◌, ◌==◌, Option, none, some,
  List, ◌∷◌, ◌++◌, ℤ, pos, negsuc, length, Text, arith, if◌then◌else◌, ◌>>=◌, Bool-cases, inl, inr,
}
use sa_wa.Towa.{Message, message, request_text, send_msg}
use sa_wa.Towa.AppPool.{Answer, respond, process_towa_request}
use sa_wa.Towa.Manager.{
  Entry, TowaMgr, Managed, managed, thrown, scan_classpath, launch_app_pool, check,
  failure_towa_cannot_spawn,
}
use sa_wa.Towa.WebXml.{Xml, TowaServlet, Unpacking}
use sa_wa.Towa.RoundTrip.{NoBar, send_msg-respond}

pub data TowaType : Type 0 where
  namedpipe : TowaType
  tcpip : TowaType
  sharedmem : TowaType
  -- Any other number.
  invalid : TowaType

-- The classes that carry the messages.
pub data TowaIpc : Type 0 where
  pipe : TowaIpc
  tcp : TowaIpc
  shared_mem : TowaIpc

-- The switch of the constructor; none is the exception FAILURE_TOWA_INVALID_TYPE.
unfoldable pub towa_mgr : TowaType → Option TowaIpc
towa_mgr namedpipe = some pipe
towa_mgr tcpip = some tcp
towa_mgr sharedmem = some shared_mem
towa_mgr invalid = none

-- How sendMsg ends: with a message, with a null pointer, or with an exception's code.
pub data Sent : Type 0 where
  replied : Message → TowaMgr → Sent
  no_message : TowaMgr → Sent
  fails : ℕ → TowaMgr → Sent

-- sendMsg of the three classes; those for TCP and for shared memory are empty.
unfoldable pub ipc_send_msg :
    TowaIpc → (ℕ → ℕ) → ℕ → (Message → Option Message) → Text → Text → Text → TowaMgr → Option Sent
ipc_send_msg pipe stale unset callback verb classname querystring mgr = do
  msg ← send_msg stale unset callback verb classname querystring
  some (replied msg mgr)
ipc_send_msg tcp stale unset callback verb classname querystring mgr = some (no_message mgr)
ipc_send_msg shared_mem stale unset callback verb classname querystring mgr = some (no_message mgr)

-- What waitpid answers about the process, the XML library, the entries of the class path, and what fork and waitpid
-- answer when the process is started again.
pub record Upkeep : Type 0 where
  pub waited : ℤ
  pub xml : Xml
  pub entries : List Entry
  pub forked : ℤ
  pub waited_again : ℤ

unfoldable pub mgr_send_msg :
    TowaIpc
    → (ℕ → ℕ)
    → ℕ
    → (Message → Option Message)
    → Upkeep
    → TowaMgr
    → Text
    → Text
    → Text
    → Option Sent
unfolding ipc_send_msg
mgr_send_msg ipc stale unset callback u mgr verb classname querystring =
    elim (check mgr u.waited u.xml u.entries u.forked u.waited_again) [
      | none ↦ none
      | some (thrown code mgr') ↦ some (fails code mgr')
      | some (managed mgr') ↦ ipc_send_msg ipc stale unset callback verb classname querystring mgr'
    ]

abbrev runs : ℤ → Bool
runs (pos n) = n == 0
runs (negsuc n) = false

-- The manager behind a check, if the archives of its class path are these.
abbrev pub kept_up : Upkeep → List Unpacking → TowaMgr → TowaMgr
kept_up u archives mgr =
    if runs u.waited
    then mgr
    else record mgr { pid = u.forked; unpacked = mgr.unpacked ++ archives }

-- What sendMsg comes to when the other process answers with this message.
abbrev pub outcome : Upkeep → List Unpacking → TowaMgr → Message → Sent
outcome u archives mgr msg =
    if runs u.waited || runs u.waited_again
    then replied msg (kept_up u archives mgr)
    else fails failure_towa_cannot_spawn (kept_up u archives mgr)

-- The manager behind launchAppPool, or the exception.
launch_lem :
    (mgr : TowaMgr) (forked waited : ℤ)
    → launch_app_pool mgr forked waited ≡ (
        if runs waited
        then managed (record mgr { pid = forked })
        else thrown failure_towa_cannot_spawn (record mgr { pid = forked }))
unfolding launch_app_pool
launch_lem mgr forked (pos zero) = refl
launch_lem mgr forked (pos (suc n)) = ground arith
launch_lem mgr forked (negsuc n) = refl

launches :
    (u : Upkeep) (archives : List Unpacking) (servlets : List TowaServlet) (mgr : TowaMgr)
    → scan_classpath u.xml u.entries ≡ some (archives, servlets)
    → sa_wa.Towa.Manager.start mgr u.xml u.entries u.forked u.waited_again
      ≡ some (
          launch_app_pool
            (record mgr { unpacked = mgr.unpacked ++ archives })
            u.forked
            u.waited_again)
unfolding sa_wa.Towa.Manager.start
launches u archives servlets mgr scanned = rw scanned refl

check-runs :
    (mgr : TowaMgr) (waited : ℤ) (xml : Xml) (entries : List Entry) (forked again : ℤ)
    → runs waited ≡ true
    → check mgr waited xml entries forked again ≡ some (managed mgr)
unfolding check
check-runs mgr (pos zero) xml entries forked again h = refl
check-runs mgr (pos (suc n)) xml entries forked again h = absurd (ground (arith, h))
check-runs mgr (negsuc n) xml entries forked again h = absurd (ground (arith, h))

check-gone :
    (mgr : TowaMgr) (waited : ℤ) (xml : Xml) (entries : List Entry) (forked again : ℤ)
    → runs waited ≡ false
    → check mgr waited xml entries forked again
      ≡ sa_wa.Towa.Manager.start mgr xml entries forked again
unfolding check
check-gone mgr (pos zero) xml entries forked again h = absurd (ground (arith, h))
check-gone mgr (pos (suc n)) xml entries forked again h = refl
check-gone mgr (negsuc n) xml entries forked again h = refl

-- The check of the process.
check_lem :
    (u : Upkeep) (archives : List Unpacking) (servlets : List TowaServlet) (mgr : TowaMgr)
    → scan_classpath u.xml u.entries ≡ some (archives, servlets)
    → check mgr u.waited u.xml u.entries u.forked u.waited_again
      ≡ some (
          if runs u.waited || runs u.waited_again
          then managed (kept_up u archives mgr)
          else thrown failure_towa_cannot_spawn (kept_up u archives mgr))
check_lem u archives servlets mgr scanned = elim (Bool-cases (runs u.waited)) [
  | inl here ↦ check-runs mgr u.waited u.xml u.entries u.forked u.waited_again here ∙ rw here refl
  | inr gone ↦
      check-gone mgr u.waited u.xml u.entries u.forked u.waited_again gone
      ∙ launches u archives servlets mgr scanned
      ∙ ap some
          (launch_lem (record mgr { unpacked = mgr.unpacked ++ archives }) u.forked u.waited_again)
      ∙ rw gone refl
]

-- Where verb, class and query hold no bar, the request and the answer are smaller than 2 GB, and the
-- class path can be scanned: the manager of a named pipe starts the process again when it has ended,
-- and throws the failure of that if it does not run then; otherwise what the class's method answers
-- arrives, its first byte as the header and the rest as the content.
pub mgr_send_msg-respond :
    (stale : ℕ → ℕ) (unset : ℕ) (java : Text → Text → Text → Answer) (verb classname query : Text)
    (answer : Message) (h : ℕ) (body : List ℕ) (mgr : TowaMgr) (u : Upkeep)
    (archives : List Unpacking) (servlets : List TowaServlet)
    → NoBar verb
    → NoBar classname
    → NoBar query
    → length (request_text verb classname query) < 2 ^ 31
    → respond unset (java verb classname query) ≡ some answer
    → answer.content ≡ h ∷ body
    → suc (length body) < 2 ^ 31
    → scan_classpath u.xml u.entries ≡ some (archives, servlets)
    → mgr_send_msg pipe stale unset (process_towa_request unset java) u mgr verb classname query
      ≡ some (outcome u archives mgr (record { header = h; content = body }))
unfolding mgr_send_msg
mgr_send_msg-respond stale unset java verb classname query answer h body mgr u archives servlets v c
      q size r content short scanned =
    let arrives =
      send_msg-respond stale unset java verb classname query answer h body v c q size r content
        short in
    let checked = check_lem u archives servlets mgr scanned in
    elim (Bool-cases (runs u.waited || runs u.waited_again)) [
      | inl up ↦ ground (arith, checked, arrives, up)
      | inr down ↦ ground (arith, checked, arrives, down)
    ]
