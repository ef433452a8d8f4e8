-- ===== src/Towa/Process.antt =====
-- server/towa.cpp: main of the process that runs the Java classes, on the bytes of the requests that
-- come over the pipe.
use sa_wa.Base.{ℕ, ℤ, false, Option, none, some, List, [], ◌∷◌, ◌++◌}
use sa_wa.Towa.{Message, read_message, send_to}
use sa_wa.Towa.Jni.{
  Called, gave, signal, endless, Jni, TowaAppPool, classpath_option, towa_app_pool,
}
use sa_wa.Towa.Machine.{replies, null_pointer, undefined, app_process_request}
use sa_wa.Main.Startup.{built, fails, aborts, towa_pipe}

-- How the process stands, with the bytes of the answers that it has written: it listens for a further
-- request, has printed a code and returned, has met undefined behaviour or an exception that main
-- does not catch, or does not come back from a call.
pub data Towa (S : Type 0) : Type 0 where
  listening : S → List (List ℕ) → Towa S
  exits : ℕ → List (List ℕ) → Towa S
  crashes : List (List ℕ) → Towa S
  hangs : List (List ℕ) → Towa S

module _ (J : Jni) (stale : ℕ → ℕ) (unset fuel : ℕ) where
  -- The loop of listenToMsg with the callback.
  unfoldable pub listen : TowaAppPool → List (List ℕ) → J.State → List (List ℕ) → Towa J.State
  unfolding read_message send_to app_process_request
  listen pool [] s pongs = listening s pongs
  listen pool (ping ∷ pings) s pongs = elim (read_message stale unset false ping) [
    | none ↦ crashes pongs
    | some msg_in ↦
        let (c, s') = app_process_request J pool unset fuel msg_in s in
        elim c [
          | gave p ↦ elim p [
            | replies msg_out ↦ listen pool pings s' (pongs ++ send_to msg_out ∷ [])
            | null_pointer ↦ crashes pongs
            | undefined ↦ crashes pongs
          ]
          | signal ↦ exits 42 pongs
          | endless ↦ hangs pongs
        ]
  ]

  -- main behind the constructor, on what mknod answers for the two pipes.
  unfoldable pub with_pool :
      ℤ × ℕ → ℤ × ℕ → List (List ℕ) → Called TowaAppPool × J.State → Towa J.State
  unfolding towa_pipe listen
  with_pool ping pong pings (gave pool, s) = elim (towa_pipe ping pong) [
    | built ↦ listen pool pings s []
    | fails code ↦ exits code []
    | aborts ↦ crashes []
  ]
  with_pool ping pong pings (signal, s) = exits 42 []
  with_pool ping pong pings (endless, s) = hangs []

  unfoldable pub towa_main : ℤ × ℕ → ℤ × ℕ → List (List ℕ) → Towa J.State
  unfolding towa_app_pool with_pool
  towa_main ping pong pings = elim (J.create_java_vm classpath_option) [
    | none ↦ crashes []
    | some s ↦ with_pool ping pong pings (towa_app_pool J unset s)
  ]

  -- callback, on the machine in a state.
  unfoldable pub callback : TowaAppPool → J.State → Message → Option Message
  unfolding app_process_request
  callback pool s msg_in =
      let (c, s') = app_process_request J pool unset fuel msg_in s in
      elim c [
        | gave p ↦ elim p [
          | replies msg_out ↦ some msg_out
          | null_pointer ↦ none
          | undefined ↦ none
        ]
        | signal ↦ none
        | endless ↦ none
      ]
