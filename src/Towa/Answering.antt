-- ===== src/Towa/Answering.antt =====
-- processRequest over the Java machine against the answers that its calls tell.
use sa_wa.Base.{
  ℕ, ◌≡◌, refl, ap, ◌∙◌, sym, Bool, true, false, List, [], ◌∷◌, ◌++◌, none, Text, codes, ◌==◌,
  if◌then◌else◌,
}
use sa_wa.Towa.{Message, message, tokens, towa_http_500}
use sa_wa.Towa.AppPool.{
  Answer, output, no_output, exception, no_class, no_method, Throwable, get_jni_exception, respond,
  process_towa_request,
}
use sa_wa.Towa.AppPool
use sa_wa.Towa.Jni.{
  Called, gave, signal, endless, behind, pure, attempt, caught, Jni, TowaAppPool, c_str,
}
use sa_wa.Towa.Machine.{
  Processed, replies, null_pointer, get_towa_request, do_get, no_constructor_text, Request, env,
  rethrow, find_class, find_method, report_exception, report_output, call_class, report_error,
  without_error, handle_request, app_process_request,
}
use sa_wa.Towa.Telling.{read_throwable, get_jni_exception_calls-read_throwable, behind_same}
use sa_wa.Towa.RoundTrip.{first_part}
use sa_wa.Towa.Answers.{
  told, output_answer, exception_answer, class_answer, request_answer, processed, reply,
  reply-processed,
}

module _ (J : Jni) (pool : TowaAppPool) (unset fuel : ℕ) where
  abbrev finish : (Request J → Called Processed × Request J) → J.State → Called Processed × J.State
  finish run = without_error J (attempt run (report_error J))

  abbrev answered : Answer → J.State → Called Processed × J.State
  answered a = pure (processed unset a)

  -- A call inside the try block; one of findClass or findMethod sets a message if it fails.
  finish-env :
      {A : Type 0} (r : Called A × J.State) (k : A → Request J → Called Processed × Request J)
      (f : A → J.State → Called Answer × J.State)
      → ((a : A) (s : J.State) → finish (k a) s ≡ behind answered (f a s))
      → without_error J (λ s. caught (report_error J) (behind k (r.0, (r.1, none)))) r.1
        ≡ behind answered (told AppPool.caught f r)
  unfolding report_error processed
  finish-env (gave a, s) k f e = e a s
  finish-env (signal, s) k f e = refl
  finish-env (endless, s) k f e = refl

  finish-rethrow :
      (r : Called ℕ × J.State) (k : ℕ → Request J → Called Processed × Request J)
      (f : ℕ → J.State → Called Answer × J.State) (failure : Answer) (msg : Message)
      → processed unset failure ≡ replies msg
      → ((a : ℕ) (s : J.State) → finish (k a) s ≡ behind answered (f a s))
      → without_error J
          (λ s. caught (report_error J) (behind k (caught (rethrow J msg) (r.0, (r.1, none)))))
          r.1
        ≡ behind answered (told failure f r)
  unfolding report_error
  finish-rethrow (gave a, s) k f failure msg p e = e a s
  finish-rethrow (signal, s) k f failure msg p e = ap (λ x. (gave x, s)) (sym p)
  finish-rethrow (endless, s) k f failure msg p e = refl

  -- A call of the two reports, which leave errorMsg as it is.
  finish-call :
      {A : Type 0} (r : Called A × J.State) (k : A → J.State → Called Processed × J.State)
      (f : A → J.State → Called Answer × J.State)
      → ((a : A) (s : J.State) → finish (env J (k a)) s ≡ behind answered (f a s))
      → finish (env J (λ s. behind k r)) r.1 ≡ behind answered (told AppPool.caught f r)
  unfolding report_error processed
  finish-call (gave a, s) k f e = e a s
  finish-call (signal, s) k f e = refl
  finish-call (endless, s) k f e = refl

  finish-if :
      (b : Bool) (x y : J.State → Called Processed × J.State)
      (x' y' : J.State → Called Answer × J.State) (s : J.State)
      → finish (env J x) s ≡ behind answered (x' s)
      → finish (env J y) s ≡ behind answered (y' s)
      → finish (env J (if b then x else y)) s ≡ behind answered ((if b then x' else y') s)
  finish-if true x y x' y' s e d = e
  finish-if false x y x' y' s e d = d

  report_output-answer :
      (response : ℕ) (s : J.State)
      → finish (env J (report_output J pool unset response)) s
        ≡ behind answered (output_answer J pool fuel response s)
  unfolding report_output output_answer processed
  report_output-answer response s =
      finish-call (J.call_object_method response pool.response_class_get_output s) _ _
        (λ j_value s'.
          finish-if (j_value == 0) _ _ _ _ s' refl
            (finish-call (J.get_byte_array_elements j_value s') _ _ (λ memory s''. refl)))

  exception_page : Text → J.State → Called Processed × J.State
  exception_page error =
      pure (replies (message unset (towa_http_500 ∷ (codes "<pre>" ++ error ++ codes "</pre>"))))

  finish-shown :
      (r : Called Throwable × J.State)
      → finish
          (env J (λ s. behind exception_page (behind (λ t. pure (get_jni_exception t [])) r)))
          r.1
        ≡ behind answered (told AppPool.caught (λ t. pure (exception t)) r)
  unfolding report_error processed exception_page
  finish-shown (gave t, s) = refl
  finish-shown (signal, s) = refl
  finish-shown (endless, s) = refl

  report_exception-answer :
      (exc : ℕ) (s : J.State)
      → finish (env J (report_exception J pool unset fuel exc)) s
        ≡ behind answered (exception_answer J pool fuel exc s)
  unfolding report_exception exception_answer exception_page
  report_exception-answer exc s = finish-call (J.exception_clear s) _ _ (λ u s'.
      ap (λ r. finish (env J (λ s''. behind exception_page r)) s')
        (get_jni_exception_calls-read_throwable J pool fuel exc [] s')
      ∙ finish-shown (read_throwable J pool fuel exc s'))

  call_class-answer :
      (class_name : Text) (request : ℕ) (s : J.State)
      → finish (call_class J pool unset fuel class_name request) s
        ≡ behind answered (class_answer J pool fuel class_name request s)
  unfolding call_class class_answer find_class find_method processed
  call_class-answer class_name request s0 =
      finish-rethrow (J.find_class (c_str class_name) s0) _ _ _ _ refl (λ target_class s1.
        finish-rethrow (J.get_method_id target_class (codes "<init>") (codes "()V") s1) _ _ _ _ refl
          (λ constructor s2.
            finish-env (J.new_object target_class constructor [] s2) _ _ (λ target s3.
              finish-env (J.new_object pool.response_class pool.response_class_constructor [] s3) _
                _
                (λ response s4.
                  finish-rethrow (J.get_method_id target_class (codes "doGet") do_get s4) _ _ _ _
                    refl
                    (λ get_method s5.
                      finish-env (J.call_void_method target get_method (request ∷ response ∷ []) s5)
                        _ _
                        (λ u s6. finish-env (J.exception_occurred s6) _ _ (λ exc s7.
                          finish-if (exc == 0) _ _ _ _ s7 (report_output-answer response s7)
                            (report_exception-answer exc s7))))))))

  handle_request-answer :
      (method class_name query_string : Text) (s : J.State)
      → handle_request J pool unset fuel method class_name query_string s
        ≡ behind answered (request_answer J pool fuel method class_name query_string s)
  unfolding handle_request request_answer
  handle_request-answer method class_name query_string s =
      behind_same answered _ _ (get_towa_request J pool method query_string s)
        (λ request s'. call_class-answer class_name request s')

  -- For a message of two parts at least whose calls end in an answer.
  pub app_process_request-answer :
      (msg_in : Message) (m c : Text) (rest : List Text) (s s' : J.State) (a : Answer)
      → tokens msg_in.content ≡ m ∷ c ∷ rest
      → request_answer J pool fuel m c (first_part rest) s ≡ (gave a, s')
      → app_process_request J pool unset fuel msg_in s ≡ (gave (processed unset a), s')
  unfolding app_process_request first_part
  app_process_request-answer msg_in m c [] s s' a e r =
      rw (e, app_process_request) (handle_request-answer m c [] s ∙ ap (behind answered) r)
  app_process_request-answer msg_in m c (q ∷ rest) s s' a e r =
      rw (e, app_process_request) (handle_request-answer m c q s ∙ ap (behind answered) r)

  -- From a state in which the calls of each request end in some answer.
  module _ (s : J.State) (java : Text → Text → Text → Answer)
      (then_in : Text → Text → Text → J.State)
      (told_by : (m c q : Text)
        → request_answer J pool fuel m c q s ≡ (gave (java m c q), then_in m c q)) where
    app_process_request-parts :
        (msg_in : Message) (parts : List Text)
        → tokens msg_in.content ≡ parts
        → (p : Processed) × (s' : J.State) × (app_process_request J pool unset fuel msg_in s
            ≡ (gave p, s'))
          × (reply p ≡ process_towa_request unset java msg_in)
    unfolding app_process_request process_towa_request reply first_part
    app_process_request-parts msg_in [] e =
        (null_pointer, s, rw (e, app_process_request) refl, rw (e, process_towa_request) refl)
    app_process_request-parts msg_in (m ∷ []) e =
        (null_pointer, s, rw (e, app_process_request) refl, rw (e, process_towa_request) refl)
    app_process_request-parts msg_in (m ∷ c ∷ []) e = (
      processed unset (java m c []),
      then_in m c [],
      app_process_request-answer msg_in m c [] s _ _ e (told_by m c []),
      rw (e, process_towa_request) (reply-processed unset (java m c [])),
    )
    app_process_request-parts msg_in (m ∷ c ∷ q ∷ rest) e = (
      processed unset (java m c q),
      then_in m c q,
      app_process_request-answer msg_in m c (q ∷ rest) s _ _ e (told_by m c q),
      rw (e, process_towa_request) (reply-processed unset (java m c q)),
    )

  -- Of a machine whose calls for each request end in some answer, without a signal in front of the
  -- try block, processRequest ends for every message, and what it returns is what the abstract
  -- machine that gives these answers makes of the message.
  pub app_process_request-process_towa_request :
      (s : J.State) (java : Text → Text → Text → Answer) (then_in : Text → Text → Text → J.State)
      (msg_in : Message)
      → ((m c q : Text) → request_answer J pool fuel m c q s ≡ (gave (java m c q), then_in m c q))
      → (p : Processed) × (s' : J.State) × (app_process_request J pool unset fuel msg_in s
          ≡ (gave p, s'))
        × (reply p ≡ process_towa_request unset java msg_in)
  app_process_request-process_towa_request s java then_in msg_in told_by =
      app_process_request-parts s java then_in told_by msg_in (tokens msg_in.content) refl

  -- For a class that the machine reports as missing by a null pointer, as FindClass does, and where
  -- the search for a method of no class ends in a signal, the reply is that the constructor is not
  -- found, with the header of an error instead of that of a missing class.
  pub app_process_request-null_class :
      (msg_in : Message) (m c : Text) (rest : List Text) (request : ℕ) (s s1 s2 s3 : J.State)
      → tokens msg_in.content ≡ m ∷ c ∷ rest
      → get_towa_request J pool m (first_part rest) s ≡ (gave request, s1)
      → J.find_class (c_str c) s1 ≡ (gave 0, s2)
      → J.get_method_id 0 (codes "<init>") (codes "()V") s2 ≡ (signal, s3)
      → app_process_request J pool unset fuel msg_in s
        ≡ (gave (replies (message unset (towa_http_500 ∷ no_constructor_text c))), s3)
  unfolding processed request_answer
  app_process_request-null_class msg_in m c rest request s s1 s2 s3 e made missing faults =
      app_process_request-answer msg_in m c rest s s3 (no_method (no_constructor_text c)) e
        (rw (made, missing, faults, request_answer, class_answer) refl)
