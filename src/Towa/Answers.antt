-- ===== src/Towa/Answers.antt =====
-- The answers that the calls for a request tell, and what processRequest makes of them.
use sa_wa.Base.{
  ℕ, ◌≡◌, refl, [], ◌∷◌, ◌++◌, Option, none, some, Text, codes, c_string, ◌==◌, if◌then◌else◌,
  Option-cases, inl, inr, arith,
}
use sa_wa.Towa.{Message, message, towa_http_404, towa_http_500}
use sa_wa.Towa.AppPool.{
  Answer, output, no_output, exception, no_class, no_method, Throwable, get_jni_exception, respond,
  process_towa_request,
}
use sa_wa.Towa.AppPool
use sa_wa.Towa.Jni.{Called, gave, signal, endless, ◌>>=◌, pure, Jni, TowaAppPool, c_str}
use sa_wa.Towa.Machine.{
  Processed, replies, null_pointer, undefined, get_towa_request, do_get, no_class_text,
  no_constructor_text, no_method_text, page_of,
}
use sa_wa.Towa.Telling.{read_throwable}

-- A call, and the answer if it ends in a signal.
abbrev pub told :
    {S A : Type 0} → Answer → (A → S → Called Answer × S) → Called A × S → Called Answer × S
told e f (gave a, s) = f a s
told e f (signal, s) = (gave e, s)
told e f (endless, s) = (endless, s)

-- The answer that the calls for a request tell.
module _ (J : Jni) (pool : TowaAppPool) (fuel : ℕ) where
  unfoldable pub output_answer : ℕ → J.State → Called Answer × J.State
  output_answer response s =
      told AppPool.caught
        (λ j_value s'.
          (if j_value == 0 then pure no_output else (λ s''.
              told AppPool.caught (λ memory. pure (output memory))
                (J.get_byte_array_elements j_value s'')))
            s')
        (J.call_object_method response pool.response_class_get_output s)

  unfoldable pub exception_answer : ℕ → J.State → Called Answer × J.State
  unfolding read_throwable
  exception_answer exc s =
      told AppPool.caught
        (λ u s'. told AppPool.caught (λ t. pure (exception t)) (read_throwable J pool fuel exc s'))
        (J.exception_clear s)

  unfoldable pub class_answer : Text → ℕ → J.State → Called Answer × J.State
  unfolding output_answer exception_answer
  class_answer class_name request s0 =
      told (no_class (no_class_text class_name))
        (λ target_class s1.
          told (no_method (no_constructor_text class_name))
            (λ constructor s2.
              told AppPool.caught
                (λ target s3.
                  told AppPool.caught
                    (λ response s4.
                      told (no_method (no_method_text class_name))
                        (λ get_method s5.
                          told AppPool.caught
                            (λ u s6.
                              told AppPool.caught
                                (λ exc.
                                  if exc == 0 then output_answer response else exception_answer exc)
                                (J.exception_occurred s6))
                            (J.call_void_method target get_method (request ∷ response ∷ []) s5))
                        (J.get_method_id target_class (codes "doGet") do_get s4))
                    (J.new_object pool.response_class pool.response_class_constructor [] s3))
                (J.new_object target_class constructor [] s2))
            (J.get_method_id target_class (codes "<init>") (codes "()V") s1))
        (J.find_class (c_str class_name) s0)

  unfoldable pub request_answer : Text → Text → Text → J.State → Called Answer × J.State
  unfolding class_answer get_towa_request
  request_answer method class_name query_string = do
    request ← get_towa_request J pool method query_string
    class_answer class_name request

-- What processRequest makes of an answer.
unfoldable pub processed : ℕ → Answer → Processed
unfolding page_of message get_jni_exception
processed unset (output memory) = page_of unset memory
processed unset no_output = null_pointer
processed unset (exception e) =
    replies
      (message unset (towa_http_500 ∷ (codes "<pre>" ++ get_jni_exception e [] ++ codes "</pre>")))
processed unset (no_class text) = replies (message unset (towa_http_404 ∷ text))
processed unset (no_method text) = replies (message unset (towa_http_500 ∷ text))
processed unset AppPool.caught = undefined

-- The message, if there is one.
unfoldable pub reply : Processed → Option Message
reply (replies msg) = some msg
reply null_pointer = none
reply undefined = none

pub reply-processed : (unset : ℕ) (a : Answer) → reply (processed unset a) ≡ respond unset a
unfolding reply processed respond page_of
reply-processed unset (output memory) = elim (Option-cases (c_string memory)) [
  | inl e ↦ ground (arith, e)
  | inr (s, e) ↦ ground (arith, e)
]
reply-processed unset no_output = refl
reply-processed unset (exception e) = refl
reply-processed unset (no_class text) = refl
reply-processed unset (no_method text) = refl
reply-processed unset AppPool.caught = refl

pub reply-replies : (p : Processed) (msg : Message) → reply p ≡ some msg → p ≡ replies msg
unfolding reply
reply-replies (replies m) msg e = cc e
reply-replies null_pointer msg e = absurd (cc e)
reply-replies undefined msg e = absurd (cc e)
