-- ===== src/Towa/Machine.antt =====
-- TowaAppPool of server/towa_app_pool.cpp as the calls that it makes to the Java machine.
use sa_wa.Base.{
  ℕ, zero, suc, ◌+◌, List, [], ◌∷◌, ◌++◌, Option, none, some, Text, codes, c_string, ◌==◌,
  if◌then◌else◌,
}
use sa_wa.Towa.{Message, message, tokens, towa_http_200, towa_http_404, towa_http_500}
use sa_wa.Towa.AppPool.{caused_by}
use sa_wa.Towa.Jni.{
  Called, gave, signal, endless, ◌>>=◌, ◌>>◌, pure, attempt, Jni, TowaAppPool, c_str,
}

-- What processRequest returns: a message, a null pointer, or a pointer that was never set or that is
-- behind an array.
pub data Processed : Type 0 where
  replies : Message → Processed
  null_pointer : Processed
  undefined : Processed

abbrev pub do_get : Text
do_get = codes "(Ljavax/servlet/http/HttpServletRequest;Ljavax/servlet/http/HttpServletResponse;)V"

abbrev pub no_class_text : Text → Text
no_class_text class_name = codes "Cannot find " ++ class_name ++ codes ".class"

abbrev pub no_constructor_text : Text → Text
no_constructor_text class_name =
    codes "Cannot find contructor for class " ++ class_name ++ codes ".class"

abbrev pub no_method_text : Text → Text
no_method_text class_name =
    codes "Cannot find method 'doGet' in class " ++ class_name ++ codes ".class"

unfoldable pub page_of : ℕ → List ℕ → Processed
unfolding message
page_of unset memory = elim (c_string memory) [
  | none ↦ undefined
  | some s ↦ replies (message unset (towa_http_200 ∷ s))
]

module _ (J : Jni) where
  -- The characters of what a method of an object returns, a string.
  unfoldable pub string_of : ℕ → ℕ → J.State → Called Text × J.State
  string_of object method = do
    msg_obj ← J.call_object_method object method
    msg_str ← J.get_string_utf_chars msg_obj
    J.release_string_utf_chars msg_obj
    J.delete_local_ref msg_obj
    pure msg_str

  -- The state of a request: the machine's, and errorMsg.
  abbrev pub Request : Type 0
  Request = J.State × Option Message

  abbrev pub env : {A : Type 0} → (J.State → Called A × J.State) → Request → Called A × Request
  env call (s, error_msg) = let (c, s') = call s in (c, (s', error_msg))

  -- The catch blocks of findClass and findMethod.
  abbrev pub rethrow : Message → Request → Called ℕ × Request
  rethrow error_msg (s, old) = (signal, (s, some error_msg))

  unfoldable pub find_class : ℕ → Text → Text → Request → Called ℕ × Request
  unfolding message c_str
  find_class unset class_name error_txt =
      attempt (env (J.find_class (c_str class_name)))
        (rethrow (message unset (towa_http_404 ∷ error_txt)))

  unfoldable pub find_method : ℕ → ℕ → Text → Text → Text → Request → Called ℕ × Request
  unfolding message
  find_method unset the_class method params error_txt =
      attempt (env (J.get_method_id the_class method params))
        (rethrow (message unset (towa_http_500 ∷ error_txt)))

  -- The catch block: without a message msg_out was never set.
  unfoldable pub report_error : Request → Called Processed × Request
  report_error (s, none) = (gave undefined, (s, none))
  report_error (s, some msg) = (gave (replies msg), (s, some msg))

  -- errorMsg is unset in front of the try block, and not looked at behind it.
  abbrev pub without_error :
      {A : Type 0} → (Request → Called A × Request) → J.State → Called A × J.State
  without_error run s = let (c, (s', error_msg)) = run (s, none) in (c, s')

module _ (J : Jni) (pool : TowaAppPool) where
  unfoldable pub get_towa_request : Text → Text → J.State → Called ℕ × J.State
  unfolding c_str
  get_towa_request method query_string = do
    jmethod ← J.new_string_utf (c_str method)
    jquery_string ← J.new_string_utf (c_str query_string)
    J.new_object pool.request_class pool.request_class_constructor (jmethod ∷ jquery_string ∷ [])

  -- The loop over the frames, `left` of them from the i-th on.
  unfoldable pub append_frames : ℕ → ℕ → ℕ → Text → J.State → Called Text × J.State
  unfolding string_of
  append_frames frames i zero error = pure error
  append_frames frames i (suc left) error = do
    frame ← J.get_object_array_element frames i
    msg_str ← string_of J frame pool.stack_trace_element_class_to_string
    J.delete_local_ref frame
    append_frames frames (i + 1) left (error ++ codes "\n    " ++ msg_str)

  -- GetJNIException, with fuel for the exceptions of the chain of causes.
  unfoldable pub get_jni_exception_calls : ℕ → ℕ → Text → J.State → Called Text × J.State
  unfolding append_frames caused_by string_of
  get_jni_exception_calls zero exc error s = (endless, s)
  get_jni_exception_calls (suc fuel) exc error s =
      (do
        frames ← J.call_object_method exc pool.throwable_class_get_stack_trace
        frames_length ← J.get_array_length frames
        if frames == 0 then append_frames frames 0 frames_length error else do
          msg_str ← string_of J exc pool.throwable_class_to_string
          error' ← append_frames frames 0 frames_length (caused_by error msg_str)
          cause ← J.call_object_method exc pool.throwable_class_get_cause
          if cause == 0 then pure error' else get_jni_exception_calls fuel cause error')
        s

  -- The message behind a call of doGet, with an exception or without one.
  unfoldable pub report_exception : ℕ → ℕ → ℕ → J.State → Called Processed × J.State
  unfolding get_jni_exception_calls message
  report_exception unset fuel exc = do
    J.exception_clear
    error ← get_jni_exception_calls fuel exc []
    pure (replies (message unset (towa_http_500 ∷ (codes "<pre>" ++ error ++ codes "</pre>"))))

  unfoldable pub report_output : ℕ → ℕ → J.State → Called Processed × J.State
  unfolding page_of
  report_output unset response = do
    j_value ← J.call_object_method response pool.response_class_get_output
    if j_value == 0
        then pure null_pointer
        else do memory ← J.get_byte_array_elements j_value; pure (page_of unset memory)

  -- The try block.
  unfoldable pub call_class : ℕ → ℕ → Text → ℕ → Request J → Called Processed × Request J
  unfolding find_class find_method report_exception report_output
  call_class unset fuel class_name request = do
    target_class ← find_class J unset class_name (no_class_text class_name)
    constructor ←
        find_method J unset target_class (codes "<init>") (codes "()V")
          (no_constructor_text class_name)
    target ← env J (J.new_object target_class constructor [])
    response ← env J (J.new_object pool.response_class pool.response_class_constructor [])
    get_method ← find_method J unset target_class (codes "doGet") do_get (no_method_text class_name)
    env J (J.call_void_method target get_method (request ∷ response ∷ []))
    exc ← env J J.exception_occurred
    env J (if exc == 0 then report_output unset response else report_exception unset fuel exc)

  unfoldable pub handle_request : ℕ → ℕ → Text → Text → Text → J.State → Called Processed × J.State
  unfolding get_towa_request call_class report_error
  handle_request unset fuel method class_name query_string = do
    request ← get_towa_request method query_string
    without_error J (attempt (call_class unset fuel class_name request) (report_error J))

  -- TowaAppPool::processRequest.
  unfoldable pub app_process_request : ℕ → ℕ → Message → J.State → Called Processed × J.State
  unfolding tokens handle_request
  app_process_request unset fuel msg_in s = elim (tokens msg_in.content) [
    | [] ↦ (gave null_pointer, s)
    | (m ∷ []) ↦ (gave null_pointer, s)
    | (m ∷ class_name ∷ []) ↦ handle_request unset fuel m class_name [] s
    | (m ∷ class_name ∷ query ∷ rest) ↦ handle_request unset fuel m class_name query s
  ]
