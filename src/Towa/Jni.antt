-- ===== src/Towa/Jni.antt =====
-- server/towa_app_pool.cpp: the Java machine as TowaAppPool uses it through JNI, and the constructor.
-- The machine is an interface; a reference is a number, 0 the null pointer.
use sa_wa.Base.{ℕ, zero, suc, List, [], ◌∷◌, Option, Text, codes}

-- What comes of a call: a value, the exception 42 that termination_handler throws when the call
-- ends in a segmentation fault, or no end on the fuel that is given.
pub data Called (A : Type 0) : Type 0 where
  gave : A → Called A
  signal : Called A
  endless : Called A

abbrev pub behind : {S A B : Type 0} → (A → S → Called B × S) → Called A × S → Called B × S
behind f (gave a, s) = f a s
behind f (signal, s) = (signal, s)
behind f (endless, s) = (endless, s)

infixl 5 ◌>>=◌ ◌>>◌
abbrev pub ◌>>=◌ : {S A B : Type 0} → (S → Called A × S) → (A → S → Called B × S) → S → Called B × S
◌>>=◌ m f s = behind f (m s)

abbrev pub ◌>>◌ :
    {S B : Type 0} → (S → Called (Unit {0}) × S) → (S → Called B × S) → S → Called B × S
◌>>◌ m k = m >>= λ _. k

abbrev pub pure : {S A : Type 0} → A → S → Called A × S
pure a s = (gave a, s)

abbrev pub caught : {S A : Type 0} → (S → Called A × S) → Called A × S → Called A × S
caught handler (gave a, s) = (gave a, s)
caught handler (signal, s) = handler s
caught handler (endless, s) = (endless, s)

-- try and catch.
abbrev pub attempt : {S A : Type 0} → (S → Called A × S) → (S → Called A × S) → S → Called A × S
attempt m handler s = caught handler (m s)

-- The functions of the machine that are called; any of them may change its state.
pub record Jni : Type 1 where
  pub State : Type 0
  -- JNI_CreateJavaVM with one option; it may fail.
  pub create_java_vm : Text → Option State
  pub new_string_utf : Text → State → Called ℕ × State
  pub find_class : Text → State → Called ℕ × State
  pub get_method_id : ℕ → Text → Text → State → Called ℕ × State
  pub new_object : ℕ → ℕ → List ℕ → State → Called ℕ × State
  pub call_object_method : ℕ → ℕ → State → Called ℕ × State
  pub call_void_method : ℕ → ℕ → List ℕ → State → Called (Unit {0}) × State
  pub get_array_length : ℕ → State → Called ℕ × State
  pub get_object_array_element : ℕ → ℕ → State → Called ℕ × State
  pub get_string_utf_chars : ℕ → State → Called Text × State
  pub release_string_utf_chars : ℕ → State → Called (Unit {0}) × State
  pub delete_local_ref : ℕ → State → Called (Unit {0}) × State
  -- The memory that the elements start.
  pub get_byte_array_elements : ℕ → State → Called (List ℕ) × State
  pub exception_occurred : State → Called ℕ × State
  pub exception_clear : State → Called (Unit {0}) × State

-- The fields that the constructor sets.
pub record TowaAppPool : Type 0 where
  pub request_class : ℕ
  pub request_class_constructor : ℕ
  pub response_class : ℕ
  pub response_class_constructor : ℕ
  pub response_class_get_output : ℕ
  pub throwable_class : ℕ
  pub throwable_class_get_cause : ℕ
  pub throwable_class_get_stack_trace : ℕ
  pub throwable_class_to_string : ℕ
  pub stack_trace_element_class : ℕ
  pub stack_trace_element_class_to_string : ℕ

-- The characters in front of a text's first 0, which is what a function sees that gets c_str().
unfoldable pub c_str : Text → Text
c_str [] = []
c_str (zero ∷ s) = []
c_str (suc c ∷ s) = suc c ∷ c_str s

abbrev pub classpath_option : Text
classpath_option = codes "-Djava.class.path=./classpath/servlet-api.jar:./classpath/"

module _ (J : Jni) where
  -- The part of the constructor in its try block; `unset` is what a field holds before.
  unfoldable pub find_request_class : ℕ → J.State → Called (ℕ × ℕ) × J.State
  find_request_class unset =
      attempt
        (do
          class ← J.find_class (codes "TowaRequest")
          constructor ←
              attempt
                (J.get_method_id class (codes "<init>")
                  (codes "(Ljava/lang/String;Ljava/lang/String;)V"))
                (pure unset)
          pure (class, constructor))
        (pure (unset, unset))

  -- TowaAppPool::TowaAppPool behind the creation of the machine.
  unfoldable pub towa_app_pool : ℕ → J.State → Called TowaAppPool × J.State
  unfolding find_request_class
  towa_app_pool unset = do
    (request, request_init) ← find_request_class unset
    response ← J.find_class (codes "TowaResponse")
    response_init ← J.get_method_id response (codes "<init>") (codes "()V")
    get_output ← J.get_method_id response (codes "getOutput") (codes "()[B")
    throwable ← J.find_class (codes "java/lang/Throwable")
    get_cause ← J.get_method_id throwable (codes "getCause") (codes "()Ljava/lang/Throwable;")
    get_trace ←
        J.get_method_id throwable (codes "getStackTrace") (codes "()[Ljava/lang/StackTraceElement;")
    to_string ← J.get_method_id throwable (codes "toString") (codes "()Ljava/lang/String;")
    element ← J.find_class (codes "java/lang/StackTraceElement")
    element_to_string ← J.get_method_id element (codes "toString") (codes "()Ljava/lang/String;")
    pure (record {
      request_class = request;
      request_class_constructor = request_init;
      response_class = response;
      response_class_constructor = response_init;
      response_class_get_output = get_output;
      throwable_class = throwable;
      throwable_class_get_cause = get_cause;
      throwable_class_get_stack_trace = get_trace;
      throwable_class_to_string = to_string;
      stack_trace_element_class = element;
      stack_trace_element_class_to_string = element_to_string;
    })
