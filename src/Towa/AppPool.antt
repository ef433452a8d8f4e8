-- ===== src/Towa/AppPool.antt =====
-- TowaAppPool of server/towa_app_pool.cpp: the process that runs the Java classes. The Java machine
-- is a parameter: what comes of calling a class's doGet.
use sa_wa.Base.{ℕ, Option, none, some, List, [], ◌∷◌, ◌++◌, Text, codes, c_string, ◌>>=◌}
use sa_wa.Towa.{Message, message, tokens, towa_http_200, towa_http_404, towa_http_500}

-- A throwable: its text, those of its stack's frames and its cause.
pub data Throwable : Type 0 where
  no_cause : Throwable
  -- Without an array of frames: only what is found for frames is shown.
  untraced : List Text → Throwable
  throwable : Text → List Text → Throwable → Throwable

pub data Answer : Type 0 where
  -- The memory that the elements of the output's array start.
  output : List ℕ → Answer
  no_output : Answer
  exception : Throwable → Answer
  -- findClass or findMethod has thrown, with its text.
  no_class : Text → Answer
  no_method : Text → Answer
  -- A signal was caught elsewhere: no message is set.
  caught : Answer

unfoldable pub frame_lines : List Text → Text
frame_lines [] = []
frame_lines (f ∷ fs) = codes "\n    " ++ f ++ frame_lines fs

-- The text of a throwable, behind the error so far.
unfoldable pub caused_by : Text → Text → Text
caused_by [] text = text
caused_by (c ∷ error) text = (c ∷ error) ++ codes "\nCaused by: " ++ text

unfoldable pub get_jni_exception : Throwable → Text → Text
unfolding frame_lines caused_by
get_jni_exception no_cause error = error
get_jni_exception (untraced frames) error = error ++ frame_lines frames
get_jni_exception (throwable text frames cause) error =
    get_jni_exception cause (caused_by error text ++ frame_lines frames)

-- The end of processRequest: its message's first byte is the header.
unfoldable pub respond : ℕ → Answer → Option Message
unfolding message get_jni_exception
respond unset (output memory) = do s ← c_string memory; some (message unset (towa_http_200 ∷ s))
respond unset no_output = none
respond unset (exception e) =
    some
      (message unset (towa_http_500 ∷ (codes "<pre>" ++ get_jni_exception e [] ++ codes "</pre>")))
respond unset (no_class text) = some (message unset (towa_http_404 ∷ text))
respond unset (no_method text) = some (message unset (towa_http_500 ∷ text))
respond unset caught = none

-- Where there are less than two parts, or no output, the null pointer that is returned is
-- dereferenced by listenToMsg.
unfoldable pub process_towa_request : ℕ → (Text → Text → Text → Answer) → Message → Option Message
unfolding respond
process_towa_request unset java msg_in = elim (tokens msg_in.content) [
  | [] ↦ none
  | (m ∷ []) ↦ none
  | (m ∷ class_name ∷ []) ↦ respond unset (java m class_name [])
  | (m ∷ class_name ∷ query ∷ rest) ↦ respond unset (java m class_name query)
]
