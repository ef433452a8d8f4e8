-- ===== src/Towa/Telling.antt =====
-- What the calls to the Java machine tell: the answer of which processRequest makes its message.
use sa_wa.Base.{
  ℕ, zero, suc, ◌+◌, ◌≡◌, refl, ap, ◌∙◌, sym, Bool, true, false, List, [], ◌∷◌, ◌++◌, Text, codes,
  ◌==◌, if◌then◌else◌, append_assoc, append-nil,
}
use sa_wa.Towa.AppPool.{
  Throwable, no_cause, untraced, throwable, frame_lines, caused_by, get_jni_exception,
}
use sa_wa.Towa.Jni.{Called, gave, signal, endless, behind, ◌>>=◌, ◌>>◌, pure, Jni, TowaAppPool}
use sa_wa.Towa.Machine.{string_of, append_frames, get_jni_exception_calls}

-- What stands behind a call that also stands behind another one.
pub behind_same :
    {S A B C : Type 0} (h : B → S → Called C × S) (f : A → S → Called C × S)
    (g : A → S → Called B × S) (r : Called A × S)
    → ((a : A) (s : S) → f a s ≡ behind h (g a s))
    → behind f r ≡ behind h (behind g r)
behind_same h f g (gave a, s) e = e a s
behind_same h f g (signal, s) e = refl
behind_same h f g (endless, s) e = refl

pub behind_both :
    {S A B C D : Type 0} (h : B → S → Called C × S) (g : A → S → Called B × S)
    (k : D → S → Called C × S) (f : A → S → Called D × S) (r : Called A × S)
    → ((a : A) (s : S) → behind k (f a s) ≡ behind h (g a s))
    → behind k (behind f r) ≡ behind h (behind g r)
behind_both h g k f (gave a, s) e = e a s
behind_both h g k f (signal, s) e = refl
behind_both h g k f (endless, s) e = refl

pub if_same :
    {S B C : Type 0} (h : B → S → Called C × S) (b : Bool) (x y : S → Called C × S)
    (x' y' : S → Called B × S) (s : S)
    → x s ≡ behind h (x' s)
    → y s ≡ behind h (y' s)
    → (if b then x else y) s ≡ behind h ((if b then x' else y') s)
if_same h true x y x' y' s e d = e
if_same h false x y x' y' s e d = d

-- The calls that show a throwable, whose result is the throwable as it shows itself.
module _ (J : Jni) (pool : TowaAppPool) where
  unfoldable pub read_frames : ℕ → ℕ → ℕ → J.State → Called (List Text) × J.State
  unfolding string_of
  read_frames frames i zero = pure []
  read_frames frames i (suc left) = do
    frame ← J.get_object_array_element frames i
    text ← string_of J frame pool.stack_trace_element_class_to_string
    J.delete_local_ref frame
    texts ← read_frames frames (i + 1) left
    pure (text ∷ texts)

  unfoldable pub read_throwable : ℕ → ℕ → J.State → Called Throwable × J.State
  unfolding read_frames string_of
  read_throwable zero exc s = (endless, s)
  read_throwable (suc fuel) exc s =
      (do
        frames ← J.call_object_method exc pool.throwable_class_get_stack_trace
        n ← J.get_array_length frames
        if frames == 0 then (do texts ← read_frames frames 0 n; pure (untraced texts)) else (do
          text ← string_of J exc pool.throwable_class_to_string
          texts ← read_frames frames 0 n
          cause ← J.call_object_method exc pool.throwable_class_get_cause
          if cause == 0
              then pure (throwable text texts no_cause)
              else (do c ← read_throwable fuel cause; pure (throwable text texts c))))
        s

  -- The rest of GetJNIException behind the frames.
  abbrev after_frames : ℕ → ℕ → Text → J.State → Called Text × J.State
  after_frames fuel exc error = do
    cause ← J.call_object_method exc pool.throwable_class_get_cause
    if cause == 0 then pure error else get_jni_exception_calls J pool fuel cause error

  append_frames-read_frames :
      (frames i left : ℕ) (error : Text) (s : J.State)
      → append_frames J pool frames i left error s
        ≡ behind (λ texts. pure (error ++ frame_lines texts)) (read_frames frames i left s)
  unfolding append_frames read_frames frame_lines
  append_frames-read_frames frames i zero error s =
      ap (λ e. pure {S = J.State} e s) (sym (append-nil error))
  append_frames-read_frames frames i (suc left) error s =
      let h : List Text → J.State → Called Text × J.State =
        λ texts. pure (error ++ frame_lines texts) in
      behind_same h _ _ (J.get_object_array_element frames i s) (λ frame s1.
        behind_same h _ _ (string_of J frame pool.stack_trace_element_class_to_string s1)
          (λ text s2. behind_same h _ _ (J.delete_local_ref frame s2) (λ u s3.
            append_frames-read_frames frames (i + 1) left (error ++ codes "\n    " ++ text) s3
            ∙ behind_same h _ _ (read_frames frames (i + 1) left s3) (λ texts s4.
              ap (λ e. pure {S = J.State} e s4)
                (ap (λ e. e ++ frame_lines texts) (append_assoc error (codes "\n    ") text)
                  ∙ append_assoc error (codes "\n    " ++ text) (frame_lines texts))))))

  pub get_jni_exception_calls-read_throwable :
      (fuel exc : ℕ) (error : Text) (s : J.State)
      → get_jni_exception_calls J pool fuel exc error s
        ≡ behind (λ t. pure (get_jni_exception t error)) (read_throwable fuel exc s)
  unfolding get_jni_exception_calls read_throwable get_jni_exception
  get_jni_exception_calls-read_throwable zero exc error s = refl
  get_jni_exception_calls-read_throwable (suc fuel) exc error s =
      let h : Throwable → J.State → Called Text × J.State = λ t. pure (get_jni_exception t error) in
      behind_same h _ _ (J.call_object_method exc pool.throwable_class_get_stack_trace s)
        (λ frames s1. behind_same h _ _ (J.get_array_length frames s1) (λ n s2.
          if_same h (frames == 0) _ _ _ _ s2
            (append_frames-read_frames frames 0 n error s2
              ∙ behind_same h _ _ (read_frames frames 0 n s2) (λ texts s3. refl))
            (behind_same h _ _ (string_of J exc pool.throwable_class_to_string s2) (λ text s3.
              ap (behind (after_frames fuel exc))
                (append_frames-read_frames frames 0 n (caused_by error text) s3)
              ∙ behind_both h _ (after_frames fuel exc) _ (read_frames frames 0 n s3) (λ texts s4.
                behind_same h _ _ (J.call_object_method exc pool.throwable_class_get_cause s4)
                  (λ cause s5. if_same h (cause == 0) _ _ _ _ s5 refl (
                    get_jni_exception_calls-read_throwable fuel cause
                      (caused_by error text ++ frame_lines texts) s5
                    ∙ behind_same h _ _ (read_throwable fuel cause s5) (λ c s6. refl))))))))
