-- ===== src/Examples/Machine.antt =====
-- The process of the Java classes, at a small machine.
use sa_wa.Base.{
  true, zero, suc, ℕ, ◌+◌, ◌≡◌, refl, pos, some, List, [], ◌∷◌, ◌++◌, Text, codes, arith, map,
  c_string,
}
use sa_wa.Towa.{send_msg, message, tokens, read_message, request_text, towa_http_500}
use sa_wa.Towa.AppPool.{output, respond, process_towa_request}
use sa_wa.Towa.Jni.{gave, signal, Jni, TowaAppPool, towa_app_pool}
use sa_wa.Towa.Machine.{
  Processed, replies, no_constructor_text, app_process_request, get_towa_request,
}
use sa_wa.Towa.Process.{listening, towa_main, callback}
use sa_wa.Towa.Answers.{reply, request_answer}
use sa_wa.Towa.Answering.{app_process_request-process_towa_request, app_process_request-null_class}
use sa_wa.Towa.Listening.{Asked, received, asks, Tells, towa_main-Tells}
use sa_wa.Towa.RoundTrip.{NoBar}
use sa_wa.Http.Request.{HttpRequest, is_valid}
use sa_wa.Http.Serve.{Environment, answer_request, respond_with, http_200_col}
use sa_wa.Http.Framing.{content_length, body_of}
use sa_wa.Http.Java.{answer_request-request_answer}
use sa_wa.Examples.Http.{environment, fresh}

-- A machine whose state counts the objects, with one class, or with none.
abbrev machine : ℕ → Jni
machine class = record {
  State = ℕ;
  create_java_vm = λ option. some 0;
  new_string_utf = λ text s. (gave 1, s);
  find_class = λ name s. (gave class, s);
  get_method_id = λ c name type s. elim c [ zero ↦ (signal, s) | suc n ↦ (gave 2, s) ];
  new_object = λ c constructor arguments s. (gave 3, s + 1);
  call_object_method = λ object method s. (gave 4, s);
  call_void_method = λ object method arguments s. (gave tt, s);
  get_array_length = λ array s. (gave 0, s);
  get_object_array_element = λ array i s. (gave 0, s);
  get_string_utf_chars = λ text s. (gave [], s);
  release_string_utf_chars = λ text s. (gave tt, s);
  delete_local_ref = λ object s. (gave tt, s);
  get_byte_array_elements = λ array s. (gave (codes "hi" ++ (0 ∷ [])), s);
  exception_occurred = λ s. (gave 0, s);
  exception_clear = λ s. (gave tt, s);
}

abbrev pool : TowaAppPool
pool = record {
  request_class = 5;
  request_class_constructor = 2;
  response_class = 5;
  response_class_constructor = 2;
  response_class_get_output = 2;
  throwable_class = 5;
  throwable_class_get_cause = 2;
  throwable_class_get_stack_trace = 2;
  throwable_class_to_string = 2;
  stack_trace_element_class = 5;
  stack_trace_element_class_to_string = 2;
}

abbrev asked : List Asked
asked =
    record { verb = codes "GET"; classname = codes "A"; query = [] }
    ∷ record { verb = codes "GET"; classname = codes "B"; query = codes "x" }
    ∷ []

towa_main-Tells_example :
    (pongs : List (List ℕ)) × (towa_main
        (machine 5)
        (λ i. 7)
        0
        9
        (pos 0, 0)
        (pos 0, 0)
        (map (asks 0) asked)
      ≡ listening 6 pongs)
    × (map (read_message (λ i. 7) 0 true) pongs
        ≡ map received ((1, codes "hi") ∷ (1, codes "hi") ∷ []))
unfolding towa_app_pool Tells request_answer respond c_string message NoBar request_text
    sa_wa.Main.Startup.towa_pipe
towa_main-Tells_example =
    towa_main-Tells (machine 5) pool (λ i. 7) 0 9 (pos 0, 0) (pos 0, 0) asked
      ((1, codes "hi") ∷ (1, codes "hi") ∷ []) 0 0 6 refl refl refl
      (
        output (codes "hi" ++ (0 ∷ [])),
        3,
        record {
          verb_whole = (omega arith, (omega arith, (omega arith, tt)));
          class_whole = (omega arith, tt);
          query_whole = tt;
          short = omega arith;
        },
        refl,
        refl,
        omega arith,
        (
          output (codes "hi" ++ (0 ∷ [])),
          6,
          record {
            verb_whole = (omega arith, (omega arith, (omega arith, tt)));
            class_whole = (omega arith, tt);
            query_whole = (omega arith, tt);
            short = omega arith;
          },
          refl,
          refl,
          omega arith,
          refl,
        ),
      )

app_process_request-process_towa_request_example :
    (p : Processed) × (s' : ℕ) × (app_process_request
        (machine 5)
        pool
        0
        9
        (message 0 (codes "GET|A"))
        0
      ≡ (gave p, s'))
    × (reply p
        ≡ process_towa_request 0
            (λ m c q. output (codes "hi" ++ (0 ∷ [])))
            (message 0 (codes "GET|A")))
unfolding request_answer
app_process_request-process_towa_request_example =
    app_process_request-process_towa_request (machine 5) pool 0 9 0
      (λ m c q. output (codes "hi" ++ (0 ∷ []))) (λ m c q. 3) (message 0 (codes "GET|A"))
      (λ m c q. refl)

app_process_request-null_class_example :
    app_process_request (machine 0) pool 0 9 (message 0 (codes "GET|A")) 0
    ≡ (gave (replies (message 0 (towa_http_500 ∷ no_constructor_text (codes "A")))), 1)
unfolding tokens get_towa_request message
app_process_request-null_class_example =
    app_process_request-null_class (machine 0) pool 0 9 (message 0 (codes "GET|A")) (codes "GET")
      (codes "A") [] 3 0 1 1 1 refl refl refl refl

-- The server whose Java classes run on the machine.
abbrev java_server : Environment
java_server = record environment {
  towa = some (send_msg (λ i. 7) 0 (callback (machine 5) (λ i. 7) 0 9 pool 0));
}

abbrev ask_class : HttpRequest
ask_class = record { path = codes "/A"; query_string = []; keep_alive = true }

answer_request-request_answer_example :
    (response : Text) × (answer_request java_server fresh ask_class
      ≡ some (respond_with fresh http_200_col response, true))
    × (content_length response ≡ some 2)
    × (body_of response ≡ some (codes "hi"))
unfolding request_answer respond c_string message NoBar request_text is_valid
answer_request-request_answer_example =
    answer_request-request_answer (machine 5) pool (λ i. 7) 0 9 0 3 java_server fresh ask_class
      (output (codes "hi" ++ (0 ∷ []))) 1 (codes "hi") refl refl
      (record {
        verb_whole = (omega arith, (omega arith, (omega arith, tt)));
        class_whole = (omega arith, tt);
        query_whole = tt;
        short = omega arith;
      })
      refl refl (omega arith)
