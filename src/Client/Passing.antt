-- ===== src/Client/Passing.antt =====
-- The client's self-test against the file server: threadTest of server/sawa_client_interface.cpp from
-- its first message on.
use sa_wa.Base.{
  ℕ, zero, suc, ◌+◌, ◌*◌, ◌^◌, ◌≤◌, ◌<◌, ◌≡◌, refl, sym, ap, ◌∙◌, ℤ, pos, Option, some, ◌>>=◌, true,
  List, [], ◌∷◌, ◌++◌, arith, length, append_assoc, append-nil, le→leb,
}
use sa_wa.Bytes.{bytes_of_u32}
use sa_wa.Storage.{FileOps, Recv, got, read_at, read_at-write_at, length-write_at, write_at}
use sa_wa.Sawa.{Session, read_data, msg_ok, sawa_info}
use sa_wa.Sawa.Protocol.{
  Request, encode, info, read, write, answer, answers, frames, IsDisk, Healthy, AreRequests,
}
use sa_wa.Sawa.Serving.{read_data-answers}
use sa_wa.Client.{
  SawaInterface, Outcome, returned, thrown, bad_size, send_read_cmd, send_write_cmd, write_response,
  send_single_cmd_to_server,
}
use sa_wa.Client.Commands.{framed, send_read_cmd_lem, send_write_cmd_page, read_result_whole}
use sa_wa.Client.SelfTest.{
  test_bytes, test_page, strncmp_equal, page_passes, page_reports, Report, exception, no_memory,
  thread_test,
}

-- The thread: INFO, whose reply is not looked at, and then the pages.
unfoldable pub self_test :
    (ℕ → ℕ) → SawaInterface → List (Recv × Recv) → Option (SawaInterface × List Report)
unfolding send_single_cmd_to_server thread_test
self_test stale sawa replies =
    thread_test stale (send_single_cmd_to_server sawa sawa_info) 0 replies

-- The requests for n pages from page i on, and the bytes that they are on the wire.
unfoldable pub page_requests : ℕ → ℕ → List Request
page_requests i zero = []
page_requests i (suc n) =
    write (i * 4096) (test_page i) ∷ read (i * 4096) 4096 ∷ page_requests (i + 1) n

unfoldable pub wire_of : List Request → List ℕ
wire_of [] = []
wire_of (r ∷ rs) = framed r ++ wire_of rs

-- The replies to them, as the client's reads get them and as the server writes them.
unfoldable pub page_replies : ℕ → ℕ → List (Recv × Recv)
page_replies i zero = []
page_replies i (suc n) = (got (msg_ok ∷ []), got (test_page i)) ∷ page_replies (i + 1) n

unfoldable pub replied_bytes : ℕ → ℕ → List ℕ
replied_bytes i zero = []
replied_bytes i (suc n) = (msg_ok ∷ []) ++ (test_page i ++ replied_bytes (i + 1) n)

length-test_bytes : (i j n : ℕ) → length (test_bytes i j n) ≡ n
unfolding test_bytes
length-test_bytes i j zero = refl
length-test_bytes i j (suc n) = ap suc (length-test_bytes i (j + 1) n)

length-test_page : (i : ℕ) → length (test_page i) ≡ 4096
unfolding test_page
length-test_page i = length-test_bytes i 0 4096

strncmp_equal_refl : (n : ℕ) (xs : List ℕ) → strncmp_equal n xs xs ≡ true
unfolding strncmp_equal
strncmp_equal_refl zero xs = refl
strncmp_equal_refl (suc n) [] = refl
strncmp_equal_refl (suc n) (zero ∷ xs) = refl
strncmp_equal_refl (suc n) (suc x ∷ xs) = ground (arith, strncmp_equal_refl n xs)

page_passes_self : (i : ℕ) → page_passes i (test_page i) ≡ true
unfolding page_passes
page_passes_self i = strncmp_equal_refl 4096 (test_page i)

-- The server's side.
answer_page :
    (nb i : ℕ) (disk : List ℕ) (rs : List Request)
    → length disk ≡ nb * 512
    → (i + 1) * 4096 ≤ nb * 512
    → answers nb disk (write (i * 4096) (test_page i) ∷ read (i * 4096) 4096 ∷ rs) ≡ (
      (answers nb (write_at (i * 4096) (test_page i) disk) rs).0,
      (msg_ok ∷ []) ++ (test_page i ++ (answers nb (write_at (i * 4096) (test_page i) disk) rs).1),
    )
unfolding answers answer
answer_page nb i disk rs n h =
    let page : List ℕ = test_page i in
    let long = length-test_page i in
    let fits = le→leb (i * 4096 + length page) (nb * 512) (omega arith) in
    let inside = le→leb (i * 4096 + 4096) (nb * 512) (omega arith) in
    let back : read_at (i * 4096) 4096 (write_at (i * 4096) page disk) ≡ page =
      ap (λ k. read_at (i * 4096) k (write_at (i * 4096) page disk)) (sym long)
      ∙ read_at-write_at (i * 4096) page disk in
    rw (fits, inside, back, answers, answer) refl

answers_pages :
    (nb i n : ℕ) (disk : List ℕ)
    → length disk ≡ nb * 512
    → (i + n) * 4096 ≤ nb * 512
    → (answers nb disk (page_requests i n)).1 ≡ replied_bytes i n
unfolding answers page_requests replied_bytes
answers_pages nb i zero disk l h = refl
answers_pages nb i (suc n) disk l h =
    ap (λ x. x.1) (answer_page nb i disk (page_requests (i + 1) n) l (omega arith))
    ∙ ap (λ x. (msg_ok ∷ []) ++ (test_page i ++ x))
        (answers_pages nb (i + 1) n (write_at (i * 4096) (test_page i) disk)
          (length-write_at (i * 4096) (test_page i) disk (omega (arith, length-test_page i)) ∙ l)
          (omega arith))

are_requests :
    (nb i n : ℕ) → nb * 512 < 2 ^ 32 → (i + n) * 4096 ≤ nb * 512 → AreRequests (page_requests i n)
unfolding page_requests
are_requests nb i zero f h = tt
are_requests nb i (suc n) f h = (
  (omega (arith, length-test_page i), omega (arith, length-test_page i)),
  (omega arith, are_requests nb (i + 1) n f (omega arith)),
)

-- The client's side: a page that the test gets through.
module _ (stale : ℕ → ℕ) (i : ℕ) (result : ℤ) (w r : Recv) (rest : List (Recv × Recv))
    (sawa sawa₁ sawa₂ sawa₃ : SawaInterface) (buffer : List ℕ) (reports : List Report) where
  thread_test_step :
      send_write_cmd stale sawa (test_page i) (i * 4096) w ≡ some (sawa₁, result)
      → send_read_cmd stale sawa₁ (i * 4096) 4096 r ≡ some (sawa₂, returned buffer)
      → thread_test stale sawa₂ (i + 1) rest ≡ some (sawa₃, reports)
      → thread_test stale sawa i ((w, r) ∷ rest)
        ≡ some (sawa₃, page_reports i result (page_passes i buffer) ++ reports)
  unfolding thread_test
  thread_test_step a b c =
      ap
        (λ x. x >>= λ (y, n).
          send_read_cmd stale y (i * 4096) 4096 r >>= λ (z, outcome). after_read n z outcome)
        a
      ∙ ap (λ x. x >>= λ (z, outcome). after_read result z outcome) b
      ∙ ap
          (λ x. x >>= λ (z, found). some (z, page_reports i result (page_passes i buffer) ++ found))
          c
    where
      after_read : ℤ → SawaInterface → Outcome (List ℕ) → Option (SawaInterface × List Report)
      after_read n z (thrown code) = some (z, exception code ∷ [])
      after_read n z bad_size = some (z, no_memory ∷ [])
      after_read n z (returned buffer_in) = do
        (z', found) ← thread_test stale z (i + 1) rest
        some (z', page_reports i n (page_passes i buffer_in) ++ found)

thread_test_pages :
    (stale : ℕ → ℕ) (i n : ℕ) (sawa : SawaInterface)
    → (sawa' : SawaInterface) × (thread_test stale sawa i (page_replies i n) ≡ some (sawa', []))
      × (sawa'.written ≡ sawa.written ++ wire_of (page_requests i n))
unfolding thread_test page_replies page_requests wire_of page_reports write_response
thread_test_pages stale i zero sawa = (sawa, refl, sym (append-nil sawa.written))
thread_test_pages stale i (suc n) sawa =
    let page : List ℕ = test_page i in
    let (sawa₁, e₁, sent₁) =
      send_write_cmd_page stale sawa (i * 4096) page (got (msg_ok ∷ [])) (length-test_page i) in
    let (sawa₂, e₂, sent₂) =
      send_read_cmd_lem stale sawa₁ (i * 4096) 4096 (got page) (returned page)
        (read_result_whole stale sawa (i * 4096) 4096 page (length-test_page i) (omega arith))
        (omega arith) in
    let (sawa₃, e₃, wire₃) = thread_test_pages stale (i + 1) n sawa₂ in
    (
      sawa₃,
      thread_test_step stale i (pos msg_ok) (got (msg_ok ∷ [])) (got page) (page_replies (i + 1) n)
            sawa sawa₁ sawa₂ sawa₃ page [] e₁ e₂ e₃
          ∙ ap (λ b. some (sawa₃, page_reports i (pos msg_ok) b ++ [])) (page_passes_self i),
      wire₃
          ∙ ap (λ w. w ++ wire_of (page_requests (i + 1) n))
              (sent₂.wire ∙ ap (λ w. w ++ framed (read (i * 4096) 4096)) sent₁.wire)
          ∙ append_assoc (sawa.written ++ framed (write (i * 4096) page))
              (framed (read (i * 4096) 4096)) (wire_of (page_requests (i + 1) n))
          ∙ append_assoc sawa.written (framed (write (i * 4096) page))
              (framed (read (i * 4096) 4096) ++ wire_of (page_requests (i + 1) n)),
    )

-- Against a server whose reads of messages are whole, whose stream calls do not fail, and whose disk
-- has room for n pages: a thread of the self-test over n pages, whose reads deliver the replies that the
-- server writes for the messages that the thread sends, reports nothing.
pub self_test-read_data :
    (F : FileOps) (ok : Healthy F) (stale : ℕ → ℕ) (memory : ℕ → ℕ → ℕ) (s : Session F)
    (sawa : SawaInterface) (n : ℕ)
    → IsDisk F s
    → n * 4096 ≤ s.nb_sectors * 512
    → (s' : Session F) × (sawa' : SawaInterface) × (self_test stale sawa (page_replies 0 n)
        ≡ some (sawa', []))
      × (sawa'.written ≡ sawa.written ++ wire_of (info ∷ page_requests 0 n))
      × (read_data F memory s (frames (info ∷ page_requests 0 n)) ≡ some s')
      × (s'.output ≡ s.output ++ (bytes_of_u32 s.nb_sectors ++ replied_bytes 0 n))
unfolding self_test send_single_cmd_to_server answers answer wire_of framed encode
self_test-read_data F ok stale memory s sawa n d h =
    let first : SawaInterface = send_single_cmd_to_server sawa sawa_info in
    let (sawa', tested, wire) = thread_test_pages stale 0 n first in
    let (s', ran, served) =
      read_data-answers F ok memory s (info ∷ page_requests 0 n) d
        (tt, are_requests s.nb_sectors 0 n d.fits (omega arith)) in
    (
      s',
      sawa',
      tested,
      wire ∙ append_assoc sawa.written (framed info) (wire_of (page_requests 0 n)),
      ran,
      served.output_eq
          ∙ ap (λ x. s.output ++ (bytes_of_u32 s.nb_sectors ++ x))
              (answers_pages s.nb_sectors 0 n (F.contents s.fp) d.full (omega arith)),
    )
