-- ===== src/Client/Asking.antt =====
-- What the client's commands send, and show of the replies that the protocol promises.
use sa_wa.Base.{
  ℕ, ◌+◌, ◌&&◌, true, ◌||◌, ltb, lt→ltb, ◌*◌, ◌^◌, ◌≤◌, ◌<◌, ◌≡◌, refl, subst, sym, ap, ◌∙◌, Option,
  none, some, List, [], ◌∷◌, ◌>>=◌, arith, length, leb, ◌==◌, ==_iff, if◌then◌else◌, get_or,
  replicate, Bool-cases, inl, inr, length-replicate,
}
use mathlib.Core.Option.{some-injective, none-ne-some}
use sa_wa.Bytes.{bytes_of_u32, load_u32, load_u32-bytes_of_u32, fill, stale_bytes}
use sa_wa.Storage.{Recv, got, read_at, length-read_at, write_at}
use sa_wa.Util.Dump.{dump_mem}
use sa_wa.Sawa.{sawa_info, sawa_read, sawa_write, msg_noauth}
use sa_wa.Sawa.Protocol.{Request, encode, info, read, write, answer}
use sa_wa.Client.{
  SawaInterface, Outcome, returned, thrown, read_from_server, read_result, write_response,
  send_read_cmd, send_fill_cmd, send_info_cmd, send_single_cmd_to_server,
}
use sa_wa.Client.Commands.{
  framed, send_read_cmd_lem, send_write_cmd_lem, read_result_whole, read_result_single,
}
use sa_wa.Client.CommandLine.{
  Action, usage, send_info, send_stop, send_stat, test_server, send_command,
}
use sa_wa.Client.Running
use sa_wa.Client.Running.{
  Connecting, positive, unsent, Shown, no_connection, dumped, success, not_authorized, uncaught,
  show_read, show_response, with_interface, sawa_interface,
}
use sa_wa.Client.Program.{Ending, shows, sectors, Network, run_action}

-- The request that a command stands for. A write sends 4096 bytes, of which those behind the size are
-- what the message's memory held.
unfoldable pub request_of : (ℕ → ℕ) → Action → Option Request
request_of stale usage = none
request_of stale send_info = some info
request_of stale send_stop = none
request_of stale send_stat = none
request_of stale (test_server n) = none
request_of stale (send_command op offset size) =
    if leb size 0 || leb (2 ^ 31) size
    then none
    else if op == sawa_read
    then some (read offset size)
    else if op == sawa_write && leb size 4096
    then some (write offset (write_at 0 (replicate size 0xFF) (stale_bytes stale 9 4096)))
    else none

-- What the user is to be shown for a request to a disk.
unfoldable pub shown_for : ℕ → List ℕ → Request → Ending
shown_for nb disk info = sectors nb
shown_for nb disk (read offset size) =
    if leb (offset + size) (nb * 512)
    then shows (
        if size == 1
        then uncaught (get_or (read_at offset size disk) 0 0)
        else dumped (dump_mem true (read_at offset size disk) size))
    else shows (uncaught msg_noauth)
shown_for nb disk (write offset bytes) =
    if leb (offset + length bytes) (nb * 512) then shows success else shows not_authorized

single : (xs : List ℕ) → length xs ≡ 1 → xs ≡ get_or xs 0 0 ∷ []
single [] h = absurd (omega (arith, h))
single (x ∷ []) h = refl
single (x ∷ y ∷ xs) h = absurd (omega (arith, h))

module _ (stale : ℕ → ℕ) (nb : ℕ) (disk : List ℕ) (fits : nb * 512 < 2 ^ 32)
    (full : length disk ≡ nb * 512) where
  -- The end of sendReadCmd behind the server's reply.
  read_answered :
      (offset size : ℕ)
      → 0 < size
      → (result : Outcome (List ℕ)) × (read_result
            (read_from_server stale size (got (answer nb disk (read offset size)).1))
          ≡ some result)
        × (shows (show_read size result) ≡ shown_for nb disk (read offset size))
  unfolding answer shown_for show_read
  read_answered offset size h = elim (Bool-cases (leb (offset + size) (nb * 512))) [
    | inr out ↦ (
      thrown msg_noauth,
      rw out (read_result_single stale unsent offset size msg_noauth h),
      rw out refl,
    )
    | inl here ↦
        let bytes : List ℕ = read_at offset size disk in
        let n : length bytes ≡ size = length-read_at offset size disk (ground (arith, full)) in
        elim (Bool-cases (size == 1)) [
          | inl one ↦
              let e : bytes ≡ get_or bytes 0 0 ∷ [] = single bytes (n ∙ (==_iff size 1).0 one) in
              (
                thrown (get_or bytes 0 0),
                rw here (
                    ap (λ xs. read_result (read_from_server stale size (got xs))) e
                    ∙ read_result_single stale unsent offset size (get_or bytes 0 0) h),
                rw (here, one) refl,
              )
          | inr more ↦ (
            returned bytes,
            rw here (read_result_whole stale unsent offset size bytes n (ground arith)),
            rw (here, more) refl,
          )
        ]
  ]

  module _ (calls : Connecting) (reached : sawa_interface calls ≡ some unsent) (body : Recv) where
    -- The network, with the server's reply to a request.
    abbrev pub replying : Request → Network
    replying r = record { calls = calls; reply = got (answer nb disk r).1; body = body }

    info_answered :
        send_info_cmd unsent (got (bytes_of_u32 nb))
        ≡ some (send_single_cmd_to_server unsent sawa_info, returned nb)
    unfolding send_info_cmd fill bytes_of_u32 load_u32
    info_answered =
        ap
          (λ (o : Option ℕ). (o >>= λ n. some (returned n)) >>= λ (r : Outcome ℕ).
            some (send_single_cmd_to_server unsent sawa_info, r))
          (load_u32-bytes_of_u32 nb [] (omega (arith, fits)))

    info_runs : run_action stale (replying info) send_info ≡ some (framed info, sectors nb)
    unfolding run_action answer framed encode send_single_cmd_to_server with_interface bytes_of_u32
    info_runs = rw (reached, with_interface, info_answered) refl

    read_runs :
        (offset size : ℕ)
        → 0 < size
        → size < 2 ^ 31
        → run_action stale (replying (read offset size)) (send_command sawa_read offset size)
          ≡ some (framed (read offset size), shown_for nb disk (read offset size))
    unfolding run_action sa_wa.Client.Running.send_command
    read_runs offset size h small =
        let fits_int : ltb size (2 ^ 31) ≡ true = lt→ltb size (2 ^ 31) small in
        let (result, r, e) = read_answered offset size h in
        let (sawa', sent, on_wire) =
          send_read_cmd_lem stale unsent offset size (got (answer nb disk (read offset size)).1)
            result r small in
        rw (fits_int, reached, with_interface, sent) (λ i. some (on_wire.wire i, e i))

    write_answered :
        (offset : ℕ) (bytes : List ℕ)
        → shows (show_response (write_response (got (answer nb disk (write offset bytes)).1)))
          ≡ shown_for nb disk (write offset bytes)
    unfolding answer shown_for show_response write_response
    write_answered offset bytes = elim (Bool-cases (leb (offset + length bytes) (nb * 512))) [
      | inl here ↦ rw here refl
      | inr out ↦ rw out refl
    ]

    write_runs :
        (offset size : ℕ)
        → size ≤ 4096
        → run_action stale
            (replying (write offset (write_at 0 (replicate size 0xFF) (stale_bytes stale 9 4096))))
            (send_command sawa_write offset size)
          ≡ some (
            framed (write offset (write_at 0 (replicate size 0xFF) (stale_bytes stale 9 4096))),
            shown_for nb disk
                (write offset (write_at 0 (replicate size 0xFF) (stale_bytes stale 9 4096))),
          )
    unfolding run_action sa_wa.Client.Running.send_command send_fill_cmd
    write_runs offset size h =
        let bytes : List ℕ = write_at 0 (replicate size 0xFF) (stale_bytes stale 9 4096) in
        let (sawa', sent, on_wire) =
          send_write_cmd_lem stale unsent offset (replicate size 0xFF)
            (got (answer nb disk (write offset bytes)).1)
            (omega (arith, length-replicate {A = ℕ} size 0xFF)) in
        rw (reached, with_interface, sent)
          (λ i. some (on_wire.wire i, write_answered offset bytes i))

    -- What a command does with the reply to a request.
    abbrev pub Runs : Action → Request → Type 0
    Runs action r = run_action stale (replying r) action ≡ some (framed r, shown_for nb disk r)

    send_command-Runs :
        (op offset size : ℕ) (r : Request)
        → request_of stale (send_command op offset size) ≡ some r
        → Runs (send_command op offset size) r
    unfolding request_of
    send_command-Runs op offset size r h = elim (Bool-cases (leb size 0 || leb (2 ^ 31) size)) [
      | inl z ↦ absurd (none-ne-some r (sym (rw z refl) ∙ h))
      | inr nz ↦ elim (Bool-cases (op == sawa_read)) [
        | inl e ↦
            subst (Runs (send_command op offset size))
              (some-injective (read offset size) r (sym (rw (nz, e) refl) ∙ h))
              (subst (λ o. Runs (send_command o offset size) (read offset size))
                (sym ((==_iff op sawa_read).0 e))
                (read_runs offset size (ground (arith, nz)) (ground (arith, nz))))
        | inr ne ↦ elim (Bool-cases (op == sawa_write && leb size 4096)) [
          | inr w ↦ absurd (none-ne-some r (sym (rw (nz, ne, w) refl) ∙ h))
          | inl w ↦
              let bytes : List ℕ = write_at 0 (replicate size 0xFF) (stale_bytes stale 9 4096) in
              let is_write : op ≡ sawa_write = ground (arith, w) in
              subst (Runs (send_command op offset size))
                (some-injective (write offset bytes) r (sym (rw (nz, ne, w) refl) ∙ h))
                (subst (λ o. Runs (send_command o offset size) (write offset bytes)) (sym is_write)
                  (write_runs offset size (ground (arith, w))))
        ]
      ]
    ]

    pub action-Runs :
        (action : Action) (r : Request) → request_of stale action ≡ some r → Runs action r
    unfolding request_of shown_for
    action-Runs usage r h = absurd (none-ne-some r h)
    action-Runs send_info r h = subst (Runs send_info) (some-injective info r h) info_runs
    action-Runs send_stop r h = absurd (none-ne-some r h)
    action-Runs send_stat r h = absurd (none-ne-some r h)
    action-Runs (test_server n) r h = absurd (none-ne-some r h)
    action-Runs (send_command op offset size) r h = send_command-Runs op offset size r h
