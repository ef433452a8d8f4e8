-- ===== src/Client/Commands.antt =====
-- The messages that the client's commands send, against the protocol's encoding.
use sa_wa.Base.{
  ◌^◌, ◌<◌, lt→ltb, ℕ, suc, ◌+◌, ◌-◌, ◌≤◌, ◌≡◌, ◌≢◌, refl, sym, ap, ◌∙◌, false, none, some, List,
  [], ◌∷◌, ◌++◌, arith, length, length-append, take, take-all, ◌==◌, le→leb, lt→leb,
}
use sa_wa.Bytes.{
  bytes_of_u32, length-bytes_of_u32, stale_bytes, length-stale_bytes, fill, fill-nil, fill-exact,
}
use sa_wa.Storage.{Recv, got, write_at, length-write_at, write_at_zero}
use sa_wa.Sawa.Protocol.{Request, read, write, encode}
use sa_wa.Client.{
  SawaInterface, Outcome, returned, thrown, prepare_command, store_payload, send_cmd_to_server,
  read_from_server, read_result, send_read_cmd, write_response, send_write_cmd,
}

-- A message behind its size, as it stands on the wire.
unfoldable pub framed : Request → List ℕ
framed r = bytes_of_u32 (length (encode r)) ++ encode r

-- An interface that holds a message for `op` with this payload.
abbrev holding : SawaInterface → ℕ → ℕ → List ℕ → SawaInterface
holding sawa op n payload = record sawa {
  buffer_out = bytes_of_u32 (n + 1) ++ op ∷ payload;
  total_size = 4 + 1 + n;
}

module _ (stale : ℕ → ℕ) (sawa : SawaInterface) (op : ℕ) where
  prepare_command_lem :
      (n : ℕ) → prepare_command stale sawa op n ≡ some (holding sawa op n (stale_bytes stale 5 n))
  unfolding prepare_command stale_bytes write_at bytes_of_u32
  prepare_command_lem n =
      let size : 4 + 1 + n ≡ suc (suc (suc (suc (suc n)))) = omega arith in
      let len = length-stale_bytes stale 5 n in
      rw (fill-nil stale (4 + 1 + n), size) (ground (arith, len))

  store_payload_lem :
      (n at : ℕ) (bytes payload : List ℕ)
      → length payload ≡ n
      → at + length bytes ≤ n
      → store_payload (holding sawa op n payload) at bytes
        ≡ some (holding sawa op n (write_at at bytes payload))
  unfolding store_payload write_at bytes_of_u32
  store_payload_lem n at bytes payload h k =
      let place : 5 + at ≡ suc (suc (suc (suc (suc at)))) = omega arith in
      rw
        (
          place,
          le→leb (suc (suc (suc (suc (suc at)))) + length bytes)
              (suc (suc (suc (suc (suc (length payload)))))) (omega arith),
        )
        refl

  store_payload_outside :
      (n at : ℕ) (bytes payload : List ℕ)
      → length payload ≡ n
      → n < at + length bytes
      → store_payload (holding sawa op n payload) at bytes ≡ none
  unfolding store_payload bytes_of_u32
  store_payload_outside n at bytes payload h k =
      rw (
        lt→leb (5 + at + length bytes) (suc (suc (suc (suc (suc (length payload)))))) (omega arith))

  send_cmd_to_server_lem :
      (n : ℕ) (payload : List ℕ)
      → length payload ≡ n
      → send_cmd_to_server (holding sawa op n payload)
        ≡ some (record {
          buffer_out = [];
          total_size = 4 + 1 + n;
          written = sawa.written ++ (bytes_of_u32 (n + 1) ++ op ∷ payload);
        })
  unfolding send_cmd_to_server bytes_of_u32
  send_cmd_to_server_lem n payload h =
      let size : 4 + 1 + n ≡ suc (suc (suc (suc (suc n)))) = omega arith in
      let whole : take n payload ≡ payload = take-all n payload (omega arith) in
      rw (size, whole) (ground arith)

-- The interface behind a message: the request stands on the wire.
pub record Sent (sawa : SawaInterface) (r : Request) (sawa' : SawaInterface) : Type 0 where
  pub wire : sawa'.written ≡ sawa.written ++ framed r

page : (stale : ℕ → ℕ) (offset m : ℕ) (payload : List ℕ) → List ℕ
page stale offset m payload = bytes_of_u32 offset ++ write_at 0 payload (stale_bytes stale 9 m)

module _ (stale : ℕ → ℕ) (sawa : SawaInterface) (offset : ℕ) where
  first_field :
      (n : ℕ) → 4 ≤ n → length (write_at 0 (bytes_of_u32 offset) (stale_bytes stale 5 n)) ≡ n
  first_field n h =
      length-write_at 0 (bytes_of_u32 offset) (stale_bytes stale 5 n)
        (omega (arith, length-bytes_of_u32 offset, length-stale_bytes stale 5 n))
      ∙ length-stale_bytes stale 5 n

  read_message :
      (size : ℕ)
      → write_at 4 (bytes_of_u32 size) (write_at 0 (bytes_of_u32 offset) (stale_bytes stale 5 8))
        ≡ bytes_of_u32 offset ++ bytes_of_u32 size
  unfolding write_at bytes_of_u32 stale_bytes
  read_message size = refl

  -- Whatever the reply, sendReadCmd sends the READ request of the protocol, for a size that is not negative, and returns or throws
  -- what the reply decides.
  pub send_read_cmd_lem :
      (size : ℕ) (reply : Recv) (result : Outcome (List ℕ))
      → read_result (read_from_server stale size reply) ≡ some result
      → size < 2 ^ 31
      → (sawa' : SawaInterface) × (send_read_cmd stale sawa offset size reply
          ≡ some (sawa', result))
        × Sent sawa (read offset size) sawa'
  unfolding send_read_cmd framed encode bytes_of_u32
  send_read_cmd_lem size reply result e small =
      rw
        (
          lt→ltb size (2 ^ 31) small,
          prepare_command_lem stale sawa 2 8,
          store_payload_lem stale sawa 2 8 0 (bytes_of_u32 offset) (stale_bytes stale 5 8)
              (length-stale_bytes stale 5 8) (omega (arith, length-bytes_of_u32 offset)),
          store_payload_lem stale sawa 2 8 4 (bytes_of_u32 size)
              (write_at 0 (bytes_of_u32 offset) (stale_bytes stale 5 8))
              (first_field 8 (omega arith)) (omega (arith, length-bytes_of_u32 size)),
          read_message size,
          send_cmd_to_server_lem stale sawa 2 8 (bytes_of_u32 offset ++ bytes_of_u32 size) refl,
          e,
        )
        (_, refl, record { wire = refl })

  first_store :
      (n : ℕ)
      → 4 ≤ n
      → store_payload (holding sawa 3 n (stale_bytes stale 5 n)) 0 (bytes_of_u32 offset)
        ≡ some (holding sawa 3 n (write_at 0 (bytes_of_u32 offset) (stale_bytes stale 5 n)))
  first_store n h =
      store_payload_lem stale sawa 3 n 0 (bytes_of_u32 offset) (stale_bytes stale 5 n)
        (length-stale_bytes stale 5 n) (omega (arith, length-bytes_of_u32 offset))

  write_message :
      (m : ℕ) (payload : List ℕ)
      → write_at 4 payload (write_at 0 (bytes_of_u32 offset) (stale_bytes stale 5 (4 + m)))
        ≡ page stale offset m payload
  unfolding page write_at bytes_of_u32 stale_bytes
  write_message m payload = let size : 4 + m ≡ suc (suc (suc (suc m))) = omega arith in rw size refl

  length-page :
      (m : ℕ) (payload : List ℕ) → length payload ≤ m → length (page stale offset m payload) ≡ 4 + m
  unfolding page
  length-page m payload h = omega (
    arith,
    length-append (bytes_of_u32 offset) (write_at 0 payload (stale_bytes stale 9 m)),
    length-bytes_of_u32 offset,
    length-write_at 0 payload (stale_bytes stale 9 m) (omega (arith, length-stale_bytes stale 9 m)),
    length-stale_bytes stale 9 m,
  )

  -- sendWriteCmd always asks for 4096 bytes to be written: the payload, and behind it what the
  -- message's memory held before.
  pub send_write_cmd_lem :
      (payload : List ℕ) (reply : Recv)
      → length payload ≤ 4096
      → (sawa' : SawaInterface) × (send_write_cmd stale sawa payload offset reply
          ≡ some (sawa', write_response reply))
        × Sent sawa (write offset (write_at 0 payload (stale_bytes stale 9 4096))) sawa'
  unfolding send_write_cmd framed encode page
  send_write_cmd_lem payload reply h =
      rw
        (
          prepare_command_lem stale sawa 3 4100,
          first_store 4100 (omega arith),
          store_payload_lem stale sawa 3 4100 4 payload
              (write_at 0 (bytes_of_u32 offset) (stale_bytes stale 5 4100))
              (first_field 4100 (omega arith)) (omega arith),
          write_message 4096 payload,
          send_cmd_to_server_lem stale sawa 3 4100 (page stale offset 4096 payload)
              (length-page 4096 payload h),
        )
        (
          _,
          refl,
          record {
            wire =
                ap (λ n. sawa.written ++ (bytes_of_u32 n ++ 3 ∷ page stale offset 4096 payload))
                  (sym (ap suc (length-page 4096 payload h)));
          },
        )

  -- A payload of more than 4096 bytes is copied past the end of the message.
  pub send_write_cmd_overflow :
      (payload : List ℕ) (reply : Recv)
      → 4096 < length payload
      → send_write_cmd stale sawa payload offset reply ≡ none
  unfolding send_write_cmd
  send_write_cmd_overflow payload reply h = rw (
    prepare_command_lem stale sawa 3 4100,
    first_store 4100 (omega arith),
    store_payload_outside stale sawa 3 4100 4 payload
        (write_at 0 (bytes_of_u32 offset) (stale_bytes stale 5 4100))
        (first_field 4100 (omega arith)) (omega arith),
  )

  -- A page is sent as it is.
  pub send_write_cmd_page :
      (payload : List ℕ) (reply : Recv)
      → length payload ≡ 4096
      → (sawa' : SawaInterface) × (send_write_cmd stale sawa payload offset reply
          ≡ some (sawa', write_response reply))
        × Sent sawa (write offset payload) sawa'
  send_write_cmd_page payload reply h =
      let (sawa', e, sent) = send_write_cmd_lem payload reply (omega arith) in
      let whole =
        write_at_zero payload (stale_bytes stale 9 4096)
          (omega (arith, length-stale_bytes stale 9 4096)) in
      (
        sawa',
        e,
        record { wire = sent.wire ∙ ap (λ p. sawa.written ++ framed (write offset p)) whole },
      )

  -- A reply of `size` bytes is returned, unless it is a single byte.
  pub read_result_whole :
      (size : ℕ) (bytes : List ℕ)
      → length bytes ≡ size
      → size ≢ 1
      → read_result (read_from_server stale size (got bytes)) ≡ some (returned bytes)
  unfolding read_result read_from_server
  read_result_whole size bytes h ne =
      let several : (length bytes == 1) ≡ false = ground arith in
      rw (several, fill-exact stale size bytes h)

  -- A single byte is thrown as an error code, whatever it is and however many were asked for.
  pub read_result_single :
      (size code : ℕ)
      → 0 < size
      → read_result (read_from_server stale size (got (code ∷ []))) ≡ some (thrown code)
  unfolding read_result read_from_server fill
  read_result_single size code h = let size_suc : size ≡ suc (size - 1) = omega arith in rw size_suc
