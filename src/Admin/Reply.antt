-- ===== src/Admin/Reply.antt =====
-- The STAT command, from the pool to the client's table.
use mathlib.Core.List.{reverse, reverse-cons}
use sa_wa.Base.{
  leb, ltb, ℕ, suc, ◌+◌, ◌-◌, ◌*◌, ◌/◌, ◌^◌, ◌<◌, ◌≡◌, refl, sym, ap, ◌∙◌, true, some, List, [],
  ◌∷◌, ◌++◌, arith, length, length-append, append_assoc, get_or, take, le→leb, take-append,
  take-all,
}
use sa_wa.Bytes.{
  bytes_of_u32, u32_of_bytes_lem, length-bytes_of_u32, load_u32, load_u32-bytes_of_u32, fill,
  stale_bytes,
}
use sa_wa.Storage.{got}
use sa_wa.Thread.{Ptr, ConnectionThread}
use sa_wa.Pool.{get_thread_statistics, stat_fields}
use sa_wa.Pool.Invariant.{Inv}
use sa_wa.Pool.Stats.{entry, entries, records, length-records, get_thread_statistics-entries}
use sa_wa.Client.{
  SawaInterface, send_stat_cmd, read_payload, read_from_server, stat_rows, threads_in, sawa_stat,
  send_single_cmd_to_server,
}
use sa_wa.Admin.{AdminSession, stat_command}
use sa_wa.Admin.Stat.{
  flat, counters, rows, row, Fits, AllFit, AllFit-reverse, load_rows-flat, activity_of,
  entries-flat, length-entries, length-flat,
}

-- The entry without its last four bytes: the activity and the padding.
head : ConnectionThread → List ℕ
head t =
    bytes_of_u32 t.nb_connections
    ++ (bytes_of_u32 (get_or t.info 0 0)
        ++ (bytes_of_u32 (get_or t.info 1 0) ++ bytes_of_u32 (get_or t.info 2 0)))

head-entry : (t : ConnectionThread) → entry t ≡ head t ++ (activity_of t ∷ 0 ∷ 0 ∷ 0 ∷ [])
unfolding head entry bytes_of_u32 stat_fields
head-entry t = refl

-- What reaches the client of a pool whose newest thread is `t`.
unfoldable truncated : ConnectionThread → List ConnectionThread → List ℕ
truncated t ts = flat (reverse ts) ++ head t

length-head : (t : ConnectionThread) → length (head t) ≡ 16
unfolding head bytes_of_u32
length-head t = refl

length-reverse : (ts : List ConnectionThread) → length (reverse ts) ≡ length ts
length-reverse [] = refl
length-reverse (t ∷ ts) =
    ap length (reverse-cons t ts)
    ∙ omega (arith, length-append (reverse ts) (t ∷ []), length-reverse ts)

length-truncated :
    (t : ConnectionThread) (ts : List ConnectionThread)
    → length (truncated t ts) ≡ length ts * 20 + 16
unfolding truncated
length-truncated t ts = omega (
  arith,
  length-append (flat (reverse ts)) (head t),
  length-head t,
  length-flat (reverse ts),
  length-reverse ts,
)

entries-truncated :
    (t : ConnectionThread) (ts : List ConnectionThread)
    → entries (t ∷ ts) ≡ truncated t ts ++ (activity_of t ∷ 0 ∷ 0 ∷ 0 ∷ [])
unfolding truncated entries
entries-truncated t ts =
    ap (λ x. x ++ entry t) (entries-flat ts)
    ∙ ap (◌++◌ (flat (reverse ts))) (head-entry t)
    ∙ sym (append_assoc (flat (reverse ts)) (head t) _)

-- The same bytes as the client stores them: its own, stale bytes end the last entry.
fill-truncated :
    (stale : ℕ → ℕ) (t : ConnectionThread) (ts : List ConnectionThread)
    → fill stale (suc (length ts) * 20) (truncated t ts)
      ≡ flat (reverse ts)
        ++ counters t (stale (length ts * 20 + 16)) (
            stale (length ts * 20 + 16 + 1)
            ∷ stale (length ts * 20 + 16 + 1 + 1)
            ∷ stale (length ts * 20 + 16 + 1 + 1 + 1)
            ∷ [])
unfolding fill stale_bytes head truncated counters bytes_of_u32
fill-truncated stale t ts =
    let n : length (truncated t ts) ≡ length ts * 20 + 16 = length-truncated t ts in
    let four : suc (length ts) * 20 - length (truncated t ts) ≡ 4 = omega arith in
    ap
      (λ x.
        x
        ++ stale_bytes stale (length (truncated t ts))
            (suc (length ts) * 20 - length (truncated t ts)))
      (take-all (suc (length ts) * 20) (truncated t ts) (omega arith))
    ∙ ap (λ k. truncated t ts ++ stale_bytes stale (length (truncated t ts)) k) four
    ∙ ap (λ k. truncated t ts ++ stale_bytes stale k 4) n
    ∙ append_assoc (flat (reverse ts)) (head t) _

-- Its write stops four bytes before the end of the entries.
reply_lem :
    (t : ConnectionThread) (ts : List ConnectionThread) (n : ℕ)
    → n ≡ suc (length ts) * 20
    → take n (bytes_of_u32 n ++ entries (t ∷ ts)) ≡ bytes_of_u32 n ++ truncated t ts
reply_lem t ts n h =
    let front : List ℕ = bytes_of_u32 n ++ truncated t ts in
    let size : n ≡ length front = omega (
      arith,
      length-append (bytes_of_u32 n) (truncated t ts),
      length-bytes_of_u32 n,
      length-truncated t ts,
    ) in
    ap (λ x. take n (bytes_of_u32 n ++ x)) (entries-truncated t ts)
    ∙ ap (take n) (sym (append_assoc (bytes_of_u32 n) (truncated t ts) _))
    ∙ ap (λ k. take k (front ++ (activity_of t ∷ 0 ∷ 0 ∷ 0 ∷ []))) size
    ∙ take-append front _

stat_command-reply :
    (s : AdminSession) (t : ConnectionThread) (ts : List ConnectionThread) (n : ℕ)
    → get_thread_statistics s.pool ≡ some (bytes_of_u32 n ++ entries (t ∷ ts))
    → n ≡ suc (length ts) * 20
    → n < 2 ^ 31
    → stat_command s ≡ some (record s { output = s.output ++ (bytes_of_u32 n ++ truncated t ts) })
unfolding stat_command
stat_command-reply s t ts n buffer count bound =
    let inside : leb n (length (bytes_of_u32 n ++ entries (t ∷ ts))) ≡ true = le→leb _ _ (
      omega (
        arith,
        length-append (bytes_of_u32 n) (entries (t ∷ ts)),
        length-bytes_of_u32 n,
        length-entries (t ∷ ts),
      )) in
    let small : ltb n (2 ^ 31) ≡ true = ground (arith, bound) in
    rw
      (
        buffer,
        load_u32-bytes_of_u32 n (entries (t ∷ ts)) (omega arith),
        small,
        inside,
        reply_lem t ts n count,
      )
      refl

read_payload-got :
    (stale : ℕ → ℕ) (n : ℕ) (bytes : List ℕ)
    → n < 2 ^ 32
    → read_payload stale (got (bytes_of_u32 n)) (got bytes) ≡ (some (fill stale n bytes), n)
unfolding read_payload read_from_server load_u32 bytes_of_u32
read_payload-got stale n bytes bound =
    ap (λ k. (some (fill stale k bytes), k)) (u32_of_bytes_lem n bound)

threads_in_small : (n : ℕ) → n < 2 ^ 31 → threads_in n ≡ n / 20
unfolding threads_in
threads_in_small n h = let small : ltb n (2 ^ 31) ≡ true = ground (arith, h) in rw small refl

stat_rows-truncated :
    (stale : ℕ → ℕ) (t : ConnectionThread) (ts : List ConnectionThread) (n : ℕ)
    → Fits t
    → AllFit ts
    → n ≡ suc (length ts) * 20
    → n < 2 ^ 31
    → stat_rows (some (fill stale n (truncated t ts)), n)
      ≡ some (rows (reverse ts) ++ row t (stale (length ts * 20 + 16)) ∷ [])
unfolding stat_rows
stat_rows-truncated stale t ts n f fs count bound =
    let filled = ap (λ k. fill stale k (truncated t ts)) count ∙ fill-truncated stale t ts in
    let number : threads_in n ≡ suc (length (reverse ts)) =
      threads_in_small n bound ∙ omega (arith, length-reverse ts) in
    rw (filled, number) (load_rows-flat (reverse ts) [] t _ 0 _ (AllFit-reverse ts fs) f refl)

send_stat_cmd-truncated :
    (stale : ℕ → ℕ) (sawa : SawaInterface) (t : ConnectionThread) (ts : List ConnectionThread)
    (n : ℕ)
    → Fits t
    → AllFit ts
    → n ≡ suc (length ts) * 20
    → n < 2 ^ 31
    → send_stat_cmd stale sawa (got (bytes_of_u32 n)) (got (truncated t ts))
      ≡ some (
        send_single_cmd_to_server sawa sawa_stat,
        rows (reverse ts) ++ row t (stale (length ts * 20 + 16)) ∷ [],
      )
unfolding send_stat_cmd
send_stat_cmd-truncated stale sawa t ts n f fs count bound =
    rw
      (
        read_payload-got stale n (truncated t ts) (omega arith),
        stat_rows-truncated stale t ts n f fs count bound,
      )
      refl

-- Of a well-formed pool with at least one thread, t the newest, whose counters are smaller than
-- 2^31 and whose table is smaller than 2 GB, the reply to STAT announces 20 bytes for each thread
-- and is four bytes shorter than that; a client that receives it prints one line for each thread in
-- the order of creation, with its counters and its activity, but the activity of t is a stale byte
-- of the client's own buffer.
pub stat_command-send_stat_cmd :
    (stale : ℕ → ℕ) (s : AdminSession) (sawa : SawaInterface) (all idle : List Ptr)
    (v : Inv s.pool all idle) (t : ConnectionThread) (ts : List ConnectionThread)
    → records s.pool.heap s.pool.all_threads all v.all_chain ≡ t ∷ ts
    → Fits t
    → AllFit ts
    → s.pool.thread_nb * 20 < 2 ^ 31
    → (payload : List ℕ) × (stat_command s
        ≡ some
            (record s { output = s.output ++ (bytes_of_u32 (s.pool.thread_nb * 20) ++ payload) }))
      × (length payload + 4 ≡ s.pool.thread_nb * 20)
      × (send_stat_cmd stale sawa (got (bytes_of_u32 (s.pool.thread_nb * 20))) (got payload)
          ≡ some (
            send_single_cmd_to_server sawa sawa_stat,
            rows (reverse ts) ++ row t (stale (length payload)) ∷ [],
          ))
stat_command-send_stat_cmd stale s sawa all idle v t ts h f fs bound =
    let count : s.pool.thread_nb ≡ suc (length ts) =
      v.counted
      ∙ sym (length-records s.pool.heap s.pool.all_threads all v.all_chain)
      ∙ ap length h in
    let bytes : s.pool.thread_nb * 20 ≡ suc (length ts) * 20 = omega arith in
    let buffer =
      get_thread_statistics-entries s.pool all idle v
      ∙ ap (λ r. some (bytes_of_u32 (s.pool.thread_nb * 20) ++ entries r)) h in
    let active =
      ap
        (λ k.
          some
            (send_single_cmd_to_server sawa sawa_stat, rows (reverse ts) ++ row t (stale k) ∷ []))
        (sym (length-truncated t ts)) in
    (
      truncated t ts,
      stat_command-reply s t ts _ buffer bytes bound,
      omega (arith, length-truncated t ts),
      send_stat_cmd-truncated stale sawa t ts _ f fs bytes bound ∙ active,
    )
