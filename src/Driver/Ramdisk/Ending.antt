-- ===== src/Driver/Ramdisk/Ending.antt =====
-- That the handler of ramdisk.c ends on file system requests.
use sa_wa.Base.{
  ℕ, zero, suc, ◌+◌, ◌*◌, ◌%◌, ◌^◌, ◌≤◌, ◌<◌, ◌≡◌, refl, sym, ap, ◌∙◌, subst, Bool, true, false,
  Option, none, some, List, [], ◌∷◌, ◌++◌, length, take, drop, arith, pos, ℤ, le→leb, lt→ltb,
  le→ltb, length-take, le_or_lt, Option-cases, inl, inr,
}
use sa_wa.Storage.{write_at, length-write_at}
use sa_wa.Driver.Rows.{driver_dump_mem-rows_of}
use sa_wa.Driver.Queue.{BlockLayer}
use sa_wa.Driver.Ramdisk.{
  Moved, copy, ramdisk_transfer, Handled, finished, ramdisk_loop, ramdisk_request,
}

-- What the block layer keeps of a request, and of a request's current part.
pub record Sound (B : BlockLayer) : Type 0 where
  pub same_kind :
      (r r' : B.Request) (ret : ℤ) → B.blk_end_request_cur r ret ≡ some r' → B.is_fs r' ≡ B.is_fs r
  pub some_sectors : (r : B.Request) → 0 < B.blk_rq_cur_sectors r
  pub buffer_holds : (r : B.Request) → B.blk_rq_cur_sectors r * 512 ≤ length (B.buffer r)
  pub in_words : (r : B.Request) → (B.blk_rq_pos r + B.blk_rq_cur_sectors r) * 512 < 2 ^ 64

unfoldable pub AllFs : (B : BlockLayer) → List B.Request → Type 0
AllFs B [] = Unit
AllFs B (r ∷ rs) = (B.is_fs r ≡ true) × AllFs B rs

-- The rounds that requests need.
unfoldable pub rounds : (B : BlockLayer) → List B.Request → ℕ
rounds B [] = 0
rounds B (r ∷ rs) = B.parts r + 1 + rounds B rs

copy_defined :
    (stale : ℕ → ℕ) (bytes : List ℕ) (offset nbytes : ℕ) (buffer : List ℕ) (write : Bool)
    → offset + nbytes ≤ length bytes
    → nbytes ≤ length buffer
    → 32 ≤ length buffer
    → (moved : Moved) × (bytes' : List ℕ) × (copy stale bytes offset nbytes buffer write
        ≡ some moved)
      × (moved.memory ≡ some bytes')
      × (length bytes' ≡ length bytes)
unfolding copy
copy_defined stale bytes offset nbytes buffer true inside holds enough =
    let part = length-take nbytes buffer in
    (
      record { memory = some (write_at offset (take nbytes buffer) bytes); buffer = buffer },
      write_at offset (take nbytes buffer) bytes,
      rw
          (
            le→leb (offset + nbytes) (length bytes) inside,
            le→leb nbytes (length buffer) holds,
            driver_dump_mem-rows_of stale buffer 32 enough,
            copy,
          )
          refl,
      refl,
      length-write_at offset (take nbytes buffer) bytes (omega arith),
    )
copy_defined stale bytes offset nbytes buffer false inside holds enough = (
  record { memory = some bytes; buffer = write_at 0 (take nbytes (drop offset bytes)) buffer },
  bytes,
  rw (le→leb (offset + nbytes) (length bytes) inside, le→leb nbytes (length buffer) holds, copy)
      refl,
  refl,
  refl,
)

module _ (B : BlockLayer) (sound : Sound B) (stale : ℕ → ℕ) (nb_sectors : ℕ)
    (small : nb_sectors * 512 < 2 ^ 32) where
  transfer_defined :
      (r : B.Request) (bytes : List ℕ)
      → length bytes ≡ nb_sectors * 512
      → (moved : Moved) × (bytes' : List ℕ) × (ramdisk_transfer stale nb_sectors
            (some bytes)
            (B.blk_rq_pos r)
            (B.blk_rq_cur_sectors r)
            (B.buffer r)
            (B.is_write r)
          ≡ some moved)
        × (moved.memory ≡ some bytes')
        × (length bytes' ≡ nb_sectors * 512)
  unfolding ramdisk_transfer
  transfer_defined r bytes n =
      let words = sound.in_words r in
      let holds = sound.buffer_holds r in
      let more = sound.some_sectors r in
      let offset : ℕ = (B.blk_rq_pos r * 512) % 2 ^ 64 in
      let nbytes : ℕ = (B.blk_rq_cur_sectors r * 512) % 2 ^ 64 in
      let size : ℕ = (nb_sectors * 512) % 2 ^ 32 in
      elim (le_or_lt (offset + nbytes) (nb_sectors * 512)) [
        | inl e ↦
            let inside = le→ltb size ((offset + nbytes) % 2 ^ 64) (omega arith) in
            let (moved, bytes', copied, kept, same) =
              copy_defined stale bytes offset nbytes (B.buffer r) (B.is_write r) (omega arith)
                (omega arith) (omega arith) in
            (moved, bytes', rw (inside, ramdisk_transfer) copied, kept, same ∙ n)
        | inr e ↦
            let beyond = lt→ltb size ((offset + nbytes) % 2 ^ 64) (omega arith) in
            (
              record { memory = some bytes; buffer = B.buffer r },
              bytes,
              rw (beyond, ramdisk_transfer) refl,
              refl,
              n,
            )
      ]

  -- A round of the loop: the request has a further part, or it has ended.
  ramdisk_loop-part :
      (fuel : ℕ) (q : B.Queue) (r r' : B.Request) (memory : Option (List ℕ)) (moved : Moved)
      (done : List (List ℕ × List ℕ))
      → B.is_fs r ≡ true
      → ramdisk_transfer stale nb_sectors memory
          (B.blk_rq_pos r)
          (B.blk_rq_cur_sectors r)
          (B.buffer r)
          (B.is_write r)
        ≡ some moved
      → B.blk_end_request_cur r (pos 0) ≡ some r'
      → ramdisk_loop B stale nb_sectors (suc fuel) q (some r) memory done
        ≡ ramdisk_loop B stale nb_sectors fuel q
            (some r')
            moved.memory
            (done ++ (B.carried r, moved.buffer) ∷ [])
  unfolding ramdisk_loop
  ramdisk_loop-part fuel q r r' memory moved done fs t e = rw (fs, t, e, ramdisk_loop) refl

  ramdisk_loop-end :
      (fuel : ℕ) (q : B.Queue) (r : B.Request) (next : Option B.Request) (memory : Option (List ℕ))
      (moved : Moved) (done : List (List ℕ × List ℕ))
      → B.is_fs r ≡ true
      → ramdisk_transfer stale nb_sectors memory
          (B.blk_rq_pos r)
          (B.blk_rq_cur_sectors r)
          (B.buffer r)
          (B.is_write r)
        ≡ some moved
      → B.blk_end_request_cur r (pos 0) ≡ none
      → (B.blk_fetch_request q).1 ≡ next
      → ramdisk_loop B stale nb_sectors (suc fuel) q (some r) memory done
        ≡ ramdisk_loop B stale nb_sectors fuel
            (B.blk_fetch_request q).0
            next
            moved.memory
            (done ++ (B.carried r, moved.buffer) ∷ [])
  unfolding ramdisk_loop
  ramdisk_loop-end fuel q r next memory moved done fs t e f = rw (fs, t, e, f, ramdisk_loop) refl

  -- What is left when the handler has ended.
  abbrev Ended : Handled B → Type 0
  Ended h =
      (q' : B.Queue) × (bytes' : List ℕ) × (done' : List (List ℕ × List ℕ)) × (h
        ≡ finished q' (some bytes') done')
      × (B.waiting q' ≡ [])
      × (length bytes' ≡ nb_sectors * 512)

  -- The next request is fetched, or there is none.
  fetched-Ended :
      (fuel : ℕ) (q : B.Queue) (rs : List B.Request) (memory : Option (List ℕ)) (bytes : List ℕ)
      (done : List (List ℕ × List ℕ))
      → B.waiting q ≡ rs
      → memory ≡ some bytes
      → length bytes ≡ nb_sectors * 512
      → 0 < fuel
      → ((r : B.Request) (rest : List B.Request)
          → rs ≡ r ∷ rest
          → Ended
              (ramdisk_loop B stale nb_sectors fuel (B.blk_fetch_request q).0 (some r) memory done))
      → Ended (
          ramdisk_loop B stale nb_sectors fuel
            (B.blk_fetch_request q).0
            (B.blk_fetch_request q).1
            memory
            done)
  unfolding ramdisk_loop
  fetched-Ended zero q rs memory bytes done w m n f later = absurd (omega arith)
  fetched-Ended (suc fuel) q [] memory bytes done w m n f later = (
    (B.blk_fetch_request q).0,
    bytes,
    done,
    rw (B.fetch_empty q w, m, ramdisk_loop) refl,
    B.fetch_stays q w,
    n,
  )
  fetched-Ended (suc fuel) q (r ∷ rest) memory bytes done w m n f later =
      subst
        (λ next.
          Ended
            (ramdisk_loop B stale nb_sectors (suc fuel) (B.blk_fetch_request q).0 next memory done))
        (sym (B.fetch_first q r rest w)) (later r rest refl)

  ramdisk_loop-Ended :
      (fuel : ℕ) (q : B.Queue) (r : B.Request) (rs : List B.Request) (memory : Option (List ℕ))
      (bytes : List ℕ) (done : List (List ℕ × List ℕ))
      → B.waiting q ≡ rs
      → AllFs B (r ∷ rs)
      → memory ≡ some bytes
      → length bytes ≡ nb_sectors * 512
      → rounds B (r ∷ rs) < fuel
      → Ended (ramdisk_loop B stale nb_sectors fuel q (some r) memory done)
  unfolding ramdisk_loop AllFs rounds
  ramdisk_loop-Ended zero q r rs memory bytes done w fs m n f = absurd (omega arith)
  ramdisk_loop-Ended (suc fuel) q r rs memory bytes done w (fs, all) m n f =
      let (moved, bytes', t, kept, n') = transfer_defined r bytes n in
      let run =
        ap
          (λ x.
            ramdisk_transfer stale nb_sectors x (B.blk_rq_pos r) (B.blk_rq_cur_sectors r)
              (B.buffer r) (B.is_write r))
          m
        ∙ t in
      let done' : List (List ℕ × List ℕ) = done ++ (B.carried r, moved.buffer) ∷ [] in
      elim (Option-cases (B.blk_end_request_cur r (pos 0))) [
        | inr (r', e) ↦
            let fewer = B.end_parts r r' (pos 0) e in
            subst Ended (sym (ramdisk_loop-part fuel q r r' memory moved done fs run e)) (
              ramdisk_loop-Ended fuel q r' rs moved.memory bytes' done' w
                (sound.same_kind r r' (pos 0) e ∙ fs, all) kept n' (omega arith))
        | inl e ↦
            subst Ended
              (sym (
                ramdisk_loop-end fuel q r (B.blk_fetch_request q).1 memory moved done fs run e
                  refl))
              (fetched-Ended fuel q rs moved.memory bytes' done' w kept n' (omega arith)
                (λ r2 rest same.
                  ramdisk_loop-Ended fuel (B.blk_fetch_request q).0 r2 rest moved.memory bytes'
                    done' (B.fetch_rest q r2 rest (w ∙ same)) (subst (AllFs B) same all) kept n'
                    (let same_rounds = ap (rounds B) same in omega arith)))
      ]

  -- On a disk smaller than 4 GB with memory for its sectors, of requests that all are file system
  -- requests, with fuel for one round more than their parts and themselves and one to see that none
  -- is left, the handler ends without an access outside of memory, with an empty queue and a memory of
  -- the same size.
  pub ramdisk_request-Ended :
      (fuel : ℕ) (q : B.Queue) (rs : List B.Request) (bytes : List ℕ)
      → B.waiting q ≡ rs
      → AllFs B rs
      → length bytes ≡ nb_sectors * 512
      → rounds B rs < fuel
      → Ended (ramdisk_request B stale nb_sectors fuel q (some bytes))
  unfolding ramdisk_request rounds
  ramdisk_request-Ended fuel q rs bytes w all n f =
      fetched-Ended fuel q rs (some bytes) bytes [] w refl n (omega arith) (λ r rest same.
        ramdisk_loop-Ended fuel (B.blk_fetch_request q).0 r rest (some bytes) bytes []
          (B.fetch_rest q r rest (w ∙ same)) (subst (AllFs B) same all) refl n
          (let same_rounds = ap (rounds B) same in omega arith))
