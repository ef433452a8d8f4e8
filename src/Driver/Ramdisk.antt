-- ===== src/Driver/Ramdisk.antt =====
-- ramdisk.c: the request handler that keeps the sectors in memory, over the block layer's interface.
pub mod Ending
use sa_wa.Base.{
  ℕ, zero, suc, ◌+◌, ◌*◌, ◌%◌, ◌^◌, ◌≤◌, ◌<◌, ◌≡◌, refl, sym, ap, ◌∙◌, subst, Bool, true, false,
  Option, none, some, List, [], ◌∷◌, ◌++◌, length, take, drop, ltb, leb, ◌&&◌, if◌then◌else◌, arith,
  pos, ℤ, le→leb, lt→ltb, le→ltb, length-take, le_or_lt, ◌>>=◌, Option-cases, inl, inr,
}
use sa_wa.Storage.{write_at, length-write_at}
use sa_wa.Driver.Rows.{driver_dump_mem-rows_of}
use sa_wa.Driver.Log.{driver_dump_mem}
use sa_wa.Driver.Queue.{BlockLayer}

-- The memory of the disk, none while `data` is the null pointer, and the caller's buffer.
pub record Moved : Type 0 where
  pub memory : Option (List ℕ)
  pub buffer : List ℕ

-- memcpy of so many bytes between the memory and the buffer; a write is dumped first.
unfoldable pub copy : (ℕ → ℕ) → List ℕ → ℕ → ℕ → List ℕ → Bool → Option Moved
unfolding driver_dump_mem
copy stale memory offset nbytes buffer write =
    if leb (offset + nbytes) (length memory) && leb nbytes (length buffer)
    then (if write
        then (do
          rows ← driver_dump_mem stale buffer 32
          some (record {
            memory = some (write_at offset (take nbytes buffer) memory);
            buffer = buffer;
          }))
        else some (record {
          memory = some memory;
          buffer = write_at 0 (take nbytes (drop offset memory)) buffer;
        }))
    else none

-- nb_sectors is of 32 bits, the other numbers of 64.
unfoldable pub ramdisk_transfer :
    (ℕ → ℕ) → ℕ → Option (List ℕ) → ℕ → ℕ → List ℕ → Bool → Option Moved
unfolding copy
ramdisk_transfer stale nb_sectors memory sector nsect buffer write =
    let offset : ℕ = (sector * 512) % 2 ^ 64 in
    let nbytes : ℕ = (nsect * 512) % 2 ^ 64 in
    if ltb ((nb_sectors * 512) % 2 ^ 32) ((offset + nbytes) % 2 ^ 64)
    then some (record { memory = memory; buffer = buffer })
    else do bytes ← memory; copy stale bytes offset nbytes buffer write

-- How the handler ends on its fuel: the queue is empty, it is still in its loop, or it has made an
-- access outside of memory.
pub data Handled (B : BlockLayer) : Type 0 where
  finished : B.Queue → Option (List ℕ) → List (List ℕ × List ℕ) → Handled B
  running : Handled B
  faulted : Handled B

module _ (B : BlockLayer) (stale : ℕ → ℕ) (nb_sectors : ℕ) where
  -- The loop on its request, with the memory and the buffers of the parts so far.
  unfoldable pub ramdisk_loop :
      ℕ → B.Queue → Option B.Request → Option (List ℕ) → List (List ℕ × List ℕ) → Handled B
  unfolding ramdisk_transfer
  ramdisk_loop zero q req memory done = running
  ramdisk_loop (suc fuel) q none memory done = finished q memory done
  ramdisk_loop (suc fuel) q (some r) memory done = elim (B.is_fs r) [
    | false ↦ ramdisk_loop fuel q (some r) memory done
    | true ↦
        elim (ramdisk_transfer stale nb_sectors memory (B.blk_rq_pos r) (B.blk_rq_cur_sectors r)
          (B.buffer r) (B.is_write r)) [
            | none ↦ faulted
            | some moved ↦ elim (B.blk_end_request_cur r (pos 0)) [
              | some r' ↦
                  ramdisk_loop fuel q (some r') moved.memory
                    (done ++ (B.carried r, moved.buffer) ∷ [])
              | none ↦
                  let (q', next) = B.blk_fetch_request q in
                  ramdisk_loop fuel q' next moved.memory (done ++ (B.carried r, moved.buffer) ∷ [])
            ]
          ]
  ]

  unfoldable pub ramdisk_request : ℕ → B.Queue → Option (List ℕ) → Handled B
  unfolding ramdisk_loop
  ramdisk_request fuel q memory =
      let (q', req) = B.blk_fetch_request q in ramdisk_loop fuel q' req memory []

-- A request that is no file system request is never taken off: the handler stays in its loop.
ramdisk_loop-stuck :
    (B : BlockLayer) (stale : ℕ → ℕ) (nb_sectors fuel : ℕ) (q : B.Queue) (r : B.Request)
    (memory : Option (List ℕ)) (done : List (List ℕ × List ℕ))
    → B.is_fs r ≡ false
    → ramdisk_loop B stale nb_sectors fuel q (some r) memory done ≡ running
unfolding ramdisk_loop
ramdisk_loop-stuck B stale nb_sectors zero q r memory done e = refl
ramdisk_loop-stuck B stale nb_sectors (suc fuel) q r memory done e =
    rw (e, ramdisk_loop) (ramdisk_loop-stuck B stale nb_sectors fuel q r memory done e)

pub ramdisk_request-stuck :
    (B : BlockLayer) (stale : ℕ → ℕ) (nb_sectors fuel : ℕ) (q : B.Queue) (r : B.Request)
    (rs : List B.Request) (memory : Option (List ℕ))
    → B.waiting q ≡ r ∷ rs
    → B.is_fs r ≡ false
    → ramdisk_request B stale nb_sectors fuel q memory ≡ running
unfolding ramdisk_request
ramdisk_request-stuck B stale nb_sectors fuel q r rs memory w e =
    ap (λ x. ramdisk_loop B stale nb_sectors fuel (B.blk_fetch_request q).0 x memory [])
      (B.fetch_first q r rs w)
    ∙ ramdisk_loop-stuck B stale nb_sectors fuel (B.blk_fetch_request q).0 r memory [] e

-- Without memory, which nothing allocates, a file system request inside the disk is an access through a
-- null pointer.
pub ramdisk_request-null :
    (B : BlockLayer) (stale : ℕ → ℕ) (nb_sectors fuel : ℕ) (q : B.Queue) (r : B.Request)
    (rs : List B.Request)
    → B.waiting q ≡ r ∷ rs
    → B.is_fs r ≡ true
    → (B.blk_rq_pos r + B.blk_rq_cur_sectors r) * 512 ≤ nb_sectors * 512
    → nb_sectors * 512 < 2 ^ 32
    → ramdisk_request B stale nb_sectors (suc fuel) q none ≡ faulted
unfolding ramdisk_request ramdisk_loop ramdisk_transfer
ramdisk_request-null B stale nb_sectors fuel q r rs w fs inside small =
    let offset : ℕ = (B.blk_rq_pos r * 512) % 2 ^ 64 in
    let nbytes : ℕ = (B.blk_rq_cur_sectors r * 512) % 2 ^ 64 in
    let within = le→ltb ((nb_sectors * 512) % 2 ^ 32) ((offset + nbytes) % 2 ^ 64) (omega arith) in
    rw (B.fetch_first q r rs w, fs, within, ramdisk_request, ramdisk_loop, ramdisk_transfer) refl
