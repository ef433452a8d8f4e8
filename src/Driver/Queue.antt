-- ===== src/Driver/Queue.antt =====
-- main.c: the requests of the block layer and the work on them. The block layer is an interface.
use sa_wa.Base.{
  ℕ, zero, suc, ◌<◌, ◌≡◌, Bool, true, false, Option, none, some, List, [], ◌∷◌, ◌++◌, ℤ,
  if◌then◌else◌, length,
}
use sa_wa.Driver.Network.{Kernel, Done, sawa_read_data, sawa_write_data}

-- The queue of the block layer and its requests, as the driver uses them. A request is worked on in
-- parts, each a range of sectors with a buffer.
pub record BlockLayer : Type 1 where
  pub Queue : Type 0
  pub Request : Type 0
  -- The requests that wait, in the order in which they are handed out, and the parts of a request.
  pub waiting : Queue → List Request
  pub parts : Request → ℕ
  -- What has been submitted in the request: one number, or several where requests were coalesced.
  pub carried : Request → List ℕ
  pub blk_fetch_request : Queue → Queue × Option Request
  pub is_fs : Request → Bool
  pub blk_rq_pos : Request → ℕ
  pub blk_rq_cur_sectors : Request → ℕ
  pub buffer : Request → List ℕ
  pub is_write : Request → Bool
  -- __blk_end_request_cur: the request behind its current part, if there is more of it.
  pub blk_end_request_cur : Request → ℤ → Option Request
  pub fetch_empty : (q : Queue) → waiting q ≡ [] → (blk_fetch_request q).1 ≡ none
  pub fetch_stays : (q : Queue) → waiting q ≡ [] → waiting (blk_fetch_request q).0 ≡ []
  pub fetch_first :
      (q : Queue) (r : Request) (rs : List Request)
      → waiting q ≡ r ∷ rs
      → (blk_fetch_request q).1 ≡ some r
  pub fetch_rest :
      (q : Queue) (r : Request) (rs : List Request)
      → waiting q ≡ r ∷ rs
      → waiting (blk_fetch_request q).0 ≡ rs
  pub end_parts :
      (r r' : Request) (ret : ℤ) → blk_end_request_cur r ret ≡ some r' → parts r' < parts r
  pub end_carried :
      (r r' : Request) (ret : ℤ) → blk_end_request_cur r ret ≡ some r' → carried r' ≡ carried r

-- blockdev_transfer: reads for 0, writes otherwise.
unfoldable pub blockdev_transfer : Bool → Kernel → ℕ → ℕ → List ℕ → Bool → Option Done
blockdev_transfer allocated kernel sector nsect buffer false =
    sawa_read_data kernel sector nsect buffer
blockdev_transfer allocated kernel sector nsect buffer true =
    sawa_write_data allocated kernel sector nsect buffer

-- Where the handler of the work stands: not running, in front of a transfer, behind it with what it
-- returned, or behind the lock, in front of the test of current_req.
pub data Phase : Type 0 where
  idle : Phase
  transferring : Phase
  ending : ℤ → Phase
  testing : Phase

module _ (B : BlockLayer) where
  -- The driver's variables, whether the work is scheduled, and what of the submitted has been ended.
  pub record Driver : Type 0 where
    pub queue : B.Queue
    pub current_req : Option B.Request
    pub phase : Phase
    pub scheduled : Bool
    pub ended : List ℕ

  -- The loop of set_next_request, on fuel: what waits in the queue, the request that is current
  -- then, and the requests that were ended with an error since they are no file system requests.
  unfoldable pub fetch_loop : ℕ → B.Queue → List ℕ → Option (B.Queue × Option B.Request × List ℕ)
  fetch_loop zero q ended = none
  fetch_loop (suc fuel) q ended = elim ((B.blk_fetch_request q).1) [
    | none ↦ some ((B.blk_fetch_request q).0, none, ended)
    | some r ↦ elim (B.is_fs r) [
      | true ↦ some ((B.blk_fetch_request q).0, some r, ended)
      | false ↦ fetch_loop fuel (B.blk_fetch_request q).0 (ended ++ B.carried r)
    ]
  ]

  -- One round for each waiting request and one more. The queue is set here already.
  unfoldable pub set_next_request : Driver → Option Driver
  unfolding fetch_loop
  set_next_request d = elim (fetch_loop (suc (length (B.waiting d.queue))) d.queue d.ended) [
    | none ↦ none
    | some (q, current, ended) ↦ some (record d { queue = q; current_req = current; ended = ended })
  ]

  -- blockdev_request, which the block layer calls with its lock held, on the queue as it is then.
  unfoldable pub blockdev_request : Driver → B.Queue → Option Driver
  unfolding set_next_request
  blockdev_request d q = elim d.current_req [
    | some r ↦ some (record d { queue = q })
    | none ↦ elim (set_next_request (record d { queue = q })) [
      | none ↦ none
      | some d' ↦ elim d'.current_req [
        | none ↦ some d'
        | some r ↦ some (record d' { scheduled = true })
      ]
    ]
  ]

  -- The locked part of work_handler.
  unfoldable pub end_current : Driver → B.Request → ℤ → Option Driver
  unfolding set_next_request
  end_current d r ret = elim (B.blk_end_request_cur r ret) [
    | some r' ↦ some (record d { current_req = some r' })
    | none ↦ set_next_request (record d { ended = d.ended ++ B.carried r })
  ]

  -- The transfer of a request's current part, whose result is the number that work_handler passes on.
  unfoldable pub transfer : Bool → Kernel → B.Request → Option Done
  unfolding blockdev_transfer
  transfer allocated kernel r =
      blockdev_transfer allocated kernel (B.blk_rq_pos r) (B.blk_rq_cur_sectors r) (B.buffer r)
        (B.is_write r)

  -- One step of work_handler; its transfer returns `ret`. `none` is an access through a null pointer.
  -- A work that is not running is started if it is scheduled, and is then no longer scheduled.
  unfoldable pub work_handler : ℤ → Driver → Option Driver
  unfolding end_current
  work_handler ret d = elim d.phase [
    | idle ↦ some (if d.scheduled then record d { phase = transferring; scheduled = false } else d)
    | transferring ↦ elim d.current_req [
      | none ↦ none
      | some r ↦ some (record d { phase = ending ret })
    ]
    | ending n ↦ elim d.current_req [
      | none ↦ none
      | some r ↦ elim (end_current d r n) [
        | none ↦ none
        | some d' ↦ some (record d' { phase = testing })
      ]
    ]
    | testing ↦ elim d.current_req [
      | none ↦ some (record d { phase = idle })
      | some r ↦ some (record d { phase = transferring })
    ]
  ]

-- blockdev_getgeo: cylinders, heads, sectors and start.
unfoldable pub blockdev_getgeo : ℕ → ℕ × ℕ × ℕ × ℕ
blockdev_getgeo nb_sectors = (64, 1, nb_sectors, 0)
