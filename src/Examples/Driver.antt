-- ===== src/Examples/Driver.antt =====
-- The driver's theorems, on a queue that is a list.
use sa_wa.Base.{
  codes, ℕ, zero, suc, ◌*◌, ◌≤◌, ◌≡◌, refl, sym, ap, subst, true, false, none, some, List, [], ◌∷◌,
  ◌++◌, ◌+◌, ◌⊎◌, ℤ, pos, negsuc, inl, inr, arith, replicate, length, length-replicate,
}
use sa_wa.Storage.{memory_files}
use sa_wa.Sawa.{Session, read_data}
use sa_wa.Client.EndToEnd.{two_reads}
use sa_wa.Driver.Log.{driver_dump_mem, sawa_handle_error}
use sa_wa.Driver.Rows.{rows_of, driver_dump_mem-rows_of}
use sa_wa.Driver.Ramdisk.{ramdisk_request, running}
use sa_wa.Driver.Tcp.{
  tcp_client_send, tcp_client_connect, tcp_client_receive, returned, delivered, refused,
}
use sa_wa.Driver.Network.{Kernel, Done, sawa_send_info}
use sa_wa.Driver.Loading.{
  Loader, NetDev, request_queue, gendisk, added_disk, code_of, held_of, sawa_driver_init,
  sawa_driver_exit, sawa_driver_init-sawa_driver_exit,
}
use sa_wa.Driver.Sending.{Working, accepting, tcp_client_send-whole}
use sa_wa.Driver.Disk.{Online}
use sa_wa.Driver.RoundTrip.{sectors_roundtrip}
use sa_wa.Driver.Queue.{transfer}
use sa_wa.Driver.Queue.{
  Driver, idle, transferring, ending, testing, blockdev_transfer, blockdev_request, work_handler,
}
use sa_wa.Driver.Interleaving.{IsFresh, Clear, Run, start, arrives, calls, works, work}
use sa_wa.Driver.Fetching.{identities, Settled, times, submitted}
use sa_wa.Driver.Order.{steps_left}
use sa_wa.Driver.Arrivals.{Run-work_handler}
use sa_wa.Driver.Draining.{Drained, work-Drained}
use sa_wa.Driver.Race.{blockdev_request-work_null}
use sa_wa.Examples.Sawa.{healthy}
use sa_wa.Examples.Client.{sixteen, sixteen-IsDisk, memory}
use sa_wa.Examples.Layer.{Item, list_layer}

abbrev fresh : Driver list_layer
fresh = record { queue = []; current_req = none; phase = idle; scheduled = false; ended = [] }

fresh-IsFresh : IsFresh list_layer fresh
fresh-IsFresh = record {
  at_rest = refl;
  unscheduled = refl;
  nothing = refl;
  empty = refl;
  no_end = refl;
}

abbrev two_parts : Item
two_parts = record { number = 1; more = 1; fs = true }

abbrev not_fs : Item
not_fs = record { number = 2; more = 0; fs = false }

abbrev one_part : Item
one_part = record { number = 3; more = 0; fs = true }

abbrev busy : Driver list_layer
busy = record fresh { current_req = some two_parts; scheduled = true }

abbrev burdened : Driver list_layer
burdened = record busy { queue = not_fs ∷ one_part ∷ [] }

busy_lem :
    blockdev_request list_layer (record fresh { queue = two_parts ∷ [] }) (two_parts ∷ [])
    ≡ some busy
unfolding blockdev_request
busy_lem = refl

idle-Clear : (d : Driver list_layer) → d.phase ≡ idle → Clear list_layer d
idle-Clear d p t = absurd (ground (arith, p, t))

-- A queue that held nothing, with a request of its own.
single :
    (r : Item) (a : ℕ)
    → times a (submitted list_layer (r ∷ []))
      ≡ times a (submitted list_layer []) + times a (r.number ∷ [])
unfolding times submitted
single r a = omega arith

-- Two requests that the block layer has sorted.
sorted :
    (a : ℕ)
    → times a (submitted list_layer (not_fs ∷ one_part ∷ []))
      ≡ times a (submitted list_layer []) + times a (3 ∷ 2 ∷ [])
unfolding times submitted
sorted a = omega arith

burdened-Run : Run list_layer (Clear list_layer) (1 ∷ 3 ∷ 2 ∷ []) burdened
burdened-Run =
    arrives
      (calls (arrives (start fresh-IsFresh) (two_parts ∷ []) (1 ∷ []) (single two_parts) refl refl)
        (idle-Clear (record fresh { queue = two_parts ∷ [] }) refl) busy_lem)
      (not_fs ∷ one_part ∷ []) (3 ∷ 2 ∷ []) sorted refl refl

Run-work_handler_example :
    ((a : ℕ)
      → times a ([] ++ identities list_layer (some two_parts) (not_fs ∷ one_part ∷ []))
        ≡ times a (1 ∷ 3 ∷ 2 ∷ []))
    × ((d' : Driver list_layer) × (work_handler list_layer (pos 0) burdened ≡ some d'))
    × (((idle ≡ testing) × (busy.current_req ≡ none))
        ⊎ ((d' : Driver list_layer) × (blockdev_request list_layer burdened (not_fs ∷ one_part ∷ [])
              ≡ some d')
            × Settled list_layer d'.current_req d'.queue))
Run-work_handler_example = Run-work_handler list_layer burdened-Run (pos 0)

work-Drained_example :
    (d₁ : Driver list_layer) × (d' : Driver list_layer) × (blockdev_request list_layer burdened
        (not_fs ∷ one_part ∷ [])
      ≡ some d₁)
    × (work list_layer (λ n. negsuc 0) (steps_left list_layer d₁ + 0) d₁ ≡ some d')
    × Drained list_layer (1 ∷ 3 ∷ 2 ∷ []) d'
work-Drained_example =
    work-Drained list_layer burdened-Run (idle-Clear burdened refl) (λ n. negsuc 0) 0

-- The run of these steps: the request that is not a file system request is skipped on the way.
test-work :
    work list_layer (λ n. negsuc 0) 19 burdened ≡ some (record fresh { ended = 1 ∷ 2 ∷ 3 ∷ [] })
unfolding work work_handler
test-work = refl

-- The handler of one request has come to its last test.
abbrev alone : Driver list_layer
alone = record fresh { current_req = some one_part; scheduled = true }

alone_lem :
    blockdev_request list_layer (record fresh { queue = one_part ∷ [] }) (one_part ∷ [])
    ≡ some alone
unfolding blockdev_request
alone_lem = refl

abbrev at_test : Driver list_layer
at_test = record fresh { phase = testing; ended = 3 ∷ [] }

started_lem :
    work_handler list_layer (pos 0) alone
    ≡ some (record alone { phase = transferring; scheduled = false })
unfolding work_handler
started_lem = refl

transferred_lem :
    work_handler list_layer (pos 0) (record alone { phase = transferring; scheduled = false })
    ≡ some (record alone { phase = ending (pos 0); scheduled = false })
unfolding work_handler
transferred_lem = refl

ended_lem :
    work_handler list_layer (pos 0) (record alone { phase = ending (pos 0); scheduled = false })
    ≡ some at_test
unfolding work_handler
ended_lem = refl

at_test-Run : Run list_layer (Clear list_layer) (3 ∷ []) at_test
at_test-Run =
    works
      (works
        (works
          (calls
            (arrives (start fresh-IsFresh) (one_part ∷ []) (3 ∷ []) (single one_part) refl refl)
            (idle-Clear (record fresh { queue = one_part ∷ [] }) refl) alone_lem)
          (pos 0) started_lem)
        (pos 0) transferred_lem)
      (pos 0) ended_lem

blockdev_request-work_null_example :
    (d' : Driver list_layer) × (blockdev_request list_layer at_test (one_part ∷ []) ≡ some d')
    × (work list_layer (λ n. pos 0) 6 d' ≡ none)
blockdev_request-work_null_example =
    blockdev_request-work_null list_layer at_test-Run refl refl (one_part ∷ []) one_part (pos 0)
      refl refl refl

tcp_client_send-whole_example :
    tcp_client_send false (1 ∷ 2 ∷ 3 ∷ []) (pos 2 ∷ negsuc 10 ∷ pos 1 ∷ pos 1 ∷ [])
    ≡ (1 ∷ 2 ∷ 3 ∷ [], returned (pos 3))
unfolding Working accepting
tcp_client_send-whole_example =
    tcp_client_send-whole (1 ∷ 2 ∷ 3 ∷ []) (pos 2 ∷ negsuc 10 ∷ pos 1 ∷ pos 1 ∷ []) (omega arith)
      (omega arith, omega arith, inr (inl refl, (omega arith, omega arith, inl refl))) (omega arith)

-- A kernel that takes a whole message of this length at once, and then more.
abbrev kernel_for : ℕ → List ℤ
kernel_for n = pos n ∷ replicate n (pos 1)

sector : List ℕ
sector = replicate 512 7

abbrev writing : Kernel
writing = record { created = pos 0; connected = pos 0; sends = kernel_for 521; receives = [] }

abbrev reading : Kernel
reading = record { created = pos 0; connected = pos 0; sends = kernel_for 13; receives = [] }

accepting-replicate : (n : ℕ) → accepting (replicate n (pos 1)) ≡ n
unfolding accepting
accepting-replicate zero = refl
accepting-replicate (suc n) = ap suc (accepting-replicate n)

kernel_for-Online :
    (k : Kernel) (n : ℕ)
    → k.created ≡ pos 0
    → k.connected ≡ pos 0
    → k.sends ≡ kernel_for n
    → 1 ≤ n
    → Online k n
unfolding Working accepting tcp_client_connect
kernel_for-Online k n c d e h = record {
  connects = ground (arith, c, d);
  working = subst (Working n) (sym e) (h, omega arith, inl refl);
  enough = omega (arith, ap accepting e, accepting-replicate n);
}

length-sector : length sector ≡ 1 * 512
unfolding sector
length-sector = length-replicate {A = ℕ} 512 7

sectors_roundtrip_example :
    (w : Done) × (r : Done) × (s₁ : Session memory_files) × (s₂ : Session memory_files)
    × (blockdev_transfer true writing 3 1 sector true ≡ some w)
    × (w.ret ≡ pos 0)
    × (read_data memory_files (λ k. memory) sixteen (two_reads w.wire) ≡ some s₁)
    × (blockdev_transfer true
          (record reading { receives = delivered s₂.output ∷ [] })
          3
          1
          (replicate 512 0)
          false
        ≡ some r)
    × (r.ret ≡ pos 0)
    × (r.buffer ≡ sector)
    × (read_data memory_files (λ k. memory) (record s₁ { output = [] }) (two_reads r.wire)
        ≡ some s₂)
    × (s₂.output ≡ sector)
unfolding tcp_client_receive
sectors_roundtrip_example =
    sectors_roundtrip memory_files healthy (λ k. memory) (λ k. memory) sixteen writing reading 3 1
      sector (replicate 512 0) sixteen-IsDisk (omega arith) length-sector
      (length-replicate {A = ℕ} 512 0) (omega arith) (omega arith)
      (kernel_for-Online writing 521 refl refl refl (omega arith))
      (kernel_for-Online reading 13 refl refl refl (omega arith))

-- The transfer of a request that reads, on a driver that the server does not answer.
test-transfer :
    transfer list_layer true (record reading { receives = refused 4 ∷ [] }) one_part
    ≡ some (record {
      ret = negsuc 0;
      wire = 9 ∷ 0 ∷ 0 ∷ 0 ∷ 2 ∷ 0 ∷ 6 ∷ 0 ∷ 0 ∷ 0 ∷ 2 ∷ 0 ∷ 0 ∷ [];
      buffer = replicate 512 0;
    })
unfolding transfer sa_wa.Driver.Network.sawa_read_data tcp_client_connect tcp_client_send
    sa_wa.Bytes.bytes_of_u32 tcp_client_receive
test-transfer = refl

-- register_blkdev fails, which the initialisation does not notice.
abbrev loader : Loader
loader = record {
  kernel = record {
    created = pos 0;
    connected = pos 0;
    sends = pos 5 ∷ [];
    receives = delivered (0 ∷ 8 ∷ 0 ∷ 0 ∷ []) ∷ [];
  };
  queue_made = true;
  registered = negsuc 15;
  disk_made = true;
}

abbrev informed : Done
informed = record { ret = pos 0; wire = 1 ∷ 0 ∷ 0 ∷ 0 ∷ 1 ∷ []; buffer = [] }

informed_lem : sawa_send_info memory loader.kernel 0 ≡ some (2048, informed)
unfolding sawa_send_info tcp_client_connect tcp_client_send sa_wa.Bytes.bytes_of_u32
    tcp_client_receive sa_wa.Bytes.load_u32 sa_wa.Bytes.u32_of_bytes
informed_lem = refl

sawa_driver_init-sawa_driver_exit_example :
    (dev : NetDev) × (sawa_driver_init memory loader 0 ≡ some (code_of true true true, dev))
    × (dev.held ≡ held_of true true true (negsuc 15))
    × ((sawa_driver_exit dev).held ≡ [])
sawa_driver_init-sawa_driver_exit_example =
    sawa_driver_init-sawa_driver_exit memory loader 0 2048 informed informed_lem

test-held_of : held_of true true true (negsuc 15) ≡ request_queue ∷ gendisk ∷ added_disk ∷ []
unfolding held_of
test-held_of = refl

driver_dump_mem-rows_of_example :
    driver_dump_mem (λ i. 7) (1 ∷ 255 ∷ []) 2 ≡ some (rows_of 3 (1 ∷ 255 ∷ []) 2 0)
driver_dump_mem-rows_of_example = driver_dump_mem-rows_of (λ i. 7) (1 ∷ 255 ∷ []) 2 (omega arith)

test-rows_of : rows_of 3 (1 ∷ 255 ∷ []) 2 0 ≡ codes "0000   01 ff\n" ∷ []
unfolding rows_of
test-rows_of = refl

test-sawa_handle_error :
    sawa_handle_error 0x99 ≡ codes "SaWa: failure to read (unknown response code 99)\n"
unfolding sawa_handle_error
test-sawa_handle_error = refl

test-ramdisk_request :
    ramdisk_request list_layer (λ i. 7) 8 5 (record { number = 1; more = 0; fs = false } ∷ []) none
    ≡ running
unfolding ramdisk_request
test-ramdisk_request = refl
