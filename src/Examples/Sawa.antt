-- ===== src/Examples/Sawa.antt =====
-- The file server's theorems on a disk of one sector.
use sa_wa.Base.{
  ℕ, ◌+◌, ◌≡◌, ◌↔◌, refl, inr, Option, none, some, List, [], ◌∷◌, ◌++◌, pos, arith, true, length,
  replicate,
}
use sa_wa.Bytes.{bytes_of_u32, u32_of_bytes, load_u32, fill, stale_bytes}
use sa_wa.Storage.{memory_files, got, write_at}
use sa_wa.Thread.{ConnectionThread}
use sa_wa.Sawa.{
  Session, read_data, process_request, write_file, msg_ok, announced, receive, is_in_bounds,
  check_valid_request, read_file, store_range, dispatch, send_info, send_range,
}
use sa_wa.Sawa.Protocol.{Request, info, read, write, encode, answers, frames, IsDisk, Healthy}
use sa_wa.Sawa.Refinement.{Answered}
use sa_wa.Sawa.Serving.{Served, read_data-answers}
use sa_wa.Sawa.Durability.{read_data-write_read}
use sa_wa.Sawa.Faults.{truncated, process_request-truncated, write_file_wraps, read_data_closed}

abbrev pub healthy : Healthy memory_files
healthy = record { seeks = λ f o. refl; writes = λ f xs. refl }

abbrev pub worker : ConnectionThread
worker = record {
  nb = 0;
  client_sock = pos 4;
  nb_connections = 1;
  info = 0 ∷ 0 ∷ 0 ∷ [];
  next = 0;
  next_all = 0;
}

abbrev pub one_sector : Session memory_files
one_sector = record {
  nb_sectors = 1;
  fp = record { bytes = replicate 512 0; offset = 0 };
  thread = worker;
  output = [];
}

pub one_sector-IsDisk : IsDisk memory_files one_sector
one_sector-IsDisk = record { full = refl; fits = omega arith }

-- Memory that holds zero bytes.
abbrev clean : ℕ → ℕ → ℕ
clean k i = 0

abbrev traffic : List Request
traffic = info ∷ write 3 (7 ∷ 8 ∷ []) ∷ read 2 4 ∷ []

read_data-answers_example :
    (s' : Session memory_files) × (read_data memory_files clean one_sector (frames traffic)
      ≡ some s')
    × Served memory_files one_sector traffic s'
read_data-answers_example =
    read_data-answers memory_files healthy clean one_sector traffic one_sector-IsDisk
      (tt, ((omega arith, omega arith), (omega arith, tt)))

-- The replies to that traffic, run.
replies : Option (List ℕ)
unfolding read_data announced receive process_request dispatch send_info read_file store_range
    send_range write_file check_valid_request is_in_bounds encode frames
replies = elim (read_data memory_files clean one_sector (frames traffic)) [
  | none ↦ none
  | some s ↦ some s.output
]

replies_run : replies ≡ some (1 ∷ 0 ∷ 0 ∷ 0 ∷ 0x42 ∷ 0 ∷ 7 ∷ 8 ∷ 0 ∷ [])
unfolding replies load_u32 bytes_of_u32 u32_of_bytes fill stale_bytes write_at
replies_run = refl

read_data-write_read_example :
    (s' : Session memory_files) × (read_data memory_files clean one_sector
        (frames (write 3 (7 ∷ 8 ∷ []) ∷ (info ∷ write 9 (1 ∷ []) ∷ []) ++ read 3 2 ∷ []))
      ≡ some s')
    × (s'.output
        ≡ []
          ++ msg_ok
            ∷ ((answers 1
                  (write_at 3 (7 ∷ 8 ∷ []) (replicate 512 0))
                  (info ∷ write 9 (1 ∷ []) ∷ [])).1
                ++ 7 ∷ 8 ∷ []))
read_data-write_read_example =
    read_data-write_read memory_files healthy clean one_sector 3 (7 ∷ 8 ∷ [])
      (info ∷ write 9 (1 ∷ []) ∷ []) one_sector-IsDisk (omega arith) (tt, (inr (omega arith), tt))
      ((omega arith, omega arith), (tt, ((omega arith, omega arith), (omega arith, tt))))

process_request-truncated_example :
    (process_request memory_files (clean 0) one_sector (2 ∷ 0 ∷ 0 ∷ 0 ∷ 0 ∷ 9 ∷ []) 6 ≡ none)
    ↔ (truncated (2 ∷ 0 ∷ 0 ∷ 0 ∷ 0 ∷ 9 ∷ []) ≡ true)
process_request-truncated_example =
    process_request-truncated memory_files (clean 0) one_sector (2 ∷ 0 ∷ 0 ∷ 0 ∷ 0 ∷ 9 ∷ [])
      (omega arith)

write_file_wraps_example :
    (s' : Session memory_files) × (write_file memory_files one_sector (5 ∷ 6 ∷ []) 4294967295 2
      ≡ some s')
    × (length s'.fp.bytes ≡ 4294967295 + 2)
    × ¬ IsDisk memory_files s'
write_file_wraps_example =
    write_file_wraps memory_files healthy one_sector 4294967295 (5 ∷ 6 ∷ []) one_sector-IsDisk
      (omega arith) (omega arith) (omega arith) (omega arith) (omega arith)

-- Memory that holds 0x01.
abbrev ones : ℕ → ℕ → ℕ
ones k i = 1

read_data_closed_example :
    (s' : Session memory_files) × (read_data memory_files ones one_sector
        (got (bytes_of_u32 (length (encode info))) ∷ [])
      ≡ some s')
    × Answered memory_files one_sector info s'
unfolding stale_bytes encode
read_data_closed_example =
    read_data_closed memory_files healthy ones one_sector info one_sector-IsDisk tt refl
