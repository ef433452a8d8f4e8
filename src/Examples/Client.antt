-- ===== src/Examples/Client.antt =====
-- The client's theorems, against a server with sixteen sectors.
use sa_wa.Base.{refl}
use sa_wa.Sawa.{sawa_write}
use sa_wa.Bytes.{bytes_of_u32}
use sa_wa.Sawa.Protocol.{info, frames}
use sa_wa.Client.Passing.{
  self_test, page_requests, wire_of, page_replies, replied_bytes, self_test-read_data,
}
use sa_wa.Base.{Text, codes, text_eq, ℤ, if◌then◌else◌}
use sa_wa.Storage.{failed}
use sa_wa.Sawa.Protocol.{answer}
use sa_wa.Client.Program.{client_main}
use sa_wa.Client.Asking.{request_of, shown_for}
use sa_wa.Client.Exchange.{client_main-read_data}
use sa_wa.Client.Running.{sawa_interface, Connecting, send_command, not_authorized}
use sa_wa.Client.Timing.{timeval_subtract, at_time}
use sa_wa.Base.{
  pos, ℕ, ◌*◌, ◌≡◌, some, List, [], ◌∷◌, ◌++◌, arith, length, length-replicate, replicate,
}
use sa_wa.Bytes.{stale_bytes}
use sa_wa.Storage.{memory_files, got, write_at}
use sa_wa.Sawa.{Session, read_data, msg_ok}
use sa_wa.Sawa.Protocol.{read, write, IsDisk}
use sa_wa.Client.{SawaInterface, returned, thrown, send_read_cmd, send_write_cmd, write_response}
use sa_wa.Client.Commands.{framed}
use sa_wa.Client.EndToEnd.{two_reads, page_roundtrip}
use sa_wa.Examples.Sawa.{healthy, worker}

abbrev pub connected : SawaInterface
connected = record { buffer_out = []; total_size = 0; written = [] }

abbrev pub sixteen : Session memory_files
sixteen = record {
  nb_sectors = 16;
  fp = record { bytes = replicate (16 * 512) 0; offset = 0 };
  thread = worker;
  output = [];
}

pub sixteen-IsDisk : IsDisk memory_files sixteen
sixteen-IsDisk = record { full = length-replicate {A = ℕ} (16 * 512) 0; fits = omega arith }

abbrev pub memory : ℕ → ℕ
memory i = 9

ones : List ℕ
ones = replicate 4096 1

length-ones : length ones ≡ 4096
unfolding ones
length-ones = length-replicate {A = ℕ} 4096 1

page_roundtrip_example :
    (s' : Session memory_files) × (sawa₁ : SawaInterface) × (sawa₂ : SawaInterface) × (read_data
        memory_files
        (λ k. memory)
        sixteen
        (two_reads (framed (write 4096 ones)) ++ two_reads (framed (read 4096 4096)))
      ≡ some s')
    × (s'.output ≡ [] ++ msg_ok ∷ ones)
    × (send_write_cmd memory connected ones 4096 (got (msg_ok ∷ [])) ≡ some (sawa₁, pos msg_ok))
    × (send_read_cmd memory sawa₁ 4096 4096 (got ones) ≡ some (sawa₂, returned ones))
    × (sawa₂.written ≡ [] ++ (framed (write 4096 ones) ++ framed (read 4096 4096)))
page_roundtrip_example =
    page_roundtrip memory_files healthy memory (λ k. memory) sixteen connected 4096 ones
      sixteen-IsDisk length-ones (omega arith)

self_test-read_data_example :
    (s' : Session memory_files) × (sawa' : SawaInterface) × (self_test memory connected
        (page_replies 0 1)
      ≡ some (sawa', []))
    × (sawa'.written ≡ [] ++ wire_of (info ∷ page_requests 0 1))
    × (read_data memory_files (λ k. memory) sixteen (frames (info ∷ page_requests 0 1)) ≡ some s')
    × (s'.output ≡ [] ++ (bytes_of_u32 16 ++ replied_bytes 0 1))
self_test-read_data_example =
    self_test-read_data memory_files healthy memory (λ k. memory) sixteen connected 1 sixteen-IsDisk
      (omega arith)

abbrev reached : Connecting
reached = record { converted = pos 1; connected = pos 0 }

test-send_command :
    send_command memory reached sawa_write 8192 4 (got (0x44 ∷ []))
    ≡ some (framed (write 8192 (replicate 4 0xFF ++ replicate 4092 9)), not_authorized)
unfolding send_command sa_wa.Client.send_fill_cmd send_write_cmd sa_wa.Client.prepare_command
    sa_wa.Bytes.fill stale_bytes sa_wa.Bytes.bytes_of_u32 write_at sa_wa.Client.store_payload
    sa_wa.Client.send_cmd_to_server write_response framed sa_wa.Sawa.Protocol.encode
test-send_command = refl

test-timeval_subtract : timeval_subtract (at_time 7 250000) (at_time 5 900000) ≡ at_time 1 350000
unfolding timeval_subtract
test-timeval_subtract = refl

abbrev number : Text → ℤ
number t = if text_eq t (codes "16") then pos 16 else pos 4096

client_main-read_data_example :
    (s' : Session memory_files) × (read_data memory_files
        (λ k. memory)
        sixteen
        (two_reads (framed (read 4096 16)))
      ≡ some s')
    × (s'.fp.bytes ≡ (answer 16 (replicate (16 * 512) 0) (read 4096 16)).0)
    × (s'.output ≡ [] ++ (answer 16 (replicate (16 * 512) 0) (read 4096 16)).1)
    × (client_main number memory
          (record {
            calls = reached;
            reply = got (answer 16 (replicate (16 * 512) 0) (read 4096 16)).1;
            body = failed;
          })
          (codes "read" ∷ codes "4096" ∷ codes "16" ∷ [])
        ≡ some (framed (read 4096 16), shown_for 16 (replicate (16 * 512) 0) (read 4096 16)))
unfolding sawa_interface request_of sa_wa.Client.CommandLine.command_line text_eq
    sa_wa.Client.CommandLine.range_action sa_wa.Client.CommandLine.to_unsigned
client_main-read_data_example =
    client_main-read_data memory_files healthy number memory (λ k. memory) sixteen reached failed
      (codes "read" ∷ codes "4096" ∷ codes "16" ∷ []) (read 4096 16) sixteen-IsDisk refl refl
      (omega arith)
