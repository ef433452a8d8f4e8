-- ===== src/Examples/Util.antt =====
-- The search at a concrete input.
use sa_wa.Base.{arith, length, ◌/◌, List, ℕ, ◌+◌, ◌<◌, ◌≡◌, ◌↔◌, true, codes, get_or}
use sa_wa.Util.{strn_case_str, same_text}
use sa_wa.Util.Dump.{dump_mem, ShowsStart, dump_mem-ShowsStart}
use sa_wa.Util.Search.{strn_case_str_iff}

abbrev headers : ℕ → ℕ
headers i = get_or (codes "GET / HTTP/1.1\nconnection: keep-alive\n") i 0

strn_case_str_iff_example :
    (strn_case_str headers (codes "Connection: Keep-Alive") 1016 ≡ true)
    ↔ ((i : ℕ) × (i + 1 < 1016) × (same_text headers i (codes "Connection: Keep-Alive") ≡ true))
strn_case_str_iff_example = strn_case_str_iff headers b'C' (codes "onnection: Keep-Alive") 1016

abbrev block : List ℕ
block = codes "GET /page HTTP/1.1"

dump_mem-ShowsStart_example :
    (length (dump_mem true block 18) ≡ (18 + 15) / 16)
    × ShowsStart block 18 (dump_mem true block 18)
dump_mem-ShowsStart_example = dump_mem-ShowsStart block 18 (omega arith)
