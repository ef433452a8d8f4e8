-- ===== src/Admin/Closing.antt =====
-- Administrators that ask for statistics, and one that stops the process.
use sa_wa.Base.{
  ℕ, zero, suc, ◌+◌, ◌*◌, ◌^◌, ◌≡◌, true, false, Option, none, some, List, [], ◌∷◌, ◌++◌, ℤ, pos,
  length, take, leb, ltb, ◌&&◌,
}
use sa_wa.Bytes.{bytes_of_u32, load_u32}
use sa_wa.Storage.{Recv, got}
use sa_wa.Client.{sawa_stat}
use sa_wa.Pool.{ThreadPool, get_thread_statistics, sizeof_stat}
use sa_wa.Admin.{AdminSession, read_command}

-- The reads of a command that is delivered whole, and of this many STAT commands.
abbrev pub command : ℕ → List Recv → List Recv
command op rest = got (bytes_of_u32 1) ∷ got (op ∷ []) ∷ rest

unfoldable pub stats : ℕ → List Recv → List Recv
stats zero rest = rest
stats (suc k) rest = command sawa_stat (stats k rest)

-- The connections of administrators that ask for statistics only, this many times each.
unfoldable pub asking : List (ℕ × ℕ) → List (ℤ × List Recv) → List (ℤ × List Recv)
unfolding stats
asking [] rest = rest
asking ((sock, k) ∷ ks) rest = (pos (suc sock), stats k []) ∷ asking ks rest

unfoldable pub copies : ℕ → List ℕ → List ℕ
copies zero xs = []
copies (suc k) xs = xs ++ copies k xs

unfoldable pub asked : List (ℕ × ℕ) → ℕ
asked [] = 0
asked ((sock, k) ∷ ks) = k + asked ks

-- The bytes that STAT is answered with.
abbrev reply_of : ThreadPool → List ℕ → List ℕ
reply_of pool buffer = take (pool.thread_nb * sizeof_stat) buffer

-- Behind a command: the next ones, unless the process has been stopped.
unfoldable continue : (ℕ → ℕ → ℕ) → List Recv → Option AdminSession → Option AdminSession
continue stale rest done = elim done [
  | none ↦ none
  | some s ↦ elim s.stopped [ true ↦ some s | false ↦ read_command stale s rest ]
]

module _ (stale : ℕ → ℕ → ℕ) (pool : ThreadPool) (buffer : List ℕ) (size : ℕ)
    (statistics : get_thread_statistics pool ≡ some buffer)
    (announces : load_u32 buffer 0 ≡ some size)
    (inside : (ltb size (2 ^ 31) && leb size (length buffer)) ≡ true) where
  -- An administrator's session over the pool, with this output.
  at : List ℕ → AdminSession
  at output = record { pool = pool; output = output; stopped = false }
