-- ===== src/Sawa/Protocol.antt =====
-- protocol.md: the three commands, their encoding, and what the file server promises for each.
use sa_wa.Base.{
  ℕ, ◌+◌, ◌*◌, ◌^◌, ◌≤◌, ◌<◌, ◌≡◌, List, [], ◌∷◌, ◌++◌, length, leb, if◌then◌else◌, true,
}
use sa_wa.Bytes.{bytes_of_u32}
use sa_wa.Storage.{FileOps, Recv, got, read_at, write_at}
use sa_wa.Sawa.{Session, sawa_info, sawa_read, sawa_write, msg_ok, msg_noauth}

pub data Request : Type 0 where
  info : Request
  read : (offset size : ℕ) → Request
  write : (offset : ℕ) → List ℕ → Request

-- The message behind its size.
unfoldable pub encode : Request → List ℕ
encode info = sawa_info ∷ []
encode (read offset size) = sawa_read ∷ (bytes_of_u32 offset ++ bytes_of_u32 size)
encode (write offset bytes) = sawa_write ∷ (bytes_of_u32 offset ++ bytes)

-- The fields are 32-bit numbers, the range does not wrap, and the message is one that readData takes.
abbrev pub IsRequest : Request → Type 0
IsRequest info = Unit {0}
IsRequest (read offset size) = offset + size < 2 ^ 32
IsRequest (write offset bytes) = (offset + length bytes < 2 ^ 32) × (length bytes ≤ 32763)

-- The disk behind the request, and the reply. The disk has `nb_sectors` sectors of 512 bytes.
unfoldable pub answer : ℕ → List ℕ → Request → List ℕ × List ℕ
answer nb_sectors disk info = (disk, bytes_of_u32 nb_sectors)
answer nb_sectors disk (read offset size) =
    if leb (offset + size) (nb_sectors * 512)
    then (disk, read_at offset size disk)
    else (disk, msg_noauth ∷ [])
answer nb_sectors disk (write offset bytes) =
    if leb (offset + length bytes) (nb_sectors * 512)
    then (write_at offset bytes disk, msg_ok ∷ [])
    else (disk, msg_noauth ∷ [])

unfoldable pub answers : ℕ → List ℕ → List Request → List ℕ × List ℕ
answers nb_sectors disk [] = (disk, [])
answers nb_sectors disk (r ∷ rs) =
    let (disk', reply) = answer nb_sectors disk r in
    let (disk'', replies) = answers nb_sectors disk' rs in (disk'', reply ++ replies)

-- What the two reads of each message deliver when no read is short.
unfoldable pub frames : List Request → List Recv
unfolding encode
frames [] = []
frames (r ∷ rs) = got (bytes_of_u32 (length (encode r))) ∷ got (encode r) ∷ frames rs

abbrev pub AreRequests : List Request → Type 0
AreRequests [] = Unit {0}
AreRequests (r ∷ rs) = IsRequest r × AreRequests rs

-- The file is as large as the sectors, and its last offset is a 32-bit number.
pub record IsDisk (F : FileOps) (s : Session F) : Type 0 where
  pub full : length (F.contents s.fp) ≡ s.nb_sectors * 512
  pub fits : s.nb_sectors * 512 < 2 ^ 32

-- No call on the stream fails.
pub record Healthy (F : FileOps) : Type 0 where
  pub seeks : (f : F.File) (o : ℕ) → (F.fseek f o).1 ≡ true
  pub writes : (f : F.File) (xs : List ℕ) → (F.fwrite f xs).1 ≡ length xs
