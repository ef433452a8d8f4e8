-- ===== src/Http/Files.antt =====
-- HTTPServer::getFile of server/http_srv.cpp: the files of the web server and their cache. The file
-- system is a parameter: what stat and fopen answer.
use sa_wa.Base.{
  ℕ, ◌-◌, ◌%◌, ◌^◌, ltb, Bool, true, false, Option, none, some, List, ◌++◌, length, ◌==◌,
  if◌then◌else◌, Text, codes, text_eq, leb, drop, ◌>>=◌,
}
use sa_wa.Bytes.{fill}

pub record Stat : Type 0 where
  pub st_mode : ℕ
  pub st_size : ℕ

pub record FileSystem : Type 0 where
  pub stat : Text → Option Stat
  pub fopen : Text → Option (List ℕ)

pub record WebFile : Type 0 where
  pub content : List ℕ
  pub size : ℕ

-- No file stands for a null pointer too.
abbrev pub Cache : Type 0
Cache = Text → Option WebFile

unfoldable pub insert : Text → WebFile → Cache → Cache
insert path file cache p = if text_eq p path then some file else cache p

abbrev pub root_dir : Text
root_dir = codes "./wwwroot"

abbrev pub index_html : Text
index_html = codes "index.html"

-- The size of a file as an int: the low 32 bits, and none where they are negative, since the
-- allocation of so many bytes throws what nothing catches.
unfoldable pub int_size : ℕ → Option ℕ
int_size st_size = let size = st_size % 2 ^ 32 in if ltb size (2 ^ 31) then some size else none

-- The constructor reads as many bytes as it is told, of a file that opens.
unfoldable pub web_file : (ℕ → ℕ) → FileSystem → Text → ℕ → Option WebFile
unfolding int_size
web_file stale files path st_size = do
  file_size ← int_size st_size
  bytes ← files.fopen path
  some (record { content = fill stale file_size bytes; size = file_size })

unfoldable pub ends_with : Text → Text → Bool
ends_with value ending =
    if leb (length ending) (length value)
    then text_eq (drop (length value - length ending) value) ending
    else false

-- `st.st_mode & S_IFDIR != 0` is `st.st_mode & 1`.
unfoldable pub is_folder : Stat → Bool
is_folder st = st.st_mode % 2 == 1

unfoldable pub index_of : Text → Text
unfolding ends_with
index_of path =
    if ends_with path (codes "/") then path ++ index_html else path ++ (codes "/" ++ index_html)

-- The path that is read and its stat.
unfoldable pub resolve : FileSystem → Text → Option (Text × Stat)
unfolding is_folder index_of
resolve files path = do
  st ← files.stat path
  elim (is_folder st) [
    | false ↦ some (path, st)
    | true ↦ do st' ← files.stat (index_of path); some (index_of path, st')
  ]

-- Behind a miss: a file and the cache with it, or no file.
unfoldable pub load_file :
    (ℕ → ℕ) → FileSystem → Cache → Option (Text × Stat) → Option (Option WebFile × Cache)
unfolding web_file insert
load_file stale files cache none = some (none, cache)
load_file stale files cache (some (path, st)) = do
  file ← web_file stale files path st.st_size
  some (some file, insert path file cache)

unfoldable pub get_file : (ℕ → ℕ) → FileSystem → Cache → Text → Option (Option WebFile × Cache)
unfolding resolve load_file
get_file stale files cache path = elim (cache (root_dir ++ path)) [
  | some file ↦ some (some file, cache)
  | none ↦ load_file stale files cache (resolve files (root_dir ++ path))
]
