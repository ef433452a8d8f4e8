-- ===== src/Examples/Http.antt =====
-- The web server on a file system with one page, at concrete inputs.
use mathlib.Core.Option.{some-injective, none-ne-some}
use sa_wa.Base.{
  sym, subst, text_eq_sound, ℕ, ◌<◌, ◌^◌, ◌≡◌, refl, Bool, true, false, Option, none, some, List,
  [], ◌∷◌, ◌++◌, Text, codes, text_eq, c_string, arith, length, if◌then◌else◌, ap,
}
use sa_wa.Storage.{Recv, got, failed}
use sa_wa.Thread.{connection_thread}
use sa_wa.Http.Request.{Match, HttpRequest, match_loop}
use sa_wa.Http.Parsing.{IsSearch, first_match, match_loop-first}
use sa_wa.Http.Files.{insert, index_of, FileSystem, Stat, WebFile, Cache, get_file, root_dir}
use sa_wa.Http.Caching.{get_file-executable, Every, FromDisk, Readable}
use sa_wa.Http.Serve.{Environment, Connection, answer_request, read_http_data}
use sa_wa.Http.Answers.{Answered, answer_request-files}
use sa_wa.Http.Reading.{IsServer, Responses, CacheOk, read_http_data-Responses}
use sa_wa.Base.{pos}

module _ {ℓ} {A : Type ℓ} where
  chosen : (b : Bool) (x y : A) → (if b then some x else none) ≡ some y → b ≡ true
  chosen true x y h = refl
  chosen false x y h = absurd (none-ne-some y h)

  chosen_only : (b : Bool) (x y : A) → (if b then some x else none) ≡ some y → x ≡ y
  chosen_only true x y h = some-injective x y h
  chosen_only false x y h = absurd (none-ne-some y h)

abbrev pub line : Text
line = codes "GET /page HTTP/1.1"

abbrev page_match : Match
page_match = record {
  groups = codes "GET /page HTTP" ∷ codes "/page" ∷ [] ∷ [] ∷ [];
  suffix = codes "/1.1";
}

-- The expression on lines that ask for the page.
abbrev search : Text → Option Match
search s = if text_eq s line then some page_match else none

search-IsSearch : IsSearch search
search-IsSearch = record {
  four = λ s m h. ap (λ x. length x.groups) (sym (chosen_only (text_eq s line) page_match m h));
  shorter = λ s m h.
      subst (λ x. length x.suffix < length s) (chosen_only (text_eq s line) page_match m h)
        (subst (λ x. 4 < length x)
          (sym (text_eq_sound s line (chosen (text_eq s line) page_match m h))) (omega arith));
}

abbrev pub page_path : Text
page_path = codes "./wwwroot/page"

abbrev disk : FileSystem
disk = record {
  stat = λ p. if text_eq p page_path then some (record { st_mode = 33188; st_size = 2 }) else none;
  fopen = λ p. if text_eq p page_path then some (codes "hi") else none;
}

disk-Readable : Readable disk
unfolding Readable
disk-Readable p st h = (
  codes "hi",
  ap (λ b. if b then some (codes "hi") else none)
      (chosen (text_eq p page_path) (record { st_mode = 33188; st_size = 2 }) st h),
  subst (λ (x : Stat). x.st_size < 2 ^ 31)
      (chosen_only (text_eq p page_path) (record { st_mode = 33188; st_size = 2 }) st h)
      (omega arith),
)

abbrev no_cache : Cache
no_cache p = none

no_cache-Every : (stale : ℕ → ℕ) → Every (FromDisk stale disk) no_cache
unfolding Every
no_cache-Every stale p f h = ground arith

match_loop-first_example : match_loop search 19 0 line ([], []) ≡ some (first_match (search line))
match_loop-first_example = match_loop-first search line search-IsSearch

abbrev pub environment : Environment
environment = record {
  regex_search = search;
  beyond = λ i. 0;
  pointer = 16 ∷ 32 ∷ 0 ∷ 0 ∷ 0 ∷ 0 ∷ 0 ∷ 0 ∷ [];
  stale = λ i. 7;
  files = disk;
  towa = none;
}

abbrev pub fresh : Connection
fresh = record { thread = connection_thread (pos 4) 0 0; cache = no_cache; output = [] }

abbrev pub ask : HttpRequest
ask = record { path = codes "/page"; query_string = []; keep_alive = true }

answer_request-files_example :
    (s' : Connection) × (keep : Bool) × (answer_request environment fresh ask ≡ some (s', keep))
    × Answered fresh true s' keep
    × Every (FromDisk (λ i. 7) disk) s'.cache
answer_request-files_example =
    answer_request-files environment fresh ask refl disk-Readable (no_cache-Every (λ i. 7))

pub environment-IsServer : IsServer environment
unfolding c_string
environment-IsServer = record {
  plain = refl;
  readable = disk-Readable;
  search = search-IsSearch;
  short_pointer = (16 ∷ 32 ∷ [], refl);
}

abbrev pub reads : List Recv
reads = got (line ++ codes "\nConnection: Keep-Alive\r\n\r\n") ∷ got line ∷ failed ∷ []

read_http_data-Responses_example :
    (s' : Connection) × (read_http_data environment fresh none reads ≡ some s')
    × Responses fresh s'
    × CacheOk environment s'
read_http_data-Responses_example =
    read_http_data-Responses environment fresh none reads environment-IsServer
      (no_cache-Every (λ i. 7))

-- A file that others may execute.
abbrev executable : FileSystem
executable = record {
  stat = λ p. if text_eq p page_path then some (record { st_mode = 33261; st_size = 2 }) else none;
  fopen = λ p. if text_eq p page_path then some (codes "hi") else none;
}

abbrev hi : WebFile
hi = record { content = codes "hi"; size = 2 }

get_file-executable_example :
    (get_file (λ i. 7) executable no_cache (codes "/page") ≡ some (none, no_cache))
    × (get_file (λ i. 7) executable (insert (root_dir ++ codes "/page") hi no_cache) (codes "/page")
        ≡ some (some hi, insert (root_dir ++ codes "/page") hi no_cache))
unfolding text_eq index_of
get_file-executable_example =
    get_file-executable (λ i. 7) executable no_cache (codes "/page")
      (record { st_mode = 33261; st_size = 2 }) hi refl refl refl refl
