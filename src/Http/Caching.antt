-- ===== src/Http/Caching.antt =====
-- getFile against the file system: what the cache holds, and what a request finds with and without it.
use mathlib.Core.Option.{some-injective}
use sa_wa.Base.{
  ◌%◌, ◌^◌, ◌<◌, ltb, true, arith, ℕ, ◌≡◌, refl, sym, ap, ◌∙◌, subst, false, Option, none, some,
  List, ◌++◌, if◌then◌else◌, Text, text_eq, text_eq_refl, text_eq_sound, Bool-cases, Option-cases,
  inl, inr,
}
use sa_wa.Bytes.{fill}
use sa_wa.Http.Files.{
  index_of, Stat, FileSystem, WebFile, Cache, insert, root_dir, web_file, is_folder, resolve,
  load_file, get_file, int_size,
}

insert_same : (p : Text) (f : WebFile) (cache : Cache) → insert p f cache p ≡ some f
unfolding insert
insert_same p f cache = ap (λ b. if b then some f else cache p) (text_eq_refl p)

-- A property of every file of a cache, with its path.
unfoldable pub Every : (Text → WebFile → Type 0) → Cache → Type 0
Every P cache = (p : Text) (f : WebFile) → cache p ≡ some f → P p f

insert-Every :
    (P : Text → WebFile → Type 0) (q : Text) (g : WebFile) (cache : Cache)
    → P q g
    → Every P cache
    → Every P (insert q g cache)
unfolding Every insert
insert-Every P q g cache new old p f h = elim (Bool-cases (text_eq p q)) [
  | inl e ↦
      let same : g ≡ f = some-injective g f (sym (ap (λ b. if b then some g else cache p) e) ∙ h) in
      subst (λ x. P x f) (sym (text_eq_sound p q e)) (subst (P q) same new)
  | inr e ↦ old p f (sym (ap (λ b. if b then some g else cache p) e) ∙ h)
]

-- A file of the file system, read whole up to the size that stat gives.
unfoldable pub FromDisk : (ℕ → ℕ) → FileSystem → Text → WebFile → Type 0
FromDisk stale files p f =
    (st : Stat) × (bytes : List ℕ) × (files.stat p ≡ some st)
    × (files.fopen p ≡ some bytes)
    × (f.content ≡ fill stale st.st_size bytes)
    × (f.size ≡ st.st_size)

-- Every file that stat knows opens, and is smaller than 2 GB.
unfoldable pub Readable : FileSystem → Type 0
Readable files =
    (p : Text) (st : Stat)
    → files.stat p ≡ some st
    → (bytes : List ℕ) × (files.fopen p ≡ some bytes) × (st.st_size < 2 ^ 31)

-- A size smaller than 2 GB is kept.
int_size_small : (n : ℕ) → n < 2 ^ 31 → int_size n ≡ some n
unfolding int_size
int_size_small n h =
    let low : n % 2 ^ 32 ≡ n = omega arith in
    let small : ltb n (2 ^ 31) ≡ true = ground arith in rw (low, small) refl

resolve-stat :
    (files : FileSystem) (p q : Text) (st : Stat)
    → resolve files p ≡ some (q, st)
    → files.stat q ≡ some st
unfolding resolve
resolve-stat files p q st h = ground arith

-- What a miss loads.
load_file-Every :
    (stale : ℕ → ℕ) (files : FileSystem) (cache : Cache) (q : Text) (st : Stat)
    → Readable files
    → files.stat q ≡ some st
    → Every (FromDisk stale files) cache
    → (f : WebFile) × (load_file stale files cache (some (q, st)) ≡ some (some f, insert q f cache))
      × FromDisk stale files q f
      × Every (FromDisk stale files) (insert q f cache)
unfolding Readable FromDisk load_file web_file
load_file-Every stale files cache q st readable s every =
    let (bytes, o, small) = readable q st s in
    let f : WebFile = record { content = fill stale st.st_size bytes; size = st.st_size } in
    let disk : FromDisk stale files q f = (st, bytes, s, o, refl, refl) in
    (
      f,
      rw (int_size_small st.st_size small, o) refl,
      disk,
      insert-Every (FromDisk stale files) q f cache disk every,
    )

resolve-file :
    (files : FileSystem) (p : Text) (st : Stat)
    → files.stat p ≡ some st
    → is_folder st ≡ false
    → resolve files p ≡ some (p, st)
unfolding resolve
resolve-file files p st s e = ground arith

module _ (stale : ℕ → ℕ) (files : FileSystem) (cache : Cache) (path : Text) where
  get_file-hit :
      (f : WebFile)
      → cache (root_dir ++ path) ≡ some f
      → get_file stale files cache path ≡ some (some f, cache)
  unfolding get_file
  get_file-hit f h = ground arith

  get_file-miss :
      cache (root_dir ++ path) ≡ none
      → get_file stale files cache path
        ≡ load_file stale files cache (resolve files (root_dir ++ path))
  unfolding get_file
  get_file-miss h = ground arith

-- A file that is found is on disk at some path.
unfoldable pub OnDisk : (ℕ → ℕ) → FileSystem → Option WebFile → Type 0
OnDisk stale files none = Unit
OnDisk stale files (some f) = (q : Text) × FromDisk stale files q f

-- Of a file system whose files open and are smaller than 2 GB, and a cache of files as they are on disk: a request for any
-- path is answered, the cache stays one of files as they are on disk, and a file that is found is
-- on disk at some path.
pub get_file-Every :
    (stale : ℕ → ℕ) (files : FileSystem) (cache : Cache) (path : Text)
    → Readable files
    → Every (FromDisk stale files) cache
    → (found : Option WebFile) × (cache' : Cache) × (get_file stale files cache path
        ≡ some (found, cache'))
      × Every (FromDisk stale files) cache'
      × OnDisk stale files found
unfolding load_file Every OnDisk
get_file-Every stale files cache path readable every =
    elim (Option-cases (cache (root_dir ++ path))) [
      | inr (g, hit) ↦ (
        some g,
        cache,
        get_file-hit stale files cache path g hit,
        every,
        (root_dir ++ path, every (root_dir ++ path) g hit),
      )
      | inl miss ↦ elim (Option-cases (resolve files (root_dir ++ path))) [
        | inl e ↦ (
          none,
          cache,
          get_file-miss stale files cache path miss ∙ ap (load_file stale files cache) e,
          every,
          tt,
        )
        | inr ((q, st), e) ↦
            let (f, l, disk, every') =
              load_file-Every stale files cache q st readable
                (resolve-stat files (root_dir ++ path) q st e) every in
            (
              some f,
              insert q f cache,
              get_file-miss stale files cache path miss ∙ ap (load_file stale files cache) e ∙ l,
              every',
              (q, disk),
            )
      ]
    ]

-- Of a file system whose files open and are smaller than 2 GB, and a cache of files as they are on disk: a path that stat
-- knows below the web root and that is no folder is answered with the file at that path, whatever
-- else is in the cache. From then on it is answered with the same content whatever becomes of the
-- file system.
pub get_file-again :
    (stale stale' : ℕ → ℕ) (files later : FileSystem) (cache : Cache) (path : Text) (st : Stat)
    → Readable files
    → Every (FromDisk stale files) cache
    → files.stat (root_dir ++ path) ≡ some st
    → is_folder st ≡ false
    → (f : WebFile) × (cache' : Cache) × (get_file stale files cache path ≡ some (some f, cache'))
      × FromDisk stale files (root_dir ++ path) f
      × (get_file stale' later cache' path ≡ some (some f, cache'))
unfolding load_file Every
get_file-again stale stale' files later cache path st readable every s plain =
    elim (Option-cases (cache (root_dir ++ path))) [
      | inr (g, hit) ↦ (
        g,
        cache,
        get_file-hit stale files cache path g hit,
        every (root_dir ++ path) g hit,
        get_file-hit stale' later cache path g hit,
      )
      | inl miss ↦
          let (f, l, disk, every') =
            load_file-Every stale files cache (root_dir ++ path) st readable s every in
          let cache' : Cache = insert (root_dir ++ path) f cache in
          (
            f,
            cache',
            get_file-miss stale files cache path miss
                ∙ ap (load_file stale files cache)
                    (resolve-file files (root_dir ++ path) st s plain)
                ∙ l,
            disk,
            get_file-hit stale' later cache' path f (insert_same (root_dir ++ path) f cache),
          )
    ]

resolve-executable :
    (files : FileSystem) (p : Text) (st : Stat)
    → files.stat p ≡ some st
    → is_folder st ≡ true
    → files.stat (index_of p) ≡ none
    → resolve files p ≡ none
unfolding resolve
resolve-executable files p st s e n = ground arith

-- A path whose file is not cached yet, and whose mode lets others execute it, is taken for a
-- folder: without an index.html below it no file is found, though stat knows the path; once the
-- same path is in the cache the file is found.
pub get_file-executable :
    (stale : ℕ → ℕ) (files : FileSystem) (cache : Cache) (path : Text) (st : Stat) (f : WebFile)
    → cache (root_dir ++ path) ≡ none
    → files.stat (root_dir ++ path) ≡ some st
    → st.st_mode % 2 ≡ 1
    → files.stat (index_of (root_dir ++ path)) ≡ none
    → (get_file stale files cache path ≡ some (none, cache))
      × (get_file stale files (insert (root_dir ++ path) f cache) path
          ≡ some (some f, insert (root_dir ++ path) f cache))
unfolding is_folder load_file
get_file-executable stale files cache path st f miss s odd index =
    let folder : is_folder st ≡ true = ground arith in
    (
      get_file-miss stale files cache path miss
          ∙ ap (load_file stale files cache)
              (resolve-executable files (root_dir ++ path) st s folder index),
      get_file-hit stale files (insert (root_dir ++ path) f cache) path f
          (insert_same (root_dir ++ path) f cache),
    )
