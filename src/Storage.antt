-- ===== src/Storage.antt =====
-- The C library's streams as server/sawa_srv.cpp uses them on the filesystem file (fopen's `r+`
-- stream, fseek, fread, fwrite), and the answers of read(2) on a socket. Neither is code of the
-- repository: the streams are an interface with the behaviour that their manual documents for a
-- regular file, and a run is given what each call of read answers.
mod Splice
pub use Splice.{
  read_at, read_at-write_at, write_at_empty, write_at_zero, length-write_at, length-write_at_beyond,
  read_at-write_at_before, drop-write_at_after, length-read_at, write_at-append,
}
unfoldable pub use Splice.{write_at}
use sa_wa.Base.{ℕ, ◌+◌, ◌-◌, ◌≤◌, ◌≡◌, refl, Bool, true, List, [], length, if◌then◌else◌, leb}

-- The operations of a stream, the bytes that its file holds and its position.
pub record FileOps : Type 1 where
  pub File : Type 0
  pub contents : File → List ℕ
  pub position : File → ℕ
  -- The result tells whether the call returned a number that is not negative.
  pub fseek : File → ℕ → File × Bool
  pub fread : File → ℕ → File × List ℕ
  pub fwrite : File → List ℕ → File × ℕ
  pub fseek_contents : (f : File) (o : ℕ) → contents (fseek f o).0 ≡ contents f
  pub fseek_position : (f : File) (o : ℕ) → (fseek f o).1 ≡ true → position (fseek f o).0 ≡ o
  pub fread_contents : (f : File) (n : ℕ) → contents (fread f n).0 ≡ contents f
  pub fread_bytes : (f : File) (n : ℕ) → (fread f n).1 ≡ read_at (position f) n (contents f)
  -- A write that reports all of its bytes has put them at the position.
  pub fwrite_contents :
      (f : File) (xs : List ℕ)
      → (fwrite f xs).1 ≡ length xs
      → contents (fwrite f xs).0 ≡ write_at (position f) xs (contents f)

-- What one call of read(2) answers: the bytes that it delivers (none at the end of the stream), or
-- a failure, for which read returns -1.
pub data Recv : Type 0 where
  got : List ℕ → Recv
  failed : Recv

-- A stream over a regular file on which no call fails.
pub record MemoryFile : Type 0 where
  pub bytes : List ℕ
  pub offset : ℕ

abbrev pub memory_files : FileOps
memory_files = record {
  File = MemoryFile;
  contents = λ f. f.bytes;
  position = λ f. f.offset;
  fseek = λ f o. (record f { offset = o }, true);
  fread = λ f n. (
    record f { offset = f.offset + length (read_at f.offset n f.bytes) },
    read_at f.offset n f.bytes,
  );
  fwrite = λ f xs.
      (record { bytes = write_at f.offset xs f.bytes; offset = f.offset + length xs }, length xs);
  fseek_contents = λ f o. refl;
  fseek_position = λ f o h. refl;
  fread_contents = λ f n. refl;
  fread_bytes = λ f n. refl;
  fwrite_contents = λ f xs h. refl;
}
