-- ===== src/Client/Exchange.antt =====
-- The client as a program against the file server: what a command line sends, what the server makes
-- of it, and what the user is shown.
use sa_wa.Base.{ℕ, ◌≡◌, refl, ap, ◌∙◌, some, List, [], ◌∷◌, ◌++◌, ℤ, Text, append-nil}
use sa_wa.Bytes.{bytes_of_u32}
use sa_wa.Storage.{FileOps, Recv, got}
use sa_wa.Sawa.{Session, read_data}
use sa_wa.Sawa.Protocol.{Request, answer, answers, frames, IsRequest, IsDisk, Healthy}
use sa_wa.Sawa.Serving.{read_data-answers}
use sa_wa.Client.Commands.{framed}
use sa_wa.Client.EndToEnd.{two_reads}
use sa_wa.Client.CommandLine.{command_line}
use sa_wa.Client.Running.{Connecting, unsent, sawa_interface}
use sa_wa.Client.Asking.{request_of, shown_for, action-Runs}
use sa_wa.Client.Program.{client_main}

-- What the client puts on the wire is what the server reads.
two_reads-framed : (r : Request) → two_reads (framed r) ≡ frames (r ∷ [])
unfolding framed frames bytes_of_u32
two_reads-framed r = refl

module _ (F : FileOps) where
  -- A client whose command line is info, a read of at least a byte and less than 2 GB, or a write
  -- of 1 to 4096 bytes, that reaches the server, with a range that does not wrap, against a server
  -- with a well-formed disk, whose reads are whole and whose stream calls do not fail: the client
  -- sends one request, a write's filled up to 4096 bytes with what its memory held; the server
  -- carries it out and replies as the protocol promises; and with that reply, delivered whole, the
  -- client shows the number of sectors, the rows that dumpMem makes of the bytes read, or whether
  -- the write was done. A read outside the disk, and any read of one byte, ends the client by an
  -- exception with the reply's byte.
  pub client_main-read_data :
      Healthy F
      → (atoi : Text → ℤ) (stale : ℕ → ℕ) (memory : ℕ → ℕ → ℕ) (s : Session F) (calls : Connecting)
        (body : Recv) (args : List Text) (r : Request)
      → IsDisk F s
      → sawa_interface calls ≡ some unsent
      → request_of stale (command_line atoi args) ≡ some r
      → IsRequest r
      → (s' : Session F) × (read_data F memory s (two_reads (framed r)) ≡ some s')
        × (F.contents s'.fp ≡ (answer s.nb_sectors (F.contents s.fp) r).0)
        × (s'.output ≡ s.output ++ (answer s.nb_sectors (F.contents s.fp) r).1)
        × (client_main atoi stale
              (record {
                calls = calls;
                reply = got (answer s.nb_sectors (F.contents s.fp) r).1;
                body = body;
              })
              args
            ≡ some (framed r, shown_for s.nb_sectors (F.contents s.fp) r))
  unfolding answers client_main
  client_main-read_data ok atoi stale memory s calls body args r d reached asked v =
      let (s', e, served) = read_data-answers F ok memory s (r ∷ []) d (v, tt) in
      (
        s',
        ap (read_data F memory s) (two_reads-framed r) ∙ e,
        served.disk_eq,
        served.output_eq ∙ ap (λ x. s.output ++ x) (append-nil _),
        action-Runs stale s.nb_sectors (F.contents s.fp) d.fits d.full calls reached body
            (command_line atoi args) r asked,
      )
