-- ===== src/Session/RoundTrip.antt =====
-- A file that is uploaded and then downloaded: openUpload to Close of internal/s3fs/upload.go, then
-- openDownload and the reads of internal/s3fs/download.go, on one store.
use mathlib.Core.Path.{subst}
use s32ftp.Prelude.{ℕ, suc, ◌<◌, ◌≡◌, sym, ap, ◌∙◌, true, List, ◌++◌, none, some, length, drop}
use s32ftp.Prelude.Int.{ℤ, pos_part}
use s32ftp.Text.{Str}
use s32ftp.Errors.{ok, eof}
use s32ftp.Service.{Service}
use s32ftp.Service.Lawful.{Object, View, IsConfined}
use s32ftp.Service.Faithful.{IsFaithful, Uploader, IsUploader}
use s32ftp.Fs.{Fs, key}
use s32ftp.Download.{Download, Delivery, open_download}
use s32ftp.Download.Complete.{Answers, moves, read_to_end, download_lem}
use s32ftp.Upload.{Flags, UploadFile, close_returns}
use s32ftp.Upload.Run.{open_upload}
use s32ftp.Upload.Kept.{kept_part}
use s32ftp.Upload.Schedule.{Event, State, run}
use s32ftp.Upload.Safety.{opened}
use s32ftp.Upload.Outcome.{close_returns_lem}

-- The service answers a GET of any object that is there, and of a range that starts within it.
abbrev pub AnswersAll : (S : Service) → View S → Type 0
AnswersAll S at = (o : Object) → Answers S at o

-- What the client reads back after an upload whose Close returned no error is what the upload kept of
-- the old object followed by the bytes that the calls of Write reported as written, from the offset of
-- the download on, and then io.EOF; however the calls and the steps of the uploader fell, and whatever
-- pieces the network delivers, if each has a byte, the service answers every GET of an object that is
-- there and of a range that starts within it, and there are more rounds than bytes.
pub round_trip :
    (S : Service) (at : View S) (C : IsConfined S at) (F : IsFaithful S at) (U : Uploader S)
    (IU : IsUploader S at U) (A : AnswersAll S at) (mime : Str → Str) (f : Fs) (clean : Str)
    (flags : Flags) (offset start : ℤ) (w v x : S.World) (u : UploadFile) (es : List Event)
    (d : Download) (net : ℕ → Delivery) (n rounds : ℕ)
    → open_upload S mime f clean flags offset w ≡ (ok u, v)
    → close_returns (run S U es (opened S u v)).file ≡ some none
    → open_download S f clean start (run S U es (opened S u v)).world ≡ (ok d, x)
    → ((i : ℕ) → moves (net i) ≡ true)
    → length (
        kept_part flags offset (at w f.bucket (key f clean))
        ++ (run S U es (opened S u v)).accepted)
      < rounds
    → read_to_end S net (suc n) rounds d x ≡ (
      drop (pos_part start) (
          kept_part flags offset (at w f.bucket (key f clean))
          ++ (run S U es (opened S u v)).accepted),
      some eof,
    )
round_trip S at C F U IU A mime f clean flags offset start w v x u es d net n rounds up closed down
      m h =
    let s : State S = run S U es (opened S u v) in
    let (o, there, whole) =
      close_returns_lem S at C F U IU mime f clean flags offset w v u es up closed in
    download_lem S at C F o (A o) f clean start s.world x d net n rounds m there down
      (subst (λ body. length body < rounds) (sym whole) h)
    ∙ ap (λ body. (drop (pos_part start) body, some eof)) whole
