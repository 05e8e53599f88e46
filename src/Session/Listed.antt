-- ===== src/Session/Listed.antt =====
-- A listing after other operations: ReadDir of internal/s3fs/dir.go, after openUpload to Close of
-- internal/s3fs/upload.go or after Mkdir.
use s32ftp.Prelude.{ℕ, ◌≡◌, sym, ap, ◌∙◌, true, false, List, [], ◌∷◌, ◌++◌, none, some}
use s32ftp.Prelude.Int.{ℤ}
use s32ftp.Text.{Str, str_eq, member}
use s32ftp.Keys.{slash, clean_ftp_path, root_path}
use s32ftp.Errors.{ok}
use s32ftp.Info.{FileInfo}
use s32ftp.Service.{Service}
use s32ftp.Service.Lawful.{View, IsConfined}
use s32ftp.Service.Faithful.{IsFaithful, IsObedient, Uploader, IsUploader}
use s32ftp.Service.Thorough.{IsThorough}
use s32ftp.Service.Delimited.{file_item, dir_item, IsDelimiting}
use s32ftp.Fs.{Fs, key, key_dir}
use s32ftp.Listing.{names_of, read_dir}
use s32ftp.Listing.Complete.{IsName, read_dir-ShowsAll}
use s32ftp.Dir.{mkdir}
use s32ftp.Dir.Markers.{mkdir_lem}
use s32ftp.Upload.{Flags, UploadFile, close_returns}
use s32ftp.Upload.Run.{open_upload}
use s32ftp.Upload.Schedule.{Event, State, run}
use s32ftp.Upload.Safety.{opened}
use s32ftp.Upload.Outcome.{close_returns_lem}

-- After an upload whose Close returned no error, a ReadDir of the directory that reports no error
-- shows the name of the file: its key is that of the directory with the name behind it.
pub upload_listed :
    (S : Service) (at : View S) (C : IsConfined S at) (F : IsFaithful S at) (L : IsDelimiting S at)
    (U : Uploader S) (IU : IsUploader S at U) (mime : Str → Str) (f : Fs) (clean dir name : Str)
    (flags : Flags) (offset : ℤ) (w v x : S.World) (u : UploadFile) (es : List Event) (fuel : ℕ)
    (infos : List FileInfo)
    → IsName name
    → key f clean ≡ key_dir f (clean_ftp_path dir) ++ name
    → open_upload S mime f clean flags offset w ≡ (ok u, v)
    → close_returns (run S U es (opened S u v)).file ≡ some none
    → read_dir S fuel f dir (run S U es (opened S u v)).world ≡ (ok infos, x)
    → member name (names_of infos) ≡ true
upload_listed S at C F L U IU mime f clean dir name flags offset w v x u es fuel infos n e up closed
      h =
    let s : State S = run S U es (opened S u v) in
    let (o, there, _) =
      close_returns_lem S at C F U IU mime f clean flags offset w v u es up closed in
    let all = read_dir-ShowsAll S at C F L f fuel dir s.world x infos h in
    all.complete (file_item name) n (o, ap (at s.world f.bucket) (sym e) ∙ there)

-- After a Mkdir that reports no error, in a view with markers, a ReadDir of the directory above
-- that reports no error shows the name of the new one.
pub mkdir_listed :
    (S : Service) (at : View S) (C : IsConfined S at) (T : IsThorough S at) (F : IsFaithful S at)
    (O : IsObedient S at) (L : IsDelimiting S at) (f : Fs) (path dir name : Str) (w v x : S.World)
    (fuel : ℕ) (infos : List FileInfo)
    → IsName name
    → key_dir f (clean_ftp_path path) ≡ (key_dir f (clean_ftp_path dir) ++ name) ++ (slash ∷ [])
    → f.dir_marker ≡ true
    → str_eq (clean_ftp_path path) root_path ≡ false
    → mkdir S f path w ≡ (ok tt, v)
    → read_dir S fuel f dir v ≡ (ok infos, x)
    → member name (names_of infos) ≡ true
mkdir_listed S at C T F O L f path dir name w v x fuel infos n e marks root made h =
    let (o, there, _) = (mkdir_lem S at C T F O f path w v root made).with_marker marks in
    let all = read_dir-ShowsAll S at C F L f fuel dir v x infos h in
    all.complete (dir_item name) n ([], o, ap (at v f.bucket) (sym e) ∙ there)
