-- ===== src/Opening.antt =====
-- How a client gets a handle: Open, OpenFile, Create and GetHandle of internal/s3fs/fs.go, and
-- Client.GetHandle of internal/ftpdriver/client.go, which returns the same handle.
pub mod Kinds
pub mod Methods
use s32ftp.Prelude.{Bool, true, false, ◌||◌, not, if◌then◌else◌}
use s32ftp.Prelude.Int.{ℤ, pos}
use s32ftp.Text.{Str, str_eq}
use s32ftp.Keys.{clean_ftp_path, root_path}
use s32ftp.Errors.{Error, path_error, errno, eisdir}
use s32ftp.Action.{Act, ret, throw, ◌>>=◌}
use s32ftp.Info.{FileInfo}
use s32ftp.Service.{Service}
use s32ftp.Fs.{Fs, stat}
use s32ftp.Dir.{read_only_err}
use s32ftp.Handle.{Handle, new_file}
use s32ftp.Download.{Download, open_download}
use s32ftp.Upload.{Flags, UploadFile}
use s32ftp.Upload.Run.{open_upload}

-- The values behind the interface `afero.File`.
pub data File : Type 0 where
  directory : Handle → File
  download : Download → File
  upload : UploadFile → File

-- `flag&(os.O_WRONLY|os.O_RDWR|os.O_CREATE|os.O_APPEND|os.O_TRUNC) != 0`
abbrev pub writes : Flags → Bool
writes flags = flags.wronly || flags.rdwr || flags.create || flags.append || flags.trunc

abbrev pub creating : Flags
creating = record { wronly = true; rdwr = false; append = false; create = true; trunc = true }

module _ (S : Service) (mime : Str → Str) (f : Fs) where
  open S use {World}

  -- FS.Open.
  abbrev pub open_found : Str → FileInfo → Act World File
  open_found name info =
      if not info.is_dir
      then throw (path_error "open" name (errno eisdir))
      else ret (directory (new_file (clean_ftp_path name) info))

  unfoldable pub open_name : Str → Act World File
  unfolding stat new_file
  open_name name = stat S f name >>= open_found name

  -- FS.GetHandle.
  unfoldable pub get_handle : Str → Flags → ℤ → Act World File
  unfolding str_eq open_upload open_download
  get_handle name flags offset =
      let clean = clean_ftp_path name in
      if str_eq clean root_path
      then throw (path_error "open" clean (errno eisdir))
      else if writes flags
      then if f.read_only
        then throw (read_only_err "open" clean)
        else (open_upload S mime f clean flags offset >>= λ u. ret (upload u))
      else (open_download S f clean offset >>= λ d. ret (download d))

  -- FS.OpenFile and FS.Create.
  unfoldable pub open_file : Str → Flags → Act World File
  unfolding get_handle open_name
  open_file name flags = if writes flags then get_handle name flags (pos 0) else open_name name

  unfoldable pub create : Str → Act World File
  unfolding open_file
  create name = open_file name creating
