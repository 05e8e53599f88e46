-- ===== src/Opening/Methods.antt =====
-- The methods of the interface `afero.File` that a handle refuses or that do nothing: internal/s3fs/file.go,
-- download.go and upload.go. The answer is the error that the method returns, if it returns one at once.
use s32ftp.Prelude.{◌≡◌, refl, Bool, true, false, Option, none, some}
use s32ftp.Text.{Str}
use s32ftp.Errors.{Error, path_error, bare_errno, errno, eisdir, enotdir, einval, ebadf}
use s32ftp.Fs.{Fs}
use s32ftp.Handle.{Handle}
use s32ftp.Download.{Download}
use s32ftp.Upload.{Flags, UploadFile}
use s32ftp.Opening.{File, directory, download, upload, writes}
use s32ftp.Opening.Kinds.{IsGranted}

-- The methods for the bytes of a file, for the entries of a directory, and the rest.
pub data Transfer : Type 0 where
  read read_at write write_at write_string : Transfer

pub data Reading : Type 0 where
  readdir readdirnames : Reading

pub data Flush : Type 0 where
  sync truncate : Flush

unfoldable pub directory_transfer : Transfer → Handle → Option Error
directory_transfer read h = some (path_error "read" h.name (errno eisdir))
directory_transfer read_at h = some (path_error "read" h.name (errno eisdir))
directory_transfer write h = some (path_error "write" h.name (errno eisdir))
directory_transfer write_at h = some (path_error "write" h.name (errno eisdir))
directory_transfer write_string h = some (path_error "write" h.name (errno eisdir))

unfoldable pub directory_flush : Flush → Handle → Option Error
directory_flush sync h = none
directory_flush truncate h = some (path_error "truncate" h.name (errno eisdir))

unfoldable pub download_transfer : Transfer → Download → Option Error
download_transfer read d = none
download_transfer read_at d = none
download_transfer write d = some (bare_errno ebadf)
download_transfer write_at d = some (bare_errno ebadf)
download_transfer write_string d = some (bare_errno ebadf)

unfoldable pub download_reading : Reading → Download → Option Error
download_reading readdir d = some (path_error "readdir" d.name (errno enotdir))
download_reading readdirnames d = some (path_error "readdir" d.name (errno enotdir))

unfoldable pub download_flush : Flush → Download → Option Error
download_flush sync d = none
download_flush truncate d = some (bare_errno ebadf)

-- WriteString is Write.
unfoldable pub upload_transfer : Transfer → UploadFile → Option Error
upload_transfer read u = some (bare_errno ebadf)
upload_transfer read_at u = some (bare_errno ebadf)
upload_transfer write u = none
upload_transfer write_at u = some (path_error "write" u.name (errno einval))
upload_transfer write_string u = none

unfoldable pub upload_reading : Reading → UploadFile → Option Error
upload_reading readdir u = some (path_error "readdir" u.name (errno enotdir))
upload_reading readdirnames u = some (path_error "readdir" u.name (errno enotdir))

unfoldable pub upload_flush : Flush → UploadFile → Option Error
upload_flush sync u = none
upload_flush truncate u = some (path_error "truncate" u.name (errno einval))

-- A call of the interface goes to the handle behind it.
unfoldable pub transfer_refusal : Transfer → File → Option Error
unfolding directory_transfer download_transfer upload_transfer
transfer_refusal m (directory h) = directory_transfer m h
transfer_refusal m (download d) = download_transfer m d
transfer_refusal m (upload u) = upload_transfer m u

unfoldable pub reading_refusal : Reading → File → Option Error
unfolding download_reading upload_reading
reading_refusal m (directory h) = none
reading_refusal m (download d) = download_reading m d
reading_refusal m (upload u) = upload_reading m u

unfoldable pub flush_refusal : Flush → File → Option Error
unfolding directory_flush download_flush upload_flush
flush_refusal m (directory h) = directory_flush m h
flush_refusal m (download d) = download_flush m d
flush_refusal m (upload u) = upload_flush m u

abbrev changes : Transfer → Bool
changes read = false
changes read_at = false
changes write = true
changes write_at = true
changes write_string = true

abbrev IsRefused : Option Error → Type 0
IsRefused r = (e : Error) × (r ≡ some e)

-- A handle that was given out for reading refuses every method that writes, and one that was given
-- out for writing every method that reads; none of them lets a file be truncated.
pub granted-IsRefused :
    (f : Fs) (name : Str) (flags : Flags) (h : File)
    → IsGranted f name flags h
    → ((m : Transfer) → changes m ≡ true → writes flags ≡ false → IsRefused (transfer_refusal m h))
      × ((m : Transfer)
          → changes m ≡ false
          → writes flags ≡ true
          → IsRefused (transfer_refusal m h))
      × IsRefused (flush_refusal truncate h)
unfolding transfer_refusal flush_refusal
granted-IsRefused f name flags (directory h) (asked, is_dir, its_name) =
    (to_write, λ m c w. absurd (cc), (_, refl))
  where
    to_write :
        (m : Transfer)
        → changes m ≡ true
        → writes flags ≡ false
        → IsRefused (transfer_refusal m (directory h))
    to_write read c w = absurd (cc)
    to_write read_at c w = absurd (cc)
    to_write write c w = (_, refl)
    to_write write_at c w = (_, refl)
    to_write write_string c w = (_, refl)
granted-IsRefused f name flags (download d) (asked, its_fs, its_key) =
    (to_write, λ m c w. absurd (cc), (_, refl))
  where
    to_write :
        (m : Transfer)
        → changes m ≡ true
        → writes flags ≡ false
        → IsRefused (transfer_refusal m (download d))
    to_write read c w = absurd (cc)
    to_write read_at c w = absurd (cc)
    to_write write c w = (_, refl)
    to_write write_at c w = (_, refl)
    to_write write_string c w = (_, refl)
granted-IsRefused f name flags (upload u) (asked, may, its_fs, its_key) =
    (λ m c w. absurd (cc), to_read, (_, refl))
  where
    to_read :
        (m : Transfer)
        → changes m ≡ false
        → writes flags ≡ true
        → IsRefused (transfer_refusal m (upload u))
    to_read read c w = (_, refl)
    to_read read_at c w = (_, refl)
    to_read write c w = absurd (cc)
    to_read write_at c w = absurd (cc)
    to_read write_string c w = absurd (cc)
