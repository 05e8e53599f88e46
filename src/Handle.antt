-- ===== src/Handle.antt =====
-- The handle of a directory: internal/s3fs/file.go. Reads and writes of its bytes are
-- refused: Opening/Methods.
pub mod Reads
use s32ftp.Prelude.{
  ℕ, zero, suc, ◌+◌, ◌-◌, ◌^◌, min, Bool, true, false, ◌&&◌, ◌||◌, not, List, [], ◌∷◌, ltb, ◌==◌,
  if◌then◌else◌, length, take, drop, map,
}
use s32ftp.Prelude.Int.{ℤ, pos, negsuc}
use s32ftp.Text.{Str, str_eq}
use s32ftp.Keys.{root_path, base}
use s32ftp.Errors.{Error, Result, ok, err, path_error, errno, einval}
use s32ftp.Action.{Act, ret, ◌>>=◌}
use s32ftp.Info.{FileInfo}
use s32ftp.Service.{Service}
use s32ftp.Fs.{Fs}
use s32ftp.Listing.{names_of, read_dir}

-- File. No entries is the nil slice, which ReadDir also returns for an empty directory.
pub record Handle : Type 0 where
  pub name : Str
  pub info : FileInfo
  pub entries : List FileInfo
  pub offset : ℕ

-- How a read ends without entries: io.EOF, or a slice out of its bounds, which panics.
pub data Stop : Type 0 where
  eof out_of_bounds : Stop

-- NewFile.
unfoldable pub new_file : Str → FileInfo → Handle
new_file name info = record { name = name; info = info; entries = []; offset = 0 }

-- File.Name.
unfoldable pub file_name : Handle → Str
unfolding str_eq base
file_name h = if str_eq h.name root_path then root_path else base h.name

-- File.Seek. `whence` is 0 for io.SeekStart and 1 for io.SeekCurrent.
unfoldable pub seek : ℤ → ℕ → Handle → Result Error ℕ × Handle
seek (pos zero) whence h =
    if whence == 0 || whence == 1
    then (ok 0, record h { offset = 0 })
    else (err (path_error "seek" h.name (errno einval)), h)
seek _ whence h = (err (path_error "seek" h.name (errno einval)), h)

-- `f.entries[f.offset:]`
abbrev pub read_rest : Handle → Result Stop (List FileInfo) × Handle
read_rest h =
    if ltb (length h.entries) h.offset
    then (err out_of_bounds, h)
    else (ok (drop h.offset h.entries), record h { offset = length h.entries })

-- `f.offset+count` on a 64-bit int: a sum that does not fit is negative, and so is the end.
abbrev pub read_some : ℕ → Handle → Result Stop (List FileInfo) × Handle
read_some count h =
    if not (ltb h.offset (length h.entries))
    then (err eof, h)
    else if not (ltb (h.offset + count) (2 ^ 63))
    then (err out_of_bounds, h)
    else (
      ok (take (min (h.offset + count) (length h.entries) - h.offset) (drop h.offset h.entries)),
      record h { offset = min (h.offset + count) (length h.entries) },
    )

-- File.Readdir on loaded entries.
unfoldable pub read_entries : ℤ → Handle → Result Stop (List FileInfo) × Handle
read_entries (pos zero) h = read_rest h
read_entries (pos (suc n)) h = read_some (suc n) h
read_entries (negsuc n) h = read_rest h

module _ (S : Service) where
  -- File.load.
  unfoldable pub load_entries : ℕ → Fs → Handle → Act S.World Handle
  unfolding read_dir
  load_entries fuel f h = loaded h.entries
    where
      loaded : List FileInfo → Act S.World Handle
      loaded [] = read_dir S fuel f h.name >>= λ entries. ret (record h { entries = entries })
      loaded (e ∷ entries) = ret h

  -- File.Readdir.
  unfoldable pub readdir : ℕ → Fs → ℤ → Handle → Act S.World (Result Stop (List FileInfo) × Handle)
  unfolding load_entries read_entries
  readdir fuel f count h = load_entries fuel f h >>= λ h'. ret (read_entries count h')

  -- File.Readdirnames.
  abbrev pub names_given : Result Stop (List FileInfo) → Result Stop (List Str)
  names_given (ok infos) = ok (names_of infos)
  names_given (err e) = err e

  unfoldable pub readdirnames : ℕ → Fs → ℤ → Handle → Act S.World (Result Stop (List Str) × Handle)
  unfolding readdir
  readdirnames fuel f count h = readdir fuel f count h >>= λ r. ret (names_given r.0, r.1)
