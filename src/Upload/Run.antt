-- ===== src/Upload/Run.antt =====
-- Opening an upload and the goroutine that runs the S3 uploader: openUpload and uploadFile.run of
-- internal/s3fs/upload.go. The steps of the goroutine do nothing where it cannot take them.
use s32ftp.Prelude.{
  ℕ, ◌+◌, ◌-◌, min, Bool, true, false, not, [], ◌++◌, Option, none, some, ltb, if◌then◌else◌,
  length, take, drop,
}
use s32ftp.Prelude.Int.{ℤ, pos, ltb_ℤ, pos_part}
use s32ftp.Text.{Str}
use s32ftp.Keys.{base}
use s32ftp.Errors.{Error, Result, ok, err, path_error, s3_error, not_exist, eof}
use s32ftp.Action.{Act, ret, throw, ◌>>=◌, observe}
use s32ftp.Info.{FileInfo, new_file_info, put_object_input}
use s32ftp.Service.{Service, Reply}
use s32ftp.Service.Faithful.{Uploader}
use s32ftp.Fs
use s32ftp.Fs.{Fs, head_size, get_object_from, stat}
use s32ftp.Upload.{
  Flags, Task, starting, sending, completing, finished, UploadFile, object_content_type, pipe_done,
  read_close_error, fail,
}

abbrev pub is_eof : Error → Bool
is_eof eof = true
is_eof _ = false

abbrev pub or_zero : Option ℕ → ℕ
or_zero none = 0
or_zero (some n) = n

abbrev pub new_upload : (Str → Str) → Fs → Str → ℕ → UploadFile
new_upload mime f clean prefix_len = record {
  fs = f;
  name = clean;
  key = Fs.key f clean;
  content_type = object_content_type mime (Fs.key f clean);
  prefix_len = prefix_len;
  reader_error = none;
  writer_error = none;
  task = starting;
  error = none;
  is_closed = false;
  position = prefix_len;
  written = 0;
  writing = none;
  handed = 0;
  met = false;
  aborting = [];
}

module _ (S : Service) where
  open S use {World}

  -- FS.openUpload: the length of what is kept, and the handle.
  abbrev pub kept_of : Str → ℤ → Option ℕ → Act World ℕ
  kept_of clean offset none = throw (path_error "open" clean not_exist)
  kept_of clean offset (some size) = ret (min (pos_part offset) size)

  unfoldable pub kept : Fs → Str → Flags → ℤ → Act World ℕ
  unfolding head_size
  kept f clean flags offset =
      if flags.trunc
      then ret 0
      else if flags.append
      then (head_size S f (Fs.key f clean) >>= λ size. ret (or_zero size))
      else if ltb_ℤ (pos 0) offset
      then head_size S f (Fs.key f clean) >>= kept_of clean offset
      else ret 0

  unfoldable pub open_upload : (Str → Str) → Fs → Str → Flags → ℤ → Act World UploadFile
  unfolding kept object_content_type
  open_upload mime f clean flags offset =
      kept f clean flags offset >>= λ n. ret (new_upload mime f clean n)

  -- uploadFile.Stat. `now` is `time.Now()`.
  abbrev pub info_or : ℕ → UploadFile → Result Error FileInfo → Act World FileInfo
  info_or now u (ok info) = ret info
  info_or now u (err e) = ret (new_file_info (base u.name) u.prefix_len now)

  unfoldable pub file_info : ℕ → UploadFile → Act World FileInfo
  unfolding stat base new_file_info
  file_info now u = observe (stat S u.fs u.name) >>= info_or now u

module _ (S : Service) (U : Uploader S) where
  open S use {World}

  -- uploadFile.run: its start, with the part of the old object that is kept.
  abbrev pub fetched : UploadFile → Result Error Str × World → UploadFile × World
  fetched u (ok body, w) = (record u { task = sending (take u.prefix_len body) [] }, w)
  fetched u (err e, w) = (record (fail e u) { task = finished }, w)

  abbrev pub begin : Task → UploadFile → World → UploadFile × World
  begin starting u w =
      if ltb 0 u.prefix_len
      then fetched u (get_object_from S u.fs u.key 0 w)
      else (record u { task = sending [] [] }, w)
  begin _ u w = (u, w)

  unfoldable pub run_starts : UploadFile → World → UploadFile × World
  unfolding fail get_object_from
  run_starts u w = begin u.task u w

  -- The uploader takes up to `n` bytes of the Write that waits.
  abbrev pub taken : ℕ → Str → Str → Str → UploadFile → UploadFile
  taken n lead received p u =
      let m = min n (length p - u.handed) in
      record u {
        task = sending lead (received ++ take m (drop u.handed p));
        handed = u.handed + m;
        met = true;
      }

  abbrev pub take_from : ℕ → Task → Option Str → UploadFile → UploadFile
  take_from n (sending lead received) (some p) u =
      if pipe_done u then u else taken n lead received p u
  take_from n _ _ u = u

  unfoldable pub run_takes : ℕ → UploadFile → UploadFile
  run_takes n u = take_from n u.task u.writing u

  -- Upload gives up with the error `e`.
  abbrev pub given_up : Error → UploadFile → World → UploadFile × World
  given_up e u w = (record (fail e u) { task = finished }, U.abandon u.fs.bucket u.key w)

  abbrev pub give_up : Error → Task → UploadFile → World → UploadFile × World
  give_up e (sending lead received) u w = given_up e u w
  give_up e (completing body) u w = given_up e u w
  give_up e _ u w = (u, w)

  unfoldable pub run_gives_up : Error → UploadFile → World → UploadFile × World
  unfolding fail
  run_gives_up e u w = give_up e u.task u w

  -- Upload reads the pipe to its end, or an error from it, and then returns the error `e`.
  abbrev pub end_run : Error → Task → UploadFile → World → UploadFile × World
  end_run e (sending lead received) u w =
      if not (pipe_done u)
      then (u, w)
      else if is_eof (read_close_error u.reader_error u.writer_error)
      then (record u { task = completing (lead ++ received) }, w)
      else given_up e u w
  end_run e _ u w = (u, w)

  unfoldable pub run_ends : Error → UploadFile → World → UploadFile × World
  unfolding fail
  run_ends e u w = end_run e u.task u w

  -- Upload stores the body that it has read.
  abbrev pub completed : UploadFile → Reply (Unit {0}) × World → UploadFile × World
  completed u (ok x, w) = (record u { task = finished }, w)
  completed u (err e, w) = (record (fail (s3_error e) u) { task = finished }, w)

  abbrev pub complete_run : Task → UploadFile → World → UploadFile × World
  complete_run (completing body) u w =
      completed u (U.complete u.fs.bucket u.key (put_object_input body u.content_type) w)
  complete_run _ u w = (u, w)

  unfoldable pub run_completes : UploadFile → World → UploadFile × World
  unfolding fail put_object_input
  run_completes u w = complete_run u.task u w
