-- ===== src/Upload.antt =====
-- The handle of an upload: internal/s3fs/upload.go. The pipe between the writer and the goroutine
-- that runs the S3 uploader is that of package io. A Write that waits for the uploader is a state
-- of its own; the methods that only refuse are in Opening/Methods, and the context is left out.
pub mod Run
pub mod Schedule
pub mod Invariant
pub mod Stored
pub mod Goroutine
pub mod Ending
pub mod Safety
pub mod Kept
pub mod Outcome
pub mod Failed
pub mod Abort
pub mod Ends
pub mod Progress
pub mod Frame
use s32ftp.Prelude.{
  ℕ, zero, suc, ◌+◌, ◌-◌, min, Bool, true, false, ◌||◌, ◌&&◌, not, List, [], ◌∷◌, ◌++◌, Option,
  none, some, ltb, leb, ◌==◌, if◌then◌else◌, length, take, drop,
}
use s32ftp.Prelude.Int.{ℤ, pos, ◌+ℤ◌, ltb_ℤ, wrap64, pos_part}
use s32ftp.Text.{Str, codes, is_nil, trim_last, contains_char}
use s32ftp.Keys.{slash, base}
use s32ftp.Errors.{
  Error, Result, ok, err, path_error, s3_error, errno, einval, not_exist, eof, closed, closed_pipe,
}
use s32ftp.Action.{Act, ret, throw, ◌>>=◌, observe}
use s32ftp.Info.{FileInfo, new_file_info, put_object_input}
use s32ftp.Service.{Service, Reply}
use s32ftp.Service.Faithful.{Uploader}
use s32ftp.Fs
use s32ftp.Fs.{Fs, head_size, get_object_from, stat}

-- The bits of the flags of `os.OpenFile` that the source looks at.
pub record Flags : Type 0 where
  pub wronly : Bool
  pub rdwr : Bool
  pub append : Bool
  pub create : Bool
  pub trunc : Bool

-- The goroutine `run`: before its GetObject, in Upload with the part of the old object that it
-- puts in front and with what it has read from the pipe, in Upload with the whole body, which it has
-- read to its end, and after `close(u.done)`.
pub data Task : Type 0 where
  starting : Task
  sending : Str → Str → Task
  completing : Str → Task
  finished : Task

-- uploadFile. `reader_error` and `writer_error` are those with which the ends of the pipe were
-- closed; `writing` is the argument of a Write that has not returned, `handed` the number of its bytes
-- that the uploader has taken, and `met` tells whether a read of the uploader has met it. `aborting` is
-- the errors of the calls of TransferError that have not closed the pipe yet.
pub record UploadFile : Type 0 where
  pub fs : Fs
  pub name : Str
  pub key : Str
  pub content_type : Str
  pub prefix_len : ℕ
  pub reader_error : Option Error
  pub writer_error : Option Error
  pub task : Task
  pub error : Option Error
  pub is_closed : Bool
  pub position : ℕ
  pub written : ℕ
  pub writing : Option Str
  pub handed : ℕ
  pub met : Bool
  pub aborting : List Error

-- `path.Ext`.
unfoldable pub ext : Str → Str
unfolding contains_char
ext [] = []
ext (c ∷ s) =
    let rest = ext s in
    if not (is_nil rest)
    then rest
    else if c == b'.' && not (contains_char slash s)
    then c ∷ s
    else []

-- objectContentType. `mime` is `mime.TypeByExtension`.
abbrev pub or_binary : Str → Str
or_binary [] = codes "application/octet-stream"
or_binary (c ∷ s) = c ∷ s

unfoldable pub object_content_type : (Str → Str) → Str → Str
unfolding ext trim_last
object_content_type mime key = or_binary (mime (ext (trim_last slash key)))

-- `if err == nil { err = e }`, also as package io keeps the first error of an end of a pipe.
abbrev pub keep_first : Option Error → Error → Option Error
keep_first none e = some e
keep_first (some x) e = some x

-- The errors of a pipe that is closed, for its writer and for its reader.
abbrev pub write_close_error : Option Error → Option Error → Error
write_close_error (some r) none = r
write_close_error _ _ = closed_pipe

abbrev pub read_close_error : Option Error → Option Error → Error
read_close_error none (some w) = w
read_close_error _ _ = closed_pipe

abbrev pub is_some : Option Error → Bool
is_some none = false
is_some (some e) = true

abbrev pub pipe_done : UploadFile → Bool
pipe_done u = is_some u.reader_error || is_some u.writer_error

abbrev pub handed_part : Option Str → Str
handed_part none = []
handed_part (some p) = p

-- uploadFile.fail, on an error that is not nil.
unfoldable pub fail : Error → UploadFile → UploadFile
fail e u = record u { error = keep_first u.error e; reader_error = keep_first u.reader_error e }

-- uploadFile.Write up to where it waits for the uploader: the result, if it returns at once.
abbrev pub no_result : Option (ℕ × Option Error)
no_result = none

unfoldable pub write : Str → UploadFile → Option (ℕ × Option Error) × UploadFile
unfolding fail
write p u =
    let e = write_close_error u.reader_error u.writer_error in
    if u.is_closed
    then (some (0, some closed), u)
    else if pipe_done u
    then (some (0, some e), fail e u)
    else (no_result, record u { writing = some p; handed = 0; met = false })

-- The rest of uploadFile.Write, when all bytes are taken, which also for none takes a read, or an end
-- of the pipe is closed.
abbrev pub counted : UploadFile → UploadFile
counted u = record u {
  writing = none;
  handed = 0;
  met = false;
  position = u.position + u.handed;
  written = u.written + u.handed;
}

abbrev pub end_write : Str → UploadFile → Option (ℕ × Option Error) × UploadFile
end_write p u =
    let e = write_close_error u.reader_error u.writer_error in
    if u.met && leb (length p) u.handed
    then (some (u.handed, none), counted u)
    else if pipe_done u
    then (some (u.handed, some e), fail e (counted u))
    else (no_result, u)

abbrev pub end_writing : Option Str → UploadFile → Option (ℕ × Option Error) × UploadFile
end_writing none u = (no_result, u)
end_writing (some p) u = end_write p u

unfoldable pub write_returns : UploadFile → Option (ℕ × Option Error) × UploadFile
unfolding fail
write_returns u = end_writing u.writing u

-- uploadFile.Seek.
abbrev pub seek_target : ℤ → ℕ → UploadFile → Option ℤ
seek_target offset whence u =
    if whence == 0
    then some offset
    else if whence == 1
    then some (wrap64 (pos u.position +ℤ offset))
    else none

abbrev pub seek_to : Option ℤ → UploadFile → Result Error ℕ × UploadFile
seek_to (some (pos target)) u =
    if target == u.prefix_len
    then (ok target, record u { position = target })
    else (err (path_error "seek" u.name (errno einval)), u)
seek_to _ u = (err (path_error "seek" u.name (errno einval)), u)

unfoldable pub seek : ℤ → ℕ → UploadFile → Result Error ℕ × UploadFile
seek offset whence u =
    if u.is_closed
    then (err closed, u)
    else if ltb 0 u.written
    then (err (path_error "seek" u.name (errno einval)), u)
    else seek_to (seek_target offset whence u) u

-- uploadFile.Name.
unfoldable pub file_name : UploadFile → Str
unfolding base
file_name u = base u.name

-- uploadFile.TransferError up to where it has recorded the error, and its rest, which closes both ends
-- of the pipe.
unfoldable pub transfer_error : Option Error → UploadFile → UploadFile
transfer_error none u = u
transfer_error (some e) u = record u { error = keep_first u.error e; aborting = e ∷ u.aborting }

abbrev pub close_ends : List Error → UploadFile → UploadFile
close_ends [] u = u
close_ends (e ∷ rest) u = record u {
  reader_error = keep_first u.reader_error e;
  writer_error = keep_first u.writer_error e;
  aborting = rest;
}

unfoldable pub transfer_error_ends : UploadFile → UploadFile
transfer_error_ends u = close_ends u.aborting u

-- uploadFile.Close up to where it waits for the goroutine, and what it returns after that.
abbrev pub end_of_pipe : Option Error → Error
end_of_pipe none = eof
end_of_pipe (some e) = e

unfoldable pub close : UploadFile → UploadFile
close u = if u.is_closed then u else record u {
  is_closed = true;
  writer_error = keep_first u.writer_error (end_of_pipe u.error);
}

abbrev pub when_done : Task → Option Error → Option (Option Error)
when_done finished e = some e
when_done _ e = none

unfoldable pub close_returns : UploadFile → Option (Option Error)
close_returns u = when_done u.task u.error
