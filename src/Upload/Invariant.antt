-- ===== src/Upload/Invariant.antt =====
-- What holds of the handle of an upload between two steps: internal/s3fs/upload.go.
use s32ftp.Prelude.{
  ℕ, ◌≤◌, ◌≡◌, refl, ◌⊎◌, true, false, List, [], ◌∷◌, Option, none, some, arith, length,
}
use s32ftp.Prelude.Int.{ℤ, pos, negsuc}
use s32ftp.Text.{Str}
use s32ftp.Errors.{Error}
use s32ftp.Upload.{
  UploadFile, is_some, pipe_done, fail, write, end_write, seek, seek_to, seek_target,
  transfer_error, transfer_error_ends, close_ends, close, handed_part,
}

-- When the reader's end was closed, or TransferError is to close it, an error is recorded; the writer's end
-- is closed by Close, or after an error; a closed handle has no Write that waits.
pub record FileIsSound (u : UploadFile) : Type 0 where
  pub same_error : (is_some u.reader_error ≡ false) ⊎ (is_some u.error ≡ true)
  pub recorded : (u.aborting ≡ []) ⊎ (is_some u.error ≡ true)
  pub who_ended : (u.writer_error ≡ none) ⊎ (u.is_closed ≡ true) ⊎ (is_some u.reader_error ≡ true)
  pub when_closed : (u.is_closed ≡ false) ⊎ ((u.writing ≡ none) × (is_some u.writer_error ≡ true))
  pub handed_over : u.handed ≤ length (handed_part u.writing)

-- What a call of the client leaves as it is, and what it may only set.
pub record Grows (u v : UploadFile) : Type 0 where
  pub same_bucket : v.fs ≡ u.fs
  pub same_key : v.key ≡ u.key
  pub same_prefix : v.prefix_len ≡ u.prefix_len
  pub same_task : v.task ≡ u.task
  pub more_errors : (is_some u.error ≡ false) ⊎ (is_some v.error ≡ true)
  pub more_done : (pipe_done u ≡ false) ⊎ (pipe_done v ≡ true)
  pub more_closed : (u.is_closed ≡ false) ⊎ (v.is_closed ≡ true)

pub fail_sound :
    (e : Error) (u : UploadFile) → FileIsSound u → FileIsSound (fail e u) × Grows u (fail e u)
unfolding fail
fail_sound e u h = (ground arith, ground arith)

pub transfer_error_sound :
    (e : Option Error) (u : UploadFile)
    → FileIsSound u
    → FileIsSound (transfer_error e u) × Grows u (transfer_error e u)
unfolding transfer_error
transfer_error_sound none u h = (h, ground arith)
transfer_error_sound (some e) u h = (ground arith, ground arith)

close_ends_sound :
    (es : List Error) (u : UploadFile)
    → u.aborting ≡ es
    → FileIsSound u
    → FileIsSound (close_ends es u) × Grows u (close_ends es u)
close_ends_sound [] u a h = (h, ground arith)
close_ends_sound (e ∷ es) u a h = (ground arith, ground arith)

pub transfer_error_ends_sound :
    (u : UploadFile)
    → FileIsSound u
    → FileIsSound (transfer_error_ends u) × Grows u (transfer_error_ends u)
unfolding transfer_error_ends
transfer_error_ends_sound u h = close_ends_sound u.aborting u refl h

pub close_sound :
    (u : UploadFile) → u.writing ≡ none → FileIsSound u → FileIsSound (close u) × Grows u (close u)
unfolding close
close_sound u free h = (ground arith, ground arith)

pub write_sound :
    (p : Str) (u : UploadFile)
    → u.writing ≡ none
    → FileIsSound u
    → FileIsSound (write p u).1 × Grows u (write p u).1
unfolding write fail
write_sound p u free h = (ground arith, ground arith)

seek_to_sound :
    (t : Option ℤ) (u : UploadFile)
    → FileIsSound u
    → FileIsSound (seek_to t u).1 × Grows u (seek_to t u).1
seek_to_sound none u h = (h, ground arith)
seek_to_sound (some (pos target)) u h = (ground arith, ground arith)
seek_to_sound (some (negsuc n)) u h = (h, ground arith)

pub seek_sound :
    (offset : ℤ) (whence : ℕ) (u : UploadFile)
    → FileIsSound u
    → FileIsSound (seek offset whence u).1 × Grows u (seek offset whence u).1
unfolding seek
seek_sound offset whence u h = ground (arith, seek_to_sound (seek_target offset whence u) u h)

seek_to_same :
    (t : Option ℤ) (u : UploadFile)
    → ((seek_to t u).1.writing ≡ u.writing) × ((seek_to t u).1.handed ≡ u.handed)
seek_to_same none u = (refl, refl)
seek_to_same (some (pos target)) u = (ground arith, ground arith)
seek_to_same (some (negsuc n)) u = (refl, refl)

pub seek_same :
    (offset : ℤ) (whence : ℕ) (u : UploadFile)
    → ((seek offset whence u).1.writing ≡ u.writing) × ((seek offset whence u).1.handed ≡ u.handed)
unfolding seek
seek_same offset whence u = ground (arith, seek_to_same (seek_target offset whence u) u)

pub end_write_sound :
    (p : Str) (u : UploadFile)
    → u.writing ≡ some p
    → FileIsSound u
    → FileIsSound (end_write p u).1 × Grows u (end_write p u).1
unfolding fail
end_write_sound p u waits h = (ground arith, ground arith)
