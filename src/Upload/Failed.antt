-- ===== src/Upload/Failed.antt =====
-- The handle of an upload of internal/s3fs/upload.go whose pipe TransferError has closed.
use s32ftp.Prelude.{
  ◌≡◌, ◌≢◌, refl, inl, inr, Bool, true, false, List, [], ◌∷◌, Option, none, some, arith, ℕ,
}
use s32ftp.Prelude.Int.{ℤ}
use s32ftp.Text.{Str}
use s32ftp.Errors.{Error}
use s32ftp.Upload.{
  Task, starting, sending, completing, finished, UploadFile, is_some, fail, read_close_error, write,
  end_write, seek, seek_to, seek_target, close, transfer_error, close_ends, transfer_error_ends,
  close_returns, when_done,
}
use s32ftp.Upload.Run.{is_eof}
use s32ftp.Upload.Invariant.{FileIsSound}

-- The goroutine has not read the pipe to its end.
abbrev pub reads_on : Task → Bool
reads_on starting = true
reads_on (sending lead received) = true
reads_on _ = false

abbrev pub is_completing : Task → Bool
is_completing (completing body) = true
is_completing _ = false

-- The reader's end of the pipe has been closed with an error, an error is recorded, and the goroutine
-- does not have the whole body.
abbrev pub HasFailed : UploadFile → Type 0
HasFailed u =
    (is_some u.reader_error ≡ true) × (is_some u.error ≡ true) × (is_completing u.task ≡ false)

fail-HasFailed : (e : Error) (u : UploadFile) → HasFailed u → HasFailed (fail e u)
unfolding fail
fail-HasFailed e u h = ground arith

pub ended-HasFailed :
    (e : Error) (u : UploadFile) → HasFailed u → HasFailed (record (fail e u) { task = finished })
unfolding fail
ended-HasFailed e u h = (ground arith, ground arith, refl)

pub not_eof :
    (u : UploadFile) → HasFailed u → is_eof (read_close_error u.reader_error u.writer_error) ≡ false
not_eof u h = ground arith

seek_to-HasFailed : (t : Option ℤ) (u : UploadFile) → HasFailed u → HasFailed (seek_to t u).1
seek_to-HasFailed t u h = ground arith

reads_not_completing : (t : Task) → reads_on t ≡ true → is_completing t ≡ false
reads_not_completing starting h = refl
reads_not_completing (sending lead received) h = refl
reads_not_completing (completing body) h = absurd (cc)
reads_not_completing finished h = refl

-- TransferError has closed the pipe of a goroutine that reads on.
pub transfer_error_fails :
    (u : UploadFile)
    → FileIsSound u
    → u.aborting ≢ []
    → reads_on u.task ≡ true
    → HasFailed (transfer_error_ends u)
unfolding transfer_error_ends
transfer_error_fails u h some_left r = pick u.aborting refl
  where
    pick : (es : List Error) → u.aborting ≡ es → HasFailed (close_ends es u)
    pick [] a = absurd (some_left a)
    pick (e ∷ es) a = (
      ground arith,
      elim h.recorded [ inl nothing ↦ absurd (some_left nothing) | inr there ↦ there ],
      reads_not_completing u.task r,
    )

pub close_fails : (u : UploadFile) → HasFailed u → close_returns u ≢ some none
unfolding close_returns
close_fails u h c = pick u.task c
  where
    pick : (t : Task) → when_done t u.error ≡ some none → ⊥
    pick starting c = cc
    pick (sending lead received) c = cc
    pick (completing body) c = cc
    pick finished c = ground arith

pub client-HasFailed :
    (u : UploadFile) (p : Str) (offset : ℤ) (whence : ℕ) (e : Option Error)
    → HasFailed u
    → HasFailed (write p u).1
      × HasFailed (end_write p u).1
      × HasFailed (seek offset whence u).1
      × HasFailed (close u)
      × HasFailed (transfer_error e u)
      × HasFailed (transfer_error_ends u)
unfolding transfer_error_ends write seek close transfer_error fail
client-HasFailed u p offset whence e h = (
  ground arith,
  ground arith,
  ground (arith, seek_to-HasFailed (seek_target offset whence u) u h),
  ground arith,
  recorded e,
  ended u.aborting,
)
  where
    ended : (es : List Error) → HasFailed (close_ends es u)
    ended [] = h
    ended (e ∷ es) = ground arith

    recorded : (x : Option Error) → HasFailed (transfer_error x u)
    recorded none = h
    recorded (some x) = ground arith
