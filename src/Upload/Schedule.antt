-- ===== src/Upload/Schedule.antt =====
-- One upload of internal/s3fs/upload.go as a schedule of the calls of the client and the steps of
-- the goroutine, in any order.
use s32ftp.Prelude.{ℕ, List, [], ◌∷◌, ◌++◌, Option, none, some, take}
use s32ftp.Prelude.Int.{ℤ}
use s32ftp.Text.{Str}
use s32ftp.Errors.{Error}
use s32ftp.Service.{Service}
use s32ftp.Service.Faithful.{Uploader}
use s32ftp.Upload.{
  UploadFile, write, write_returns, seek, transfer_error, transfer_error_ends, close, handed_part,
}
use s32ftp.Upload.Run.{run_starts, run_takes, run_gives_up, run_ends, run_completes}

-- The client calls Write, sees it return, calls Seek and Close; TransferError may come from
-- elsewhere at any time, and is done when it has closed the pipe. The rest are steps of the goroutine.
pub data Event : Type 0 where
  writes : Str → Event
  returns : Event
  seeks : ℤ → ℕ → Event
  closes : Event
  aborts : Option Error → Event
  aborted : Event
  starts : Event
  takes : ℕ → Event
  gives_up : Error → Event
  ends : Error → Event
  completes : Event

-- The bytes that the calls of Write have reported, after one on `p` that may have returned.
abbrev pub accepted_after : Str → Str → Option (ℕ × Option Error) → Str
accepted_after x p none = x
accepted_after x p (some (n, e)) = x ++ take n p

module _ (S : Service) where
  -- `accepted` is the bytes that the calls of Write have reported as written, in their order.
  pub record State : Type 0 where
    pub file : UploadFile
    pub world : S.World
    pub accepted : Str

module _ (S : Service) (U : Uploader S) where
  -- A client whose Write waits makes no other call.
  abbrev pub when_free : Option Str → State S → State S → State S
  when_free none s t = t
  when_free (some p) s t = s

  abbrev pub with_file : State S → UploadFile → State S
  with_file s u = record s { file = u }

  abbrev pub with_run : State S → UploadFile × S.World → State S
  with_run s r = record s { file = r.0; world = r.1 }

  -- The Write that waits returns, with what it has handed over, if it can.
  abbrev pub after_write : State S → Option (ℕ × Option Error) × UploadFile → State S
  after_write s r = record s {
    file = r.1;
    accepted = accepted_after s.accepted (handed_part s.file.writing) r.0;
  }

  abbrev pub step : Event → State S → State S
  step (writes p) s = when_free s.file.writing s (with_file s (write p s.file).1)
  step returns s = after_write s (write_returns s.file)
  step (seeks offset whence) s =
      when_free s.file.writing s (with_file s (seek offset whence s.file).1)
  step closes s = when_free s.file.writing s (with_file s (close s.file))
  step (aborts e) s = with_file s (transfer_error e s.file)
  step aborted s = with_file s (transfer_error_ends s.file)
  step starts s = with_run s (run_starts S U s.file s.world)
  step (takes n) s = with_file s (run_takes S U n s.file)
  step (gives_up e) s = with_run s (run_gives_up S U e s.file s.world)
  step (ends e) s = with_run s (run_ends S U e s.file s.world)
  step completes s = with_run s (run_completes S U s.file s.world)

  unfoldable pub run : List Event → State S → State S
  unfolding write write_returns seek close transfer_error transfer_error_ends run_starts run_takes
      run_gives_up run_ends run_completes
  run [] s = s
  run (e ∷ es) s = run es (step e s)
