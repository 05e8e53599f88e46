-- ===== src/Upload/Abort.antt =====
-- A transfer that is aborted by TransferError of internal/s3fs/upload.go stores nothing.
use s32ftp.Prelude.{
  ℕ, ◌≡◌, refl, ap, ◌∙◌, inl, inr, Bool, true, false, not, List, [], ◌∷◌, Option, none, some, arith,
  ltb, if◌then◌else◌, Bool-cases, ◌≢◌,
}
use s32ftp.Prelude.Int.{ℤ, pos}
use s32ftp.Text.{Str}
use s32ftp.Errors.{Error, ok, err, s3_error}
use s32ftp.Action.{call, from_reply}
use s32ftp.Service.{Service, Reply}
use s32ftp.Service.Lawful.{Object, View, IsConfined}
use s32ftp.Service.Faithful.{IsFaithful, Uploader, IsUploader}
use s32ftp.Fs.{Fs, key, get_object_from}
use s32ftp.Upload.{
  Flags, Task, starting, sending, completing, finished, UploadFile, pipe_done, write_returns,
  end_writing, close_returns,
}
use s32ftp.Upload.Run.{
  open_upload, fetched, begin, run_starts, take_from, run_takes, give_up, given_up, run_gives_up,
  end_run, run_ends, complete_run, run_completes,
}
use s32ftp.Upload.Schedule.{
  Event, writes, returns, seeks, closes, aborts, aborted, starts, takes, gives_up, ends, completes,
  State, when_free, step, run,
}
use s32ftp.Upload.Stored.{TaskIsSound}
use s32ftp.Upload.Outcome
use s32ftp.Upload.Safety.{opened}
use s32ftp.Upload.Failed.{
  reads_on, is_completing, HasFailed, ended-HasFailed, not_eof, transfer_error_fails, close_fails,
  client-HasFailed,
}

module _ (S : Service) (at : View S) (C : IsConfined S at) (U : Uploader S) (IU : IsUploader S at U)
    (b k : Str) (old : Option Object) where
  -- A transfer that has failed with the object as it was.
  abbrev Failed : UploadFile × S.World → Type 0
  Failed r = HasFailed r.0 × (at r.1 b k ≡ old)

  fetched-Failed :
      (u : UploadFile) (w : S.World) (r : Reply Str × S.World)
      → HasFailed u
      → at r.1 b k ≡ old
      → Failed (fetched S U u (from_reply r.0, r.1))
  fetched-Failed u w (ok body, v) h same = ((h.0, h.1, refl), same)
  fetched-Failed u w (err e, v) h same = (ended-HasFailed (s3_error e) u h, same)

  run_starts-Failed : (u : UploadFile) (w : S.World) → Failed (u, w) → Failed (run_starts S U u w)
  unfolding run_starts get_object_from call
  run_starts-Failed u w (h, same) = step u.task
    where
      step : (t : Task) → Failed (begin S U t u w)
      step starting = elim (Bool-cases (ltb 0 u.prefix_len)) [
        | inl c ↦ rw c (fetched-Failed u w _ h (C.get_frame _ _ _ w b k ∙ same))
        | inr c ↦ rw c ((h.0, h.1, refl), same)
      ]
      step (sending lead received) = (h, same)
      step (completing body) = (h, same)
      step finished = (h, same)

  run_gives_up-Failed :
      (e : Error) (u : UploadFile) (w : S.World) → Failed (u, w) → Failed (run_gives_up S U e u w)
  unfolding run_gives_up
  run_gives_up-Failed e u w (h, same) = step u.task
    where
      step : (t : Task) → Failed (give_up S U e t u w)
      step starting = (h, same)
      step (sending lead received) = (ended-HasFailed e u h, IU.abandon_frame _ _ w b k ∙ same)
      step (completing body) = (ended-HasFailed e u h, IU.abandon_frame _ _ w b k ∙ same)
      step finished = (h, same)

  run_ends-Failed :
      (e : Error) (u : UploadFile) (w : S.World) → Failed (u, w) → Failed (run_ends S U e u w)
  unfolding run_ends
  run_ends-Failed e u w (h, same) = step u.task
    where
      gave_up : (d : Bool) → Failed (if d then (u, w) else given_up S U e u w)
      gave_up true = (h, same)
      gave_up false = (ended-HasFailed e u h, IU.abandon_frame _ _ w b k ∙ same)

      step : (t : Task) → Failed (end_run S U e t u w)
      step starting = (h, same)
      step (sending lead received) = rw (not_eof u h) (gave_up (not (pipe_done u)))
      step (completing body) = (h, same)
      step finished = (h, same)

  run_completes-Failed :
      (u : UploadFile) (w : S.World) → Failed (u, w) → Failed (run_completes S U u w)
  unfolding run_completes
  run_completes-Failed u w (h, same) = step u.task refl
    where
      step : (t : Task) → u.task ≡ t → Failed (complete_run S U t u w)
      step starting q = (h, same)
      step (sending lead received) q = (h, same)
      step (completing body) q = absurd (cc (ap is_completing q, h.2))
      step finished q = (h, same)

  run_takes-HasFailed : (m : ℕ) (u : UploadFile) → HasFailed u → HasFailed (run_takes S U m u)
  unfolding run_takes
  run_takes-HasFailed m u h = step u.task u.writing
    where
      step : (t : Task) (p : Option Str) → HasFailed (take_from S U m t p u)
      step (sending lead received) (some p) = ground arith
      step (sending lead received) none = h
      step starting p = h
      step (completing body) p = h
      step finished p = h

  free-Failed :
      (s t : State S) (p : Option Str)
      → Failed (s.file, s.world)
      → Failed (t.file, t.world)
      → Failed ((when_free S U p s t).file, (when_free S U p s t).world)
  free-Failed s t none h g = g
  free-Failed s t (some p) h g = h

  returns-HasFailed : (u : UploadFile) → HasFailed u → HasFailed (write_returns u).1
  unfolding write_returns
  returns-HasFailed u h = step u.writing
    where
      step : (p : Option Str) → HasFailed (end_writing p u).1
      step none = h
      step (some p) = (client-HasFailed u p (pos 0) 0 none h).1

  step-Failed :
      (e : Event) (s : State S)
      → Failed (s.file, s.world)
      → Failed ((step S U e s).file, (step S U e s).world)
  step-Failed (writes p) s h =
      free-Failed s _ s.file.writing h ((client-HasFailed s.file p (pos 0) 0 none h.0).0, h.1)
  step-Failed returns s h = (returns-HasFailed s.file h.0, h.1)
  step-Failed (seeks offset whence) s h =
      free-Failed s _ s.file.writing h ((client-HasFailed s.file [] offset whence none h.0).2, h.1)
  step-Failed closes s h =
      free-Failed s _ s.file.writing h ((client-HasFailed s.file [] (pos 0) 0 none h.0).3, h.1)
  step-Failed (aborts e) s h = ((client-HasFailed s.file [] (pos 0) 0 e h.0).4, h.1)
  step-Failed aborted s h = ((client-HasFailed s.file [] (pos 0) 0 none h.0).5, h.1)
  step-Failed starts s h = run_starts-Failed s.file s.world h
  step-Failed (takes m) s h = (run_takes-HasFailed m s.file h.0, h.1)
  step-Failed (gives_up e) s h = run_gives_up-Failed e s.file s.world h
  step-Failed (ends e) s h = run_ends-Failed e s.file s.world h
  step-Failed completes s h = run_completes-Failed s.file s.world h

  pub run-Failed :
      (es : List Event) (s : State S)
      → Failed (s.file, s.world)
      → Failed ((run S U es s).file, (run S U es s).world)
  unfolding run
  run-Failed [] s h = h
  run-Failed (e ∷ es) s h = run-Failed es (step S U e s) (step-Failed e s h)

  -- The handle of a goroutine that reads on.
  not_finished :
      (n : ℕ) (s : State S)
      → TaskIsSound n old s.file.task s.file (at s.world b k) s.accepted
      → reads_on s.file.task ≡ true
      → at s.world b k ≡ old
  not_finished n s t c = pick s.file.task t c
    where
      pick :
          (x : Task)
          → TaskIsSound n old x s.file (at s.world b k) s.accepted
          → reads_on x ≡ true
          → at s.world b k ≡ old
      pick starting t c = t.0
      pick (sending lead received) t c = t.0
      pick (completing body) t c = absurd (cc)
      pick finished t c = absurd (cc)

-- When a call of TransferError that has recorded an error closes the pipe before the uploader has read the
-- pipe to its end, the object stays what it was before the upload, whatever the client and the uploader do
-- after that, and Close does not report success.
pub transfer_error_lem :
    (S : Service) (at : View S) (C : IsConfined S at) (F : IsFaithful S at) (U : Uploader S)
    (IU : IsUploader S at U) (mime : Str → Str) (f : Fs) (clean : Str) (flags : Flags) (offset : ℤ)
    (w v : S.World) (u : UploadFile) (es later : List Event)
    → open_upload S mime f clean flags offset w ≡ (ok u, v)
    → (run S U es (opened S u v)).file.aborting ≢ []
    → reads_on (run S U es (opened S u v)).file.task ≡ true
    → (at (run S U (aborted ∷ later) (run S U es (opened S u v))).world f.bucket (key f clean)
        ≡ at w f.bucket (key f clean))
      × (close_returns (run S U (aborted ∷ later) (run S U es (opened S u v))).file ≢ some none)
unfolding run
transfer_error_lem S at C F U IU mime f clean flags offset w v u es later h a c =
    let s : State S = run S U es (opened S u v) in
    let before : Option Object = at w f.bucket (key f clean) in
    let held = Outcome.after-Holds S at C F U IU mime f clean flags offset w v u es h in
    let same = not_finished S at C U IU f.bucket (key f clean) before u.prefix_len s held.task c in
    let failed =
      run-Failed S at C U IU f.bucket (key f clean) before later (step S U aborted s)
        (transfer_error_fails s.file held.file a c, same) in
    (failed.1, close_fails _ failed.0)
