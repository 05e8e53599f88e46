-- ===== src/Upload/Progress.antt =====
-- How a Write and Close of internal/s3fs/upload.go return.
use mathlib.Core.Path.{subst}
use s32ftp.Prelude.{
  ℕ, ◌≡◌, refl, sym, ap, ◌∙◌, ◌⊎◌, inl, inr, true, false, List, [], ◌∷◌, Option, none, some, length,
}
use s32ftp.Prelude.Int.{ℤ}
use s32ftp.Text.{Str}
use s32ftp.Errors.{Error, ok}
use s32ftp.Service.{Service}
use s32ftp.Service.Lawful.{Object, View, IsConfined}
use s32ftp.Service.Faithful.{IsFaithful, Uploader, IsUploader}
use s32ftp.Fs.{Fs, key}
use s32ftp.Upload.{
  Flags, Task, starting, sending, completing, finished, UploadFile, pipe_done, write_returns, close,
  close_returns, when_done, handed_part,
}
use s32ftp.Upload.Run.{open_upload, run_takes, run_ends}
use s32ftp.Upload.Schedule.{
  Event, returns, closes, starts, takes, ends, completes, State, with_file, when_free, step, run,
}
use s32ftp.Upload.Stored.{TaskIsSound}
use s32ftp.Upload.Outcome
use s32ftp.Upload.Safety
use s32ftp.Upload.Safety.{opened}
use s32ftp.Upload.Ends.{
  is_starting, has_read, is_finished, rest_of, Runs, close_lem, end_writing_task, run_starts_task,
  run_starts_writing, run_takes_free, run_ends_lem, run_completes_lem, run_takes_task,
}

-- The goroutine is done, no Write waits and the handle is closed.
abbrev IsOver : UploadFile → Type 0
IsOver u = (is_finished u.task ≡ true) × (u.writing ≡ none) × (u.is_closed ≡ true)

module _ (S : Service) (at : View S) (C : IsConfined S at) (F : IsFaithful S at) (U : Uploader S)
    (IU : IsUploader S at U) (b k : Str) (n : ℕ) (before : Option Object) where
  abbrev Holds : State S → Type 0
  Holds = Safety.Holds S at C F U IU b k n before

  step-Holds : (e : Event) (s : State S) → Holds s → Holds (step S U e s)
  unfolding run
  step-Holds e s h = Safety.run-Holds S at C F U IU b k n before (e ∷ []) s h

  started-Runs : (s : State S) → Holds s → Runs (step S U starts s).file
  started-Runs s h =
      let t = step S U starts s in
      (run_starts_task S U s.file s.world, done_task _ t.file.task (step-Holds starts s h).task)
    where
      done_task :
          (u : UploadFile) (t : Task)
          → TaskIsSound n before t u (at (step S U starts s).world b k) s.accepted
          → (has_read t ≡ false) ⊎ (pipe_done u ≡ true)
      done_task u starting h = inl refl
      done_task u (sending lead received) h = inl refl
      done_task u (completing body) h = inr h.2
      done_task u finished h = inr h.0

  closes_when_free :
      (s : State S) → s.file.writing ≡ none → step S U closes s ≡ with_file S U s (close s.file)
  closes_when_free s free = ap (λ p. when_free S U p s (with_file S U s (close s.file))) free

  -- A client that no Write holds closes the handle, and the goroutine comes to its end.
  end_step :
      (e : Error) (s : State S)
      → Holds s
      → s.file.writing ≡ none
      → is_starting s.file.task ≡ false
      → IsOver (step S U completes (step S U (ends e) (step S U closes s))).file
  end_step e s h free going =
      let (still, shut, done, same) = close_lem s.file h.file free in
      let (all, w, c) =
        run_ends_lem S U e (close s.file) s.world (ap is_starting same ∙ going) done in
      let r : UploadFile × S.World = run_ends S U e (close s.file) s.world in
      let (ended, w2, c2) = run_completes_lem S U r.0 r.1 all in
      subst (λ t. IsOver (step S U completes (step S U (ends e) t)).file)
        (sym (closes_when_free s free)) (ended, w2 ∙ w ∙ still, c2 ∙ c ∙ shut)

  returns_task : (u : UploadFile) → (write_returns u).1.task ≡ u.task
  unfolding write_returns
  returns_task u = end_writing_task u.writing u

  -- The rest of a transfer from any state.
  rest_ends :
      (e : Error) (s : State S)
      → Holds s
      → IsOver (run S U (rest_of (length (handed_part s.file.writing)) e) s).file
  unfolding run
  rest_ends e s h =
      let m = length (handed_part s.file.writing) in
      let first = step S U starts s in
      let second = step S U (takes m) first in
      let third = step S U returns second in
      let runs = started-Runs s h in
      let free : third.file.writing ≡ none =
        subst
          (λ p.
            (write_returns (run_takes S U (length (handed_part p)) first.file)).1.writing ≡ none)
          (run_starts_writing S U s.file s.world) (run_takes_free S U first.file runs) in
      end_step e third
        (step-Holds returns second (step-Holds (takes m) first (step-Holds starts s h))) free
        (ap is_starting (returns_task second.file) ∙ run_takes_task S U m first.file runs.0)

finished-returns : (u : UploadFile) → is_finished u.task ≡ true → close_returns u ≡ some u.error
unfolding close_returns
finished-returns u h = pick u.task h
  where
    pick : (t : Task) → is_finished t ≡ true → when_done t u.error ≡ some u.error
    pick starting h = absurd (cc)
    pick (sending lead received) h = absurd (cc)
    pick (completing body) h = absurd (cc)
    pick finished h = refl

-- From every state that an upload can reach, when the goroutine runs, the uploader reads the pipe
-- as far as it goes and the client closes the handle, no Write waits any more, the handle is closed
-- and Close returns.
pub upload_ends :
    (S : Service) (at : View S) (C : IsConfined S at) (F : IsFaithful S at) (U : Uploader S)
    (IU : IsUploader S at U) (mime : Str → Str) (f : Fs) (clean : Str) (flags : Flags) (offset : ℤ)
    (w v : S.World) (u : UploadFile) (es : List Event) (e : Error)
    → open_upload S mime f clean flags offset w ≡ (ok u, v)
    → let s : State S = run S U es (opened S u v) in
      let t : State S = run S U (rest_of (length (handed_part s.file.writing)) e) s in
      (t.file.writing ≡ none)
      × (t.file.is_closed ≡ true)
      × (close_returns t.file ≡ some t.file.error)
upload_ends S at C F U IU mime f clean flags offset w v u es e h =
    let (ended, free, shut) =
      rest_ends S at C F U IU f.bucket (key f clean) u.prefix_len (at w f.bucket (key f clean)) e
        (run S U es (opened S u v))
        (Outcome.after-Holds S at C F U IU mime f clean flags offset w v u es h) in
    (free, shut, finished-returns _ ended)
