-- ===== src/Upload/Safety.antt =====
-- What holds of an upload of internal/s3fs/upload.go after any schedule from its opening on.
use s32ftp.Prelude.{
  ℕ, ◌≡◌, refl, ◌⊎◌, inl, inr, true, List, [], ◌∷◌, ◌++◌, Option, none, some, arith,
}
use s32ftp.Text.{Str}
use s32ftp.Errors.{Error}
use s32ftp.Service.{Service}
use s32ftp.Service.Lawful.{Object, View, IsConfined}
use s32ftp.Service.Faithful.{IsFaithful, Uploader, IsUploader}
use s32ftp.Upload.{
  Task, starting, sending, completing, finished, UploadFile, handed_part, write_returns,
  end_writing, close_returns, when_done,
}
use s32ftp.Upload.Schedule.{
  Event, writes, returns, seeks, closes, aborts, aborted, starts, takes, gives_up, ends, completes,
  State, accepted_after, after_write, when_free, step, run,
}
use s32ftp.Upload.Stored
use s32ftp.Upload.Stored.{IsSound, TaskIsSound, lead_of, got}
use s32ftp.Upload.Goroutine
use s32ftp.Upload.Ending

module _ (S : Service) (at : View S) (C : IsConfined S at) (F : IsFaithful S at) (U : Uploader S)
    (IU : IsUploader S at U) (b k : Str) (n : ℕ) (before : Option Object) where
  abbrev look : S.World → Option Object
  look w = at w b k

  abbrev pub Holds : State S → Type 0
  Holds s = IsSound look b k n before s.file s.world s.accepted

  free-Holds :
      (s t : State S) (p : Option Str)
      → s.file.writing ≡ p
      → Holds s
      → (s.file.writing ≡ none → Holds t)
      → Holds (when_free S U p s t)
  free-Holds s t none e h f = f e
  free-Holds s t (some p) e h f = h

  returns-Holds : (s : State S) → Holds s → Holds (after_write S U s (write_returns s.file))
  unfolding write_returns
  returns-Holds s h = pick s.file.writing refl
    where
      pick :
          (p : Option Str)
          → s.file.writing ≡ p
          → IsSound look b k n before
              (end_writing p s.file).1
              s.world
              (accepted_after s.accepted (handed_part p) (end_writing p s.file).0)
      pick none e = h
      pick (some p) e = Stored.end_write-IsSound look b k n before p s.file s.world s.accepted e h

  step-Holds : (e : Event) (s : State S) → Holds s → Holds (step S U e s)
  step-Holds (writes p) s h =
      free-Holds s _ s.file.writing refl h
        (λ free. Stored.write-IsSound look b k n before p s.file s.world s.accepted free h)
  step-Holds returns s h = returns-Holds s h
  step-Holds (seeks offset whence) s h =
      free-Holds s _ s.file.writing refl h
        (λ free. Stored.seek-IsSound look b k n before offset whence s.file s.world s.accepted h)
  step-Holds closes s h =
      free-Holds s _ s.file.writing refl h
        (λ free. Stored.close-IsSound look b k n before s.file s.world s.accepted free h)
  step-Holds (aborts e) s h =
      Stored.transfer_error-IsSound look b k n before e s.file s.world s.accepted h
  step-Holds aborted s h =
      Stored.transfer_error_ends-IsSound look b k n before s.file s.world s.accepted h
  step-Holds starts s h =
      Goroutine.run_starts-IsSound S at C F U IU b k n before s.file s.world s.accepted h
  step-Holds (takes m) s h =
      Goroutine.run_takes-IsSound S at C F U IU b k n before m s.file s.world s.accepted h
  step-Holds (gives_up e) s h =
      Goroutine.run_gives_up-IsSound S at C F U IU b k n before e s.file s.world s.accepted h
  step-Holds (ends e) s h =
      Ending.run_ends-IsSound S at C F U IU b k n before e s.file s.world s.accepted h
  step-Holds completes s h =
      Ending.run_completes-IsSound S at C F U IU b k n before s.file s.world s.accepted h

  pub run-Holds : (es : List Event) (s : State S) → Holds s → Holds (run S U es s)
  unfolding run
  run-Holds [] s h = h
  run-Holds (e ∷ es) s h = run-Holds es (step S U e s) (step-Holds e s h)

  -- What a state that holds has stored.
  pub stored_or_before :
      (s : State S)
      → Holds s
      → (look s.world ≡ before)
        ⊎ ((s.file.is_closed ≡ true)
            × (o : Object) × (look s.world ≡ some o)
            × (o.body ≡ lead_of n before ++ s.accepted))
  stored_or_before s h = pick s.file.task h.task
    where
      pick :
          (t : Task)
          → TaskIsSound n before t s.file (look s.world) s.accepted
          → (look s.world ≡ before)
            ⊎ ((s.file.is_closed ≡ true)
                × (o : Object) × (look s.world ≡ some o)
                × (o.body ≡ lead_of n before ++ s.accepted))
      pick starting t = inl t.0
      pick (sending lead received) t = inl t.0
      pick (completing body) t = inl t.0
      pick finished (done, inl (failed, same)) = inl same
      pick finished (done, inr there) = inr there

  pub stored_at_close :
      (s : State S)
      → Holds s
      → close_returns s.file ≡ some none
      → (o : Object) × (look s.world ≡ some o) × (o.body ≡ lead_of n before ++ s.accepted)
  unfolding close_returns
  stored_at_close s h c = pick s.file.task s.file.error refl h.task c
    where
      pick :
          (t : Task) (e : Option Error)
          → s.file.error ≡ e
          → TaskIsSound n before t s.file (look s.world) s.accepted
          → when_done t e ≡ some none
          → (o : Object) × (look s.world ≡ some o) × (o.body ≡ lead_of n before ++ s.accepted)
      pick starting e q t r = absurd (cc)
      pick (sending lead received) e q t r = absurd (cc)
      pick (completing body) e q t r = absurd (cc)
      pick finished none q (done, inl (failed, same)) r = absurd (ground arith)
      pick finished none q (done, inr (shut, o, there, whole)) r = (o, there, whole)
      pick finished (some e) q t r = absurd (ground arith)

abbrev pub opened : (S : Service) → UploadFile → S.World → State S
opened S u v = record { file = u; world = v; accepted = [] }
