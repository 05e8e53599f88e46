-- ===== src/Upload/Frame.antt =====
-- An upload of internal/s3fs/upload.go changes no object but its own.
use s32ftp.Prelude.{
  ℕ, ◌≡◌, refl, ◌∙◌, Bool, true, false, not, List, [], ◌∷◌, ◌++◌, Option, none, some, arith, ltb,
  if◌then◌else◌, Bool-cases, inl, inr,
}
use s32ftp.Prelude.Int.{ℤ, pos}
use s32ftp.Text.{Str}
use s32ftp.Errors.{Error, ok, err}
use s32ftp.Action.{call, from_reply}
use s32ftp.Service.{Service, Reply}
use s32ftp.Service.Lawful.{Object, View, IsConfined, hits}
use s32ftp.Service.Faithful.{Uploader, IsUploader}
use s32ftp.Fs.{Fs, get_object_from}
use s32ftp.Upload.{
  Task, starting, sending, completing, finished, UploadFile, pipe_done, fail, write, write_returns,
  end_write, end_writing, seek, seek_to, seek_target, close, transfer_error, close_ends,
  transfer_error_ends, read_close_error,
}
use s32ftp.Upload.Run.{
  fetched, begin, run_starts, take_from, run_takes, completed, give_up, given_up, run_gives_up,
  end_run, run_ends, complete_run, run_completes, is_eof,
}
use s32ftp.Upload.Schedule.{
  Event, writes, returns, seeks, closes, aborts, aborted, starts, takes, gives_up, ends, completes,
  State, when_free, step, run,
}

-- The handle of an upload to a key of a view.
abbrev pub GoesTo : Fs → Str → UploadFile → Type 0
GoesTo f key u = (u.fs ≡ f) × (u.key ≡ key)

module _ (f : Fs) (key : Str) where
  Goes : UploadFile → Type 0
  Goes = GoesTo f key

  seek_to-Goes : (t : Option ℤ) (u : UploadFile) → Goes u → Goes (seek_to t u).1
  unfolding Goes
  seek_to-Goes t u h = ground arith

  client-Goes :
      (u : UploadFile) (p : Str) (offset : ℤ) (whence : ℕ) (e : Option Error)
      → Goes u
      → Goes (write p u).1
        × Goes (end_write p u).1
        × Goes (seek offset whence u).1
        × Goes (close u)
        × Goes (transfer_error e u)
        × Goes (transfer_error_ends u)
  unfolding transfer_error_ends Goes write seek close transfer_error fail
  client-Goes u p offset whence e h = (
    ground arith,
    ground arith,
    ground (arith, seek_to-Goes (seek_target offset whence u) u h),
    ground arith,
    recorded e,
    ended u.aborting,
  )
    where
      ended : (es : List Error) → Goes (close_ends es u)
      ended [] = h
      ended (e ∷ es) = h

      recorded : (x : Option Error) → Goes (transfer_error x u)
      recorded none = h
      recorded (some x) = h

  returns-Goes : (u : UploadFile) → Goes u → Goes (write_returns u).1
  unfolding write_returns
  returns-Goes u h = pick u.writing
    where
      pick : (p : Option Str) → Goes (end_writing p u).1
      pick none = h
      pick (some p) = (client-Goes u p (pos 0) 0 none h).1

module _ (S : Service) (at : View S) (C : IsConfined S at) (U : Uploader S) (IU : IsUploader S at U)
    (f : Fs) (key b k : Str) (other : hits f.bucket key b k ≡ false) where
  abbrev look : S.World → Option Object
  look w = at w b k

  -- A transfer to the key, and a world with the same object elsewhere.
  abbrev Apart : Option Object → UploadFile × S.World → Type 0
  Apart old r = Goes f key r.0 × (look r.1 ≡ old)

  module _ (old : Option Object) where
    fetched-Apart :
        (u : UploadFile) (r : Reply Str × S.World)
        → Goes f key u
        → look r.1 ≡ old
        → Apart old (fetched S U u (from_reply r.0, r.1))
    unfolding Goes fail
    fetched-Apart u (ok body, v) h same = (h, same)
    fetched-Apart u (err e, v) h same = (h, same)

    run_starts-Apart :
        (u : UploadFile) (w : S.World) → Apart old (u, w) → Apart old (run_starts S U u w)
    unfolding run_starts get_object_from call Goes
    run_starts-Apart u w (h, same) = pick u.task
      where
        pick : (t : Task) → Apart old (begin S U t u w)
        pick starting = elim (Bool-cases (ltb 0 u.prefix_len)) [
          | inl c ↦ rw c (fetched-Apart u _ h (C.get_frame _ _ _ w b k ∙ same))
          | inr c ↦ rw c (h, same)
        ]
        pick (sending lead received) = (h, same)
        pick (completing body) = (h, same)
        pick finished = (h, same)

    run_gives_up-Apart :
        (e : Error) (u : UploadFile) (w : S.World)
        → Apart old (u, w)
        → Apart old (run_gives_up S U e u w)
    unfolding run_gives_up fail Goes
    run_gives_up-Apart e u w (h, same) = pick u.task
      where
        pick : (t : Task) → Apart old (give_up S U e t u w)
        pick starting = (h, same)
        pick (sending lead received) = (h, IU.abandon_frame _ _ w b k ∙ same)
        pick (completing body) = (h, IU.abandon_frame _ _ w b k ∙ same)
        pick finished = (h, same)

    completed-Apart :
        (u : UploadFile) (r : Reply (Unit {0}) × S.World)
        → Goes f key u
        → look r.1 ≡ old
        → Apart old (completed S U u r)
    unfolding Goes fail
    completed-Apart u (ok x, v) h same = (h, same)
    completed-Apart u (err e, v) h same = (h, same)

    run_ends-Apart :
        (e : Error) (u : UploadFile) (w : S.World)
        → Apart old (u, w)
        → Apart old (run_ends S U e u w)
    unfolding run_ends fail Goes
    run_ends-Apart e u w (h, same) = pick u.task
      where
        pick : (t : Task) → Apart old (end_run S U e t u w)
        pick starting = (h, same)
        pick (sending lead received) =
            at_end (pipe_done u) (is_eof (read_close_error u.reader_error u.writer_error))
          where
            at_end :
                (d c : Bool)
                → Apart old (
                    if not d
                    then (u, w)
                    else if c
                    then (record u { task = completing (lead ++ received) }, w)
                    else given_up S U e u w)
            at_end false c = (h, same)
            at_end true true = (h, same)
            at_end true false = (h, IU.abandon_frame _ _ w b k ∙ same)
        pick (completing body) = (h, same)
        pick finished = (h, same)

    run_completes-Apart :
        (u : UploadFile) (w : S.World) → Apart old (u, w) → Apart old (run_completes S U u w)
    unfolding run_completes fail Goes
    run_completes-Apart u w (h, same) = pick u.task
      where
        elsewhere : hits u.fs.bucket u.key b k ≡ false
        elsewhere = rw (h.0, h.1) other

        pick : (t : Task) → Apart old (complete_run S U t u w)
        pick starting = (h, same)
        pick (sending lead received) = (h, same)
        pick (completing body) =
            completed-Apart u _ h (IU.complete_frame _ _ _ w b k elsewhere ∙ same)
        pick finished = (h, same)

    run_takes-Goes : (m : ℕ) (u : UploadFile) → Goes f key u → Goes f key (run_takes S U m u)
    unfolding run_takes Goes
    run_takes-Goes m u h = pick u.task u.writing
      where
        pick : (t : Task) (p : Option Str) → Goes f key (take_from S U m t p u)
        pick (sending lead received) (some p) = ground arith
        pick (sending lead received) none = h
        pick starting p = h
        pick (completing body) p = h
        pick finished p = h

    abbrev StateApart : State S → Type 0
    StateApart s = Apart old (s.file, s.world)

    free-Apart :
        (s t : State S) (p : Option Str)
        → StateApart s
        → StateApart t
        → StateApart (when_free S U p s t)
    free-Apart s t none h g = g
    free-Apart s t (some p) h g = h

    step-Apart : (e : Event) (s : State S) → StateApart s → StateApart (step S U e s)
    step-Apart (writes p) s h =
        free-Apart s _ s.file.writing h ((client-Goes f key s.file p (pos 0) 0 none h.0).0, h.1)
    step-Apart returns s h = (returns-Goes f key s.file h.0, h.1)
    step-Apart (seeks offset whence) s h =
        free-Apart s _ s.file.writing h
          ((client-Goes f key s.file [] offset whence none h.0).2, h.1)
    step-Apart closes s h =
        free-Apart s _ s.file.writing h ((client-Goes f key s.file [] (pos 0) 0 none h.0).3, h.1)
    step-Apart (aborts e) s h = ((client-Goes f key s.file [] (pos 0) 0 e h.0).4, h.1)
    step-Apart aborted s h = ((client-Goes f key s.file [] (pos 0) 0 none h.0).5, h.1)
    step-Apart starts s h = run_starts-Apart s.file s.world h
    step-Apart (takes m) s h = (run_takes-Goes m s.file h.0, h.1)
    step-Apart (gives_up e) s h = run_gives_up-Apart e s.file s.world h
    step-Apart (ends e) s h = run_ends-Apart e s.file s.world h
    step-Apart completes s h = run_completes-Apart s.file s.world h

    run-Apart : (es : List Event) (s : State S) → StateApart s → StateApart (run S U es s)
    unfolding run
    run-Apart [] s h = h
    run-Apart (e ∷ es) s h = run-Apart es (step S U e s) (step-Apart e s h)

  -- Whatever happens in an upload, another object is the same after it.
  pub run_elsewhere :
      (es : List Event) (s : State S)
      → GoesTo f key s.file
      → at (run S U es s).world b k ≡ at s.world b k
  unfolding Goes
  run_elsewhere es s h = (run-Apart (at s.world b k) es s (h, refl)).1
