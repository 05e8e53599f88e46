-- ===== src/Upload/Ends.antt =====
-- The steps of a handle of internal/s3fs/upload.go by which a Write and Close come to return.
use mathlib.Core.Path.{subst}
use s32ftp.Prelude.{
  ℕ, ◌≡◌, refl, sym, ap, ◌⊎◌, inl, inr, Bool, true, false, ◌&&◌, List, [], ◌∷◌, Option, none, some,
  arith, ltb, leb, length, Bool-cases,
}
use s32ftp.Text.{Str}
use s32ftp.Errors.{Error, ok, err}
use s32ftp.Action.{call, from_reply}
use s32ftp.Service.{Service, Reply}
use s32ftp.Service.Faithful.{Uploader}
use s32ftp.Fs.{get_object_from}
use s32ftp.Upload.{
  Task, starting, sending, completing, finished, UploadFile, pipe_done, fail, read_close_error,
  write_returns, end_writing, end_write, close, handed_part,
}
use s32ftp.Upload.Run.{
  fetched, begin, run_starts, take_from, taken, run_takes, completed, end_run, run_ends,
  complete_run, run_completes, is_eof,
}
use s32ftp.Upload.Schedule.{Event, returns, closes, starts, takes, ends, completes}
use s32ftp.Upload.Invariant.{FileIsSound}

abbrev pub is_starting : Task → Bool
is_starting starting = true
is_starting _ = false

abbrev pub has_read : Task → Bool
has_read (completing body) = true
has_read finished = true
has_read _ = false

abbrev pub is_finished : Task → Bool
is_finished finished = true
is_finished _ = false

-- The goroutine starts, the uploader takes the `m` bytes that wait, the Write returns, the client
-- closes the handle, and the uploader comes to the end of the pipe and then to its own.
abbrev pub rest_of : ℕ → Error → List Event
rest_of m e = starts ∷ takes m ∷ returns ∷ closes ∷ ends e ∷ completes ∷ []

-- The goroutine has started, and when it reads no more an end of the pipe is closed.
abbrev pub Runs : UploadFile → Type 0
Runs u = (is_starting u.task ≡ false) × ((has_read u.task ≡ false) ⊎ (pipe_done u ≡ true))

end_write_free :
    (p : Str) (u : UploadFile)
    → ((u.met && leb (length p) u.handed) ≡ true) ⊎ (pipe_done u ≡ true)
    → (end_write p u).1.writing ≡ none
unfolding fail
end_write_free p u h = ground arith

abbrev no_write : Option Str → Bool
no_write none = true
no_write (some p) = false

end_writing_free :
    (p : Option Str) (u : UploadFile)
    → u.writing ≡ p
    → (no_write p ≡ true)
      ⊎ ((u.met && leb (length (handed_part p)) u.handed) ≡ true)
      ⊎ (pipe_done u ≡ true)
    → (end_writing u.writing u).1.writing ≡ none
end_writing_free none u f h = subst (λ q. (end_writing q u).1.writing ≡ none) (sym f) f
end_writing_free (some p) u f (inl h) = absurd (cc)
end_writing_free (some p) u f (inr h) =
    subst (λ q. (end_writing q u).1.writing ≡ none) (sym f) (end_write_free p u h)

pub end_writing_task : (p : Option Str) (u : UploadFile) → (end_writing p u).1.task ≡ u.task
unfolding fail
end_writing_task none u = refl
end_writing_task (some p) u = ground arith

pub close_lem :
    (u : UploadFile)
    → FileIsSound u
    → u.writing ≡ none
    → ((close u).writing ≡ none)
      × ((close u).is_closed ≡ true)
      × (pipe_done (close u) ≡ true)
      × ((close u).task ≡ u.task)
unfolding close
close_lem u h free = (ground arith, ground arith, ground arith, ground arith)

module _ (S : Service) (U : Uploader S) where
  pub run_starts_task :
      (u : UploadFile) (w : S.World) → is_starting (run_starts S U u w).0.task ≡ false
  unfolding run_starts get_object_from call
  run_starts_task u w = at_task u.task refl
    where
      got_it :
          (r : Reply Str × S.World)
          → is_starting (fetched S U u (from_reply r.0, r.1)).0.task ≡ false
      got_it (ok body, v) = refl
      got_it (err e, v) = refl

      at_task : (t : Task) → u.task ≡ t → is_starting (begin S U t u w).0.task ≡ false
      at_task starting e = elim (Bool-cases (ltb 0 u.prefix_len)) [
        | inl c ↦ rw c (got_it _)
        | inr c ↦ rw c refl
      ]
      at_task (sending lead received) e = ap is_starting e
      at_task (completing body) e = ap is_starting e
      at_task finished e = ap is_starting e

  pub run_starts_writing :
      (u : UploadFile) (w : S.World) → (run_starts S U u w).0.writing ≡ u.writing
  unfolding run_starts get_object_from call fail
  run_starts_writing u w = at_task u.task
    where
      got_it :
          (r : Reply Str × S.World) → (fetched S U u (from_reply r.0, r.1)).0.writing ≡ u.writing
      got_it (ok body, v) = refl
      got_it (err e, v) = refl

      at_task : (t : Task) → (begin S U t u w).0.writing ≡ u.writing
      at_task starting = elim (Bool-cases (ltb 0 u.prefix_len)) [
        | inl c ↦ rw c (got_it _)
        | inr c ↦ rw c refl
      ]
      at_task (sending lead received) = refl
      at_task (completing body) = refl
      at_task finished = refl

  -- Once the uploader has taken as many bytes as there are, the Write that waits returns.
  pub run_takes_free :
      (u : UploadFile)
      → Runs u
      → (write_returns (run_takes S U (length (handed_part u.writing)) u)).1.writing ≡ none
  unfolding run_takes write_returns
  run_takes_free u h = at_task u.task u.writing refl refl h.0 h.1
    where
      at_task :
          (t : Task) (p : Option Str)
          → u.task ≡ t
          → u.writing ≡ p
          → is_starting t ≡ false
          → (has_read t ≡ false) ⊎ (pipe_done u ≡ true)
          → (end_writing
              (take_from S U (length (handed_part p)) t p u).writing
              (take_from S U (length (handed_part p)) t p u)).1.writing
            ≡ none
      at_task starting p e f i j = absurd (cc)
      at_task (sending lead received) none e f i j = end_writing_free none u f (inl refl)
      at_task (sending lead received) (some p) e f i j = elim (Bool-cases (pipe_done u)) [
        | inl d ↦ rw d (end_writing_free (some p) u f (inr (inr d)))
        | inr d ↦ rw d (
            end_writing_free (some p) (taken S U (length p) lead received p u) f
              (inr (inl (ground arith))))
      ]
      at_task (completing body) p e f i (inl no_end) = absurd (cc)
      at_task (completing body) p e f i (inr d) = end_writing_free p u f (inr (inr d))
      at_task finished p e f i (inl no_end) = absurd (cc)
      at_task finished p e f i (inr d) = end_writing_free p u f (inr (inr d))

  pub run_ends_lem :
      (e : Error) (u : UploadFile) (w : S.World)
      → is_starting u.task ≡ false
      → pipe_done u ≡ true
      → (has_read (run_ends S U e u w).0.task ≡ true)
        × ((run_ends S U e u w).0.writing ≡ u.writing)
        × ((run_ends S U e u w).0.is_closed ≡ u.is_closed)
  unfolding run_ends fail
  run_ends_lem e u w i d = at_task u.task refl i
    where
      at_task :
          (t : Task)
          → u.task ≡ t
          → is_starting t ≡ false
          → (has_read (end_run S U e t u w).0.task ≡ true)
            × ((end_run S U e t u w).0.writing ≡ u.writing)
            × ((end_run S U e t u w).0.is_closed ≡ u.is_closed)
      at_task starting q z = absurd (cc)
      at_task (sending lead received) q z =
          elim (Bool-cases (is_eof (read_close_error u.reader_error u.writer_error))) [
            | inl c ↦ rw (d, c) (refl, refl, refl)
            | inr c ↦ rw (d, c) (refl, refl, refl)
          ]
      at_task (completing body) q z = (ap has_read q, refl, refl)
      at_task finished q z = (ap has_read q, refl, refl)

  pub run_completes_lem :
      (u : UploadFile) (w : S.World)
      → has_read u.task ≡ true
      → (is_finished (run_completes S U u w).0.task ≡ true)
        × ((run_completes S U u w).0.writing ≡ u.writing)
        × ((run_completes S U u w).0.is_closed ≡ u.is_closed)
  unfolding run_completes fail
  run_completes_lem u w h = at_task u.task refl h
    where
      ended :
          (r : Reply (Unit {0}) × S.World)
          → (is_finished (completed S U u r).0.task ≡ true)
            × ((completed S U u r).0.writing ≡ u.writing)
            × ((completed S U u r).0.is_closed ≡ u.is_closed)
      ended (ok x, v) = (refl, refl, refl)
      ended (err x, v) = (refl, refl, refl)

      at_task :
          (t : Task)
          → u.task ≡ t
          → has_read t ≡ true
          → (is_finished (complete_run S U t u w).0.task ≡ true)
            × ((complete_run S U t u w).0.writing ≡ u.writing)
            × ((complete_run S U t u w).0.is_closed ≡ u.is_closed)
      at_task starting q z = absurd (cc)
      at_task (sending lead received) q z = absurd (cc)
      at_task (completing body) q z = ended _
      at_task finished q z = (ap is_finished q, refl, refl)

  pub run_takes_task :
      (m : ℕ) (u : UploadFile)
      → is_starting u.task ≡ false
      → is_starting (run_takes S U m u).task ≡ false
  unfolding run_takes
  run_takes_task m u i = at_task u.task u.writing refl i
    where
      at_task :
          (t : Task) (p : Option Str)
          → u.task ≡ t
          → is_starting t ≡ false
          → is_starting (take_from S U m t p u).task ≡ false
      at_task starting p e i = absurd (cc)
      at_task (sending lead received) none e i = ap is_starting e
      at_task (sending lead received) (some p) e i = elim (Bool-cases (pipe_done u)) [
        | inl d ↦ rw d (ap is_starting e)
        | inr d ↦ rw d refl
      ]
      at_task (completing body) p e i = ap is_starting e
      at_task finished p e i = ap is_starting e
