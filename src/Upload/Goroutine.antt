-- ===== src/Upload/Goroutine.antt =====
-- The steps of the goroutine of internal/s3fs/upload.go keep what holds of an upload.
use mathlib.Core.Path.{subst}
use s32ftp.Prelude.{
  ℕ, ◌+◌, ◌-◌, ◌≤◌, min, ◌≡◌, refl, sym, ap, ◌∙◌, inl, inr, Bool, true, false, [], ◌++◌, Option,
  none, some, arith, ltb, if◌then◌else◌, length, take, drop, Bool-cases, append_assoc,
  take-append-take,
}
use s32ftp.Text.{Str}
use s32ftp.Errors.{Error, ok, err, s3_error}
use s32ftp.Action.{call, from_reply}
use s32ftp.Service.{Service, Reply}
use s32ftp.Service.Lawful.{Object, View, IsConfined}
use s32ftp.Service.Faithful.{IsFaithful, Uploader, IsUploader}
use s32ftp.Fs.{get_object_from}
use s32ftp.Upload.{
  Task, starting, sending, completing, finished, UploadFile, is_some, pipe_done, fail, handed_part,
}
use s32ftp.Upload.Run.{
  fetched, begin, run_starts, taken, take_from, run_takes, give_up, run_gives_up,
}
use s32ftp.Upload.Invariant.{FileIsSound, fail_sound}
use s32ftp.Upload.Stored.{IsSound, TaskIsSound, lead_of, lead_of_zero, got}

pub with_task-FileIsSound :
    (t : Task) (u : UploadFile) → FileIsSound u → FileIsSound (record u { task = t })
with_task-FileIsSound t u h = record {
  same_error = h.same_error;
  recorded = h.recorded;
  who_ended = h.who_ended;
  when_closed = h.when_closed;
  handed_over = h.handed_over;
}

failed_done : (e : Error) (u : UploadFile) → pipe_done (fail e u) ≡ true
unfolding fail
failed_done e u = ground arith

failed_error : (e : Error) (u : UploadFile) → is_some (fail e u).error ≡ true
unfolding fail
failed_error e u = ground arith

module _ (S : Service) (at : View S) (C : IsConfined S at) (F : IsFaithful S at) (U : Uploader S)
    (IU : IsUploader S at U) (b k : Str) (n : ℕ) (before : Option Object) where
  abbrev look : S.World → Option Object
  look w = at w b k

  abbrev Sound : UploadFile → S.World → Str → Type 0
  Sound = IsSound look b k n before

  -- The goroutine ends with an error, and the object is what it was.
  pub failed-Sound :
      (e : Error) (u : UploadFile) (w v : S.World) (x : Str)
      → Sound u w x
      → look v ≡ before
      → Sound (record (fail e u) { task = finished }) v x
  unfolding fail
  failed-Sound e u w v x h same = record {
    bucket = h.bucket;
    place = h.place;
    prefix = h.prefix;
    file = with_task-FileIsSound finished (fail e u) (fail_sound e u h.file).0;
    task = (failed_done e u, inl (failed_error e u, same));
  }

  sending-Sound :
      (u : UploadFile) (w v : S.World) (x lead received : Str)
      → Sound u w x
      → look v ≡ before
      → lead ≡ lead_of n before
      → received ≡ got u x
      → Sound (record u { task = sending lead received }) v x
  sending-Sound u w v x lead received h same l r = record {
    bucket = h.bucket;
    place = h.place;
    prefix = h.prefix;
    file = with_task-FileIsSound _ u h.file;
    task = (same, l, r);
  }

  read_world :
      (u : UploadFile) (w : S.World) {r : Reply Str × S.World}
      → S.get_object u.fs.bucket u.key none w ≡ r
      → look r.1 ≡ look w
  read_world u w a = ap (λ p. look p.1) (sym a) ∙ C.get_frame _ _ _ w b k

  read_lead :
      (u : UploadFile) (w : S.World) {r : Reply Str × S.World} {body : Str}
      → u.fs.bucket ≡ b
      → u.key ≡ k
      → S.get_object u.fs.bucket u.key none w ≡ r
      → r.0 ≡ ok body
      → take u.prefix_len body ≡ lead_of u.prefix_len (look w)
  read_lead u w hb hk a e =
      let (o, there, whole) = F.get_found _ _ _ w (ap (λ p. p.0) a ∙ e) in
      let here : look w ≡ some o =
        ap (λ c. at w c k) (sym hb) ∙ ap (at w u.fs.bucket) (sym hk) ∙ there in
      ap (take u.prefix_len) whole ∙ ap (lead_of u.prefix_len) (sym here)

  fetched-Sound :
      (u : UploadFile) (w : S.World) (x : Str) (r : Reply Str × S.World)
      → Sound u w x
      → look w ≡ before
      → got u x ≡ []
      → S.get_object u.fs.bucket u.key none w ≡ r
      → Sound (fetched S U u (from_reply r.0, r.1)).0 (fetched S U u (from_reply r.0, r.1)).1 x
  fetched-Sound u w x (err e, v) h same nothing a =
      failed-Sound (s3_error e) u w v x h (read_world u w a ∙ same)
  fetched-Sound u w x (ok body, v) h same nothing a =
      sending-Sound u w v x (take u.prefix_len body) [] h (read_world u w a ∙ same)
        (read_lead u w h.bucket h.place a refl
          ∙ ap (lead_of u.prefix_len) same
          ∙ ap (λ m. lead_of m before) h.prefix)
        (sym nothing)

  begin-Sound :
      (t : Task) (u : UploadFile) (w : S.World) (x : Str)
      → u.task ≡ t
      → Sound u w x
      → Sound (begin S U t u w).0 (begin S U t u w).1 x
  unfolding get_object_from call
  begin-Sound starting u w x e h =
      let (same, nothing) = subst (λ t. TaskIsSound n before t u (look w) x) e h.task in
      elim (Bool-cases (ltb 0 u.prefix_len)) [
        | inl some_kept ↦ rw some_kept (fetched-Sound u w x _ h same nothing refl)
        | inr none_kept ↦
            let zero_kept : u.prefix_len ≡ 0 = ground arith in
            let none_of : 0 ≡ n = sym zero_kept ∙ h.prefix in
            rw none_kept (
              sending-Sound u w w x [] [] h same
                (sym (lead_of_zero before) ∙ ap (λ m. lead_of m before) none_of) (sym nothing))
      ]
  begin-Sound (sending lead received) u w x e h = h
  begin-Sound (completing body) u w x e h = h
  begin-Sound finished u w x e h = h

  pub run_starts-IsSound :
      (u : UploadFile) (w : S.World) (x : Str)
      → Sound u w x
      → Sound (run_starts S U u w).0 (run_starts S U u w).1 x
  unfolding run_starts
  run_starts-IsSound u w x h = begin-Sound u.task u w x refl h

  pub run_gives_up-IsSound :
      (e : Error) (u : UploadFile) (w : S.World) (x : Str)
      → Sound u w x
      → Sound (run_gives_up S U e u w).0 (run_gives_up S U e u w).1 x
  unfolding run_gives_up
  run_gives_up-IsSound e u w x h = step u.task refl
    where
      step : (t : Task) → u.task ≡ t → Sound (give_up S U e t u w).0 (give_up S U e t u w).1 x
      step starting q = h
      step (sending lead received) q = failed-Sound e u w _ x h (
          IU.abandon_frame _ _ w b k
          ∙ (subst (λ t. TaskIsSound n before t u (look w) x) q h.task).0)
      step (completing body) q = failed-Sound e u w _ x h (
          IU.abandon_frame _ _ w b k
          ∙ (subst (λ t. TaskIsSound n before t u (look w) x) q h.task).0)
      step finished q = h

  taken-Sound :
      (m : ℕ) (u : UploadFile) (w : S.World) (x lead received p : Str)
      → Sound u w x
      → u.task ≡ sending lead received
      → u.writing ≡ some p
      → Sound (taken S U m lead received p u) w x
  taken-Sound m u w x lead received p h q r =
      let (same, l, rec) = subst (λ t. TaskIsSound n before t u (look w) x) q h.task in
      let more : ℕ = min m (length p - u.handed) in
      let long : u.handed ≤ length p =
        subst (λ z. u.handed ≤ length (handed_part z)) r h.file.handed_over in
      record {
        bucket = h.bucket;
        place = h.place;
        prefix = h.prefix;
        file = record {
          same_error = h.file.same_error;
          recorded = h.file.recorded;
          who_ended = h.file.who_ended;
          when_closed = h.file.when_closed;
          handed_over = subst (λ z. u.handed + more ≤ length (handed_part z)) (sym r) (omega arith);
        };
        task = (
          same,
          l,
          ap (λ s. s ++ take more (drop u.handed p)) rec
              ∙ append_assoc x (take u.handed (handed_part u.writing)) (take more (drop u.handed p))
              ∙ ap (λ z. x ++ (take u.handed (handed_part z) ++ take more (drop u.handed p))) r
              ∙ ap (λ s. x ++ s) (take-append-take u.handed more p)
              ∙ ap (λ z. x ++ take (u.handed + more) (handed_part z)) (sym r),
        );
      }

  pub run_takes-IsSound :
      (m : ℕ) (u : UploadFile) (w : S.World) (x : Str) → Sound u w x → Sound (run_takes S U m u) w x
  unfolding run_takes
  run_takes-IsSound m u w x h = step u.task u.writing refl refl
    where
      step :
          (t : Task) (p : Option Str)
          → u.task ≡ t
          → u.writing ≡ p
          → Sound (take_from S U m t p u) w x
      step starting p q r = h
      step (sending lead received) none q r = h
      step (sending lead received) (some p) q r = choose (pipe_done u)
        where
          choose : (d : Bool) → Sound (if d then u else taken S U m lead received p u) w x
          choose true = h
          choose false = taken-Sound m u w x lead received p h q r
      step (completing body) p q r = h
      step finished p q r = h
