-- ===== src/Upload/Ending.antt =====
-- The end of the goroutine of internal/s3fs/upload.go keeps what holds of an upload.
use mathlib.Core.Path.{subst}
use s32ftp.Prelude.{
  ℕ, ◌≡◌, refl, sym, ap, ◌∙◌, ◌⊎◌, inl, inr, Bool, true, false, not, [], ◌∷◌, ◌++◌, Option, none,
  some, arith, if◌then◌else◌, take, append-nil, take_nil,
}
use s32ftp.Text.{Str}
use s32ftp.Errors.{Error, ok, err, s3_error}
use s32ftp.Info.{put_object_input}
use s32ftp.Service.{Service, Reply}
use s32ftp.Service.Lawful.{Object, View, IsConfined}
use s32ftp.Service.Faithful.{IsFaithful, Uploader, IsUploader}
use s32ftp.Upload.{
  Task, starting, sending, completing, finished, UploadFile, pipe_done, fail, handed_part,
  read_close_error,
}
use s32ftp.Upload.Run.{given_up, completed, end_run, run_ends, complete_run, run_completes, is_eof}
use s32ftp.Upload.Invariant.{FileIsSound, fail_sound}
use s32ftp.Upload.Stored.{IsSound, client-IsSound, TaskIsSound, lead_of, got}
use s32ftp.Upload.Goroutine
use s32ftp.Upload.Goroutine.{with_task-FileIsSound}

-- An end of the pipe at io.EOF was made by Close, with no error recorded.
eof_closed :
    (u : UploadFile)
    → FileIsSound u
    → is_eof (read_close_error u.reader_error u.writer_error) ≡ true
    → (u.is_closed ≡ true) × (u.writing ≡ none) × (pipe_done u ≡ true)
eof_closed u h e = (ground arith, ground arith, ground arith)

put_body : (body content_type : Str) → (put_object_input body content_type).body ≡ body
unfolding put_object_input
put_body body [] = refl
put_body body (c ∷ s) = refl

module _ (S : Service) (at : View S) (C : IsConfined S at) (F : IsFaithful S at) (U : Uploader S)
    (IU : IsUploader S at U) (b k : Str) (n : ℕ) (before : Option Object) where
  abbrev look : S.World → Option Object
  look w = at w b k

  abbrev Sound : UploadFile → S.World → Str → Type 0
  Sound = IsSound look b k n before

  place_of :
      (u : UploadFile) (v : S.World) → u.fs.bucket ≡ b → u.key ≡ k → at v u.fs.bucket u.key ≡ look v
  place_of u v hb hk = ap (λ c. at v c u.key) hb ∙ ap (at v b) hk

  stored-Sound :
      (u : UploadFile) (w v : S.World) (x : Str)
      → Sound u w x
      → (u.is_closed ≡ true) × (u.writing ≡ none) × (pipe_done u ≡ true)
      → (o : Object) → at v u.fs.bucket u.key ≡ some o
      → o.body ≡ lead_of n before ++ x
      → Sound (record u { task = finished }) v x
  stored-Sound u w v x h (shut, free, done) o there whole = record {
    bucket = h.bucket;
    place = h.place;
    prefix = h.prefix;
    file = with_task-FileIsSound finished u h.file;
    task = (done, inr (shut, o, sym (place_of u v h.bucket h.place) ∙ there, whole));
  }

  fail-stored :
      (e : Error) (u : UploadFile) (v : S.World) (x : Str)
      → Sound (record u { task = finished }) v x
      → Sound (record (fail e u) { task = finished }) v x
  unfolding fail
  fail-stored e u v x h =
      client-IsSound look b k n before (record u { task = finished }) _ v x x h
        (fail_sound e (record u { task = finished }) h.file) refl (inr refl)

  completed-Sound :
      (u : UploadFile) (w : S.World) (x : Str) (body : Str) (r : Reply (Unit {0}) × S.World)
      → Sound u w x
      → (u.is_closed ≡ true) × (u.writing ≡ none) × (pipe_done u ≡ true)
      → look w ≡ before
      → body ≡ lead_of n before ++ x
      → U.complete u.fs.bucket u.key (put_object_input body u.content_type) w ≡ r
      → Sound (completed S U u r).0 (completed S U u r).1 x
  completed-Sound u w x body (ok done, v) h c same whole e =
      let (o, there, stored) =
        IU.complete_ok _ _ (put_object_input body u.content_type) w (ap (λ p. p.0) e) in
      stored-Sound u w v x h c o (ap (λ p. at p.1 u.fs.bucket u.key) (sym e) ∙ there)
        (stored ∙ put_body body u.content_type ∙ whole)
  completed-Sound u w x body (err f, v) h c same whole e =
      either (IU.complete_either _ _ (put_object_input body u.content_type) w)
    where
      either :
          (at
                (U.complete u.fs.bucket u.key (put_object_input body u.content_type) w).1
                u.fs.bucket
                u.key
              ≡ at w u.fs.bucket u.key)
            ⊎ ((o : Object) × (at
                    (U.complete u.fs.bucket u.key (put_object_input body u.content_type) w).1
                    u.fs.bucket
                    u.key
                  ≡ some o)
                × (o.body ≡ (put_object_input body u.content_type).body))
          → Sound (completed S U u (err f, v)).0 (completed S U u (err f, v)).1 x
      either (inl nothing) =
          Goroutine.failed-Sound S at C F U IU b k n before (s3_error f) u w v x h (
            sym (place_of u v h.bucket h.place)
            ∙ ap (λ p. at p.1 u.fs.bucket u.key) (sym e)
            ∙ nothing
            ∙ place_of u w h.bucket h.place
            ∙ same)
      either (inr (o, there, stored)) = fail-stored (s3_error f) u v x (
          stored-Sound u w v x h c o (ap (λ p. at p.1 u.fs.bucket u.key) (sym e) ∙ there)
            (stored ∙ put_body body u.content_type ∙ whole))

  completing-Sound :
      (u : UploadFile) (w : S.World) (x body : Str)
      → Sound u w x
      → (u.is_closed ≡ true) × (u.writing ≡ none) × (pipe_done u ≡ true)
      → look w ≡ before
      → body ≡ lead_of n before ++ x
      → Sound (record u { task = completing body }) w x
  completing-Sound u w x body h (shut, free, done) same whole = record {
    bucket = h.bucket;
    place = h.place;
    prefix = h.prefix;
    file = with_task-FileIsSound (completing body) u h.file;
    task = (same, shut, done, whole);
  }

  -- The branches of the end of the body.
  abbrev ends_by : Error → Str → UploadFile → S.World → Bool → Bool → UploadFile × S.World
  ends_by e body u w d c =
      if d
      then (u, w)
      else if c
      then (record u { task = completing body }, w)
      else given_up S U e u w

  got_free : (u : UploadFile) (x : Str) → u.writing ≡ none → got u x ≡ x
  got_free u x free =
      ap (λ p. x ++ take u.handed (handed_part p)) free
      ∙ ap (λ s. x ++ s) (take_nil u.handed)
      ∙ append-nil x

  ends_by-Sound :
      (e : Error) (lead received : Str) (u : UploadFile) (w : S.World) (x : Str) (d c : Bool)
      → Sound u w x
      → TaskIsSound n before (sending lead received) u (look w) x
      → is_eof (read_close_error u.reader_error u.writer_error) ≡ c
      → Sound (ends_by e (lead ++ received) u w d c).0 (ends_by e (lead ++ received) u w d c).1 x
  ends_by-Sound e lead received u w x true c h t z = h
  ends_by-Sound e lead received u w x false true h (same, l, r) z =
      let shut = eof_closed u h.file z in
      completing-Sound u w x (lead ++ received) h shut same
        (ap (λ s. s ++ received) l ∙ ap (λ s. lead_of n before ++ s) (r ∙ got_free u x shut.1))
  ends_by-Sound e lead received u w x false false h (same, l, r) z =
      Goroutine.failed-Sound S at C F U IU b k n before e u w _ x h
        (IU.abandon_frame _ _ w b k ∙ same)

  pub run_ends-IsSound :
      (e : Error) (u : UploadFile) (w : S.World) (x : Str)
      → Sound u w x
      → Sound (run_ends S U e u w).0 (run_ends S U e u w).1 x
  unfolding run_ends
  run_ends-IsSound e u w x h = step u.task refl
    where
      step : (t : Task) → u.task ≡ t → Sound (end_run S U e t u w).0 (end_run S U e t u w).1 x
      step starting q = h
      step (sending lead received) q =
          ends_by-Sound e lead received u w x (not (pipe_done u)) _ h
            (subst (λ t. TaskIsSound n before t u (look w) x) q h.task) refl
      step (completing body) q = h
      step finished q = h

  pub run_completes-IsSound :
      (u : UploadFile) (w : S.World) (x : Str)
      → Sound u w x
      → Sound (run_completes S U u w).0 (run_completes S U u w).1 x
  unfolding run_completes
  run_completes-IsSound u w x h = step u.task refl
    where
      step : (t : Task) → u.task ≡ t → Sound (complete_run S U t u w).0 (complete_run S U t u w).1 x
      step starting q = h
      step (sending lead received) q = h
      step (completing body) q =
          let (same, shut, done, whole) =
            subst (λ t. TaskIsSound n before t u (look w) x) q h.task in
          completed-Sound u w x body _ h (shut, ground (arith, h.file.when_closed), done) same whole
            refl
      step finished q = h
