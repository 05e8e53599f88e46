-- ===== src/Upload/Outcome.antt =====
-- Uploads of internal/s3fs/upload.go from openUpload to Close: what is stored when Close reports no
-- error, and what may be stored at any time.
use mathlib.Core.Path.{subst}
use s32ftp.Prelude.{
  ◌≡◌, refl, sym, ap, ◌∙◌, ◌⊎◌, inl, true, List, [], ◌++◌, Option, none, some, ℕ, arith,
}
use s32ftp.Prelude.Int.{ℤ}
use s32ftp.Text.{Str}
use s32ftp.Errors.{ok}
use s32ftp.Service.{Service}
use s32ftp.Service.Lawful.{Object, View, IsConfined}
use s32ftp.Service.Faithful.{IsFaithful, Uploader, IsUploader}
use s32ftp.Fs.{Fs, key}
use s32ftp.Upload.{Flags, UploadFile, close_returns}
use s32ftp.Upload.Run.{new_upload, open_upload}
use s32ftp.Upload.Schedule.{Event, State, run}
use s32ftp.Upload.Stored.{IsSound, lead_of}
use s32ftp.Upload.Kept.{kept_part, open_upload_lem}
use s32ftp.Upload.Safety
use s32ftp.Upload.Safety.{opened}

module _ (S : Service) (at : View S) (C : IsConfined S at) (F : IsFaithful S at) (U : Uploader S)
    (IU : IsUploader S at U) (mime : Str → Str) (f : Fs) (clean : Str) (flags : Flags)
    (offset : ℤ) where
  new_upload-IsSound :
      (n : ℕ) (before : Option Object) (v : S.World)
      → at v f.bucket (key f clean) ≡ before
      → IsSound
          (λ x. at x f.bucket (key f clean))
          f.bucket
          (key f clean)
          n
          before
          (new_upload mime f clean n)
          v
          []
  new_upload-IsSound n before v same = record {
    bucket = refl;
    place = refl;
    prefix = refl;
    file = record {
      same_error = inl refl;
      recorded = inl refl;
      who_ended = inl refl;
      when_closed = inl refl;
      handed_over = omega arith;
    };
    task = (same, refl);
  }

  module _ (w v : S.World) (u : UploadFile) (es : List Event)
      (o : open_upload S mime f clean flags offset w ≡ (ok u, v)) where
    -- The state after the schedule.
    abbrev pub after : State S
    after = run S U es (opened S u v)

    abbrev before : Option Object
    before = at w f.bucket (key f clean)

    pub after-Holds : Safety.Holds S at C F U IU f.bucket (key f clean) u.prefix_len before after
    after-Holds =
        let (made, lead, same) = open_upload_lem S at C F mime f clean flags offset w v u o in
        Safety.run-Holds S at C F U IU f.bucket (key f clean) u.prefix_len before es (opened S u v)
          (subst
            (λ x.
              IsSound (λ y. at y f.bucket (key f clean)) f.bucket (key f clean) u.prefix_len before
                x v [])
            (sym made) (new_upload-IsSound u.prefix_len before v (same f.bucket (key f clean))))

    pub lead : lead_of u.prefix_len before ≡ kept_part flags offset before
    lead = (open_upload_lem S at C F mime f clean flags offset w v u o).1

-- However the calls of the client and the steps of the uploader fall, when Close returns no error
-- the object is the part of the old one that the flags and the offset keep, followed by exactly
-- the bytes that the calls of Write reported as written, in their order.
pub close_returns_lem :
    (S : Service) (at : View S) (C : IsConfined S at) (F : IsFaithful S at) (U : Uploader S)
    (IU : IsUploader S at U) (mime : Str → Str) (f : Fs) (clean : Str) (flags : Flags) (offset : ℤ)
    (w v : S.World) (u : UploadFile) (es : List Event)
    → open_upload S mime f clean flags offset w ≡ (ok u, v)
    → close_returns (run S U es (opened S u v)).file ≡ some none
    → (o : Object) × (at (run S U es (opened S u v)).world f.bucket (key f clean) ≡ some o)
      × (o.body
          ≡ kept_part flags offset (at w f.bucket (key f clean))
            ++ (run S U es (opened S u v)).accepted)
close_returns_lem S at C F U IU mime f clean flags offset w v u es h c =
    let (o, there, whole) =
      Safety.stored_at_close S at C F U IU f.bucket (key f clean) u.prefix_len
        (at w f.bucket (key f clean)) (run S U es (opened S u v))
        (after-Holds S at C F U IU mime f clean flags offset w v u es h) c in
    (
      o,
      there,
      whole
          ∙ ap (λ l. l ++ (run S U es (opened S u v)).accepted)
              (lead S at C F U IU mime f clean flags offset w v u es h),
    )

-- At any time the object is what it was before, or the upload has been closed and the object is the
-- part that is kept followed by all the bytes that were reported as written: no part of an upload
-- is ever seen.
pub never_partial :
    (S : Service) (at : View S) (C : IsConfined S at) (F : IsFaithful S at) (U : Uploader S)
    (IU : IsUploader S at U) (mime : Str → Str) (f : Fs) (clean : Str) (flags : Flags) (offset : ℤ)
    (w v : S.World) (u : UploadFile) (es : List Event)
    → open_upload S mime f clean flags offset w ≡ (ok u, v)
    → (at (run S U es (opened S u v)).world f.bucket (key f clean) ≡ at w f.bucket (key f clean))
      ⊎ (((run S U es (opened S u v)).file.is_closed ≡ true)
          × (o : Object) × (at (run S U es (opened S u v)).world f.bucket (key f clean) ≡ some o)
          × (o.body
              ≡ kept_part flags offset (at w f.bucket (key f clean))
                ++ (run S U es (opened S u v)).accepted))
never_partial S at C F U IU mime f clean flags offset w v u es h =
    let s : State S = run S U es (opened S u v) in
    let old : Option Object = at w f.bucket (key f clean) in
    let now : Option Object = at s.world f.bucket (key f clean) in
    subst
      (λ part.
        (now ≡ old)
        ⊎ ((s.file.is_closed ≡ true)
            × (o : Object) × (now ≡ some o)
            × (o.body ≡ part ++ s.accepted)))
      (lead S at C F U IU mime f clean flags offset w v u es h)
      (Safety.stored_or_before S at C F U IU f.bucket (key f clean) u.prefix_len old s
        (after-Holds S at C F U IU mime f clean flags offset w v u es h))
