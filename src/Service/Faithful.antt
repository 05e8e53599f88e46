-- ===== src/Service/Faithful.antt =====
-- What a call that succeeds has done: the documented answers of the S3 service to the calls that
-- transfer objects, as laws over the objects that a world holds.
use s32ftp.Prelude.{ℕ, ◌≡◌, ◌⊎◌, true, false, Option, none, some, drop, length}
use s32ftp.Text.{Str}
use s32ftp.Errors.{S3Error, ok, err, is_not_found}
use s32ftp.Service.{Service, Upload, Head, Reply}
use s32ftp.Service.Lawful.{Object, View, hits}

-- `bytes=start-`, or no range.
abbrev pub from_start : Option ℕ → Str → Str
from_start none body = body
from_start (some n) body = drop n body

pub record IsFaithful (S : Service) (at : View S) : Type 0 where
  pub head_found :
      (b k : Str) (w : S.World) {head : Head}
      → (S.head_object b k w).0 ≡ ok head
      → (o : Object) × (at w b k ≡ some o) × (head.content_length ≡ some (length o.body))
  pub head_missing :
      (b k : Str) (w : S.World) {e : S3Error}
      → (S.head_object b k w).0 ≡ err e
      → is_not_found e ≡ true
      → at w b k ≡ none
  pub get_found :
      (b k : Str) (r : Option ℕ) (w : S.World) {body : Str}
      → (S.get_object b k r w).0 ≡ ok body
      → (o : Object) × (at w b k ≡ some o) × (body ≡ from_start r o.body)

-- `manager.Uploader.Upload`, in the two ways in which it ends: the body that it was given has been
-- read to its end, or it gives up, as it does when reading the body fails.
pub record Uploader (S : Service) : Type 0 where
  pub complete : Str → Str → Upload → S.World → Reply (Unit {0}) × S.World
  pub abandon : Str → Str → S.World → S.World

-- A completed upload that reports no error has stored the body as it was read, and one that reports
-- an error has stored it or nothing. One that gives up stores nothing.
pub record IsUploader (S : Service) (at : View S) (U : Uploader S) : Type 0 where
  pub complete_ok :
      (b k : Str) (u : Upload) (w : S.World)
      → (U.complete b k u w).0 ≡ ok tt
      → (o : Object) × (at (U.complete b k u w).1 b k ≡ some o) × (o.body ≡ u.body)
  pub complete_either :
      (b k : Str) (u : Upload) (w : S.World)
      → (at (U.complete b k u w).1 b k ≡ at w b k)
        ⊎ ((o : Object) × (at (U.complete b k u w).1 b k ≡ some o) × (o.body ≡ u.body))
  pub complete_frame :
      (b k : Str) (u : Upload) (w : S.World) (b' k' : Str)
      → hits b k b' k' ≡ false
      → at (U.complete b k u w).1 b' k' ≡ at w b' k'
  pub abandon_frame :
      (b k : Str) (w : S.World) (b' k' : Str) → at (U.abandon b k w) b' k' ≡ at w b' k'

-- What a change that reports no error has done.
pub record IsObedient (S : Service) (at : View S) : Type 0 where
  pub put_ok :
      (b k : Str) (u : Upload) (w : S.World)
      → (S.put_object b k u w).0 ≡ ok tt
      → (o : Object) × (at (S.put_object b k u w).1 b k ≡ some o) × (o.body ≡ u.body)
  pub delete_ok :
      (b k : Str) (w : S.World)
      → (S.delete_object b k w).0 ≡ ok tt
      → at (S.delete_object b k w).1 b k ≡ none
