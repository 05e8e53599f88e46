-- ===== src/Download/At.antt =====
-- What ReadAt of internal/s3fs/download.go gives, while the object stays as it is.
use mathlib.Core.Path.{subst}
use s32ftp.Prelude.{
  ℕ, ◌≤◌, ◌<◌, min, ◌≡◌, refl, sym, ap, ◌∙◌, ◌⊎◌, inl, inr, true, false, [], ◌∷◌, ◌++◌, Option,
  none, some, arith, ltb, leb, if◌then◌else◌, length, take, drop, Bool-cases, take-append-drop,
  append-nil, length-take,
}
use s32ftp.Prelude.Int.{pos, ltb_ℤ}
use s32ftp.Text.{Str}
use s32ftp.Errors.{Error, S3Error, ok, err, s3_error}
use s32ftp.Action.{call, from_reply}
use s32ftp.Service.{Service, Reply}
use s32ftp.Service.Lawful.{Object, View, IsConfined}
use s32ftp.Service.Faithful.{IsFaithful}
use s32ftp.Fs.{get_object_from}
use s32ftp.Download.{Download, end_of_body, read_full, read_at_body, read_at}
use s32ftp.Download.Follow
use s32ftp.Download.Follow.{Follows, from_start_lem}

-- The bytes are the first of these, all that were asked for unless there is an error, and an error
-- when there are fewer.
abbrev pub IsPartOf : ℕ → Str → Str × Option Error → Type 0
IsPartOf n whole r =
    ((rest : Str) × (r.0 ++ rest ≡ whole))
    × ((r.1 ≡ none) → length r.0 ≡ n)
    × (length whole < n → (e : Error) × (r.1 ≡ some e))

whole-IsPartOf : (n : ℕ) (body : Str) → length body < n → IsPartOf n body (body, end_of_body body)
whole-IsPartOf n [] l = (([], refl), λ h. absurd (cc), λ m. (Error.eof, refl))
whole-IsPartOf n (c ∷ body) l =
    (([], append-nil (c ∷ body)), λ h. absurd (cc), λ m. (Error.unexpected_eof, refl))

take-IsPartOf : (n : ℕ) (body : Str) → n ≤ length body → IsPartOf n body (take n body, none)
take-IsPartOf n body l = (
  (drop n body, take-append-drop n body),
  λ h. omega (arith, length-take n body),
  λ m. absurd (omega arith),
)

read_full-IsPartOf :
    (cut : Option (ℕ × S3Error)) (n : ℕ) (body : Str) → IsPartOf n body (read_full cut n body)
read_full-IsPartOf none n body = elim (Bool-cases (leb n (length body))) [
  | inl e ↦ rw e (take-IsPartOf n body (ground arith))
  | inr e ↦ rw e (whole-IsPartOf n body (ground arith))
]
read_full-IsPartOf (some (m, x)) n body = elim (Bool-cases (leb n (min m (length body)))) [
  | inl e ↦ rw e (take-IsPartOf n body (ground arith))
  | inr e ↦ rw e (elim (Bool-cases (leb (length body) m)) [
    | inl g ↦ rw g (whole-IsPartOf n body (ground arith))
    | inr g ↦
        rw g ((drop m body, take-append-drop m body), λ h. absurd (cc), λ l. (s3_error x, refl))
  ])
]

-- The answer of ReadAt: the error of the service and no bytes, or a part of the object.
abbrev pub IsAnswerOf : ℕ → Str → Str × Option Error → Type 0
IsAnswerOf n whole r = ((r.0 ≡ []) × (e : S3Error) × (r.1 ≡ some (s3_error e))) ⊎ IsPartOf n whole r

module _ (S : Service) (at : View S) (C : IsConfined S at) (F : IsFaithful S at) (o : Object) where
  in_body :
      (cut : Option (ℕ × S3Error)) (n offset : ℕ) (d : Download) (w : S.World)
      (r : Reply Str × S.World)
      → at w d.fs.bucket d.key ≡ some o
      → S.get_object d.fs.bucket d.key (if ltb 0 offset then some offset else none) w ≡ r
      → IsAnswerOf n (drop offset o.body) (read_at_body S cut n (from_reply r.0, r.1)).0
  in_body cut n offset d w (err e, v) a h = inl (refl, e, refl)
  in_body cut n offset d w (ok body, v) a h =
      let (o', there, same) = F.get_found _ _ _ w (ap (λ p. p.0) h) in
      let whole : body ≡ drop offset o.body =
        same
        ∙ from_start_lem offset o'.body
        ∙ ap (λ (x : Object). drop offset x.body) (Follow.some-eq S at C F o (sym there ∙ a)) in
      inr (subst (λ x. IsPartOf n x (read_full cut n body)) whole (read_full-IsPartOf cut n body))

  -- ReadAt of a handle that is open, at an offset inside the object, gives the bytes of the object from
  -- the offset on, whatever the position of the handle: as many as were asked for, or fewer together
  -- with an error; or the service refuses, and its error comes without bytes.
  pub read_at_lem :
      (cut : Option (ℕ × S3Error)) (n offset : ℕ) (d : Download) (w : S.World)
      → d.is_closed ≡ false
      → Follows S at C F o d w
      → offset < length o.body
      → IsAnswerOf n (drop offset o.body) (read_at S cut n (pos offset) d w).0
  unfolding read_at get_object_from call
  read_at_lem cut n offset d w opened f inside =
      let inner : ltb_ℤ (pos offset) (pos d.size) ≡ true = rw f.sized (ground arith) in
      let above : ltb_ℤ (pos offset) (pos 0) ≡ false = ground arith in
      rw (opened, above, inner) (in_body cut n offset d w _ f.object refl)
