-- ===== src/Upload/Kept.antt =====
-- The part of the old object that openUpload of internal/s3fs/upload.go keeps.
use s32ftp.Prelude.{
  ℕ, min, ◌≡◌, refl, sym, ap, ◌∙◌, ◌⊎◌, inl, inr, Bool, true, false, [], Option, none, some, arith,
  if◌then◌else◌, length, take, take_past, Bool-cases, ltb,
}
use s32ftp.Prelude.Int.{ℤ, pos, ltb_ℤ, pos_part}
use s32ftp.Text.{Str}
use s32ftp.Errors.{ok}
use s32ftp.Action.{Act, ret, throw, ◌>>=◌}
use s32ftp.Action.Rules.{ok_pair, >>=-eq-ok}
use s32ftp.Service.{Service}
use s32ftp.Service.Lawful.{Object, View, IsConfined}
use s32ftp.Service.Faithful.{IsFaithful}
use s32ftp.Fs.{Fs, key, head_size}
use s32ftp.Fs.Heads.{size_at, head_size_lem}
use s32ftp.Upload.{Flags, UploadFile}
use s32ftp.Upload.Run.{kept, kept_of, or_zero, new_upload, open_upload}
use s32ftp.Upload.Stored.{lead_of, lead_of_zero}

-- The part of the old object that an upload keeps in front of what is sent: all of it for APPE, as
-- much as the offset says after REST, and nothing otherwise.
abbrev pub part_by : Bool → Bool → Bool → ℕ → Option Object → Str
part_by trunc append resume n none = []
part_by trunc append resume n (some o) =
    if trunc then [] else if append then o.body else if resume then take n o.body else []

abbrev pub kept_part : Flags → ℤ → Option Object → Str
kept_part flags offset o =
    part_by flags.trunc flags.append (ltb_ℤ (pos 0) offset) (pos_part offset) o

take-min : (n : ℕ) (xs : Str) → take (min n (length xs)) xs ≡ take n xs
take-min n xs = elim (Bool-cases (ltb n (length xs))) [
  | inl e ↦ ap (λ m. take m xs) (ground arith)
  | inr e ↦ take_past _ xs (ground arith) ∙ sym (take_past n xs (ground arith))
]

append-all :
    (resume : Bool) (n : ℕ) (o : Option Object)
    → lead_of (or_zero (size_at o)) o ≡ part_by false true resume n o
append-all resume n none = refl
append-all resume n (some o) = take_past (length o.body) o.body (omega arith)

no_part :
    (trunc append resume : Bool) (n : ℕ) (o : Option Object)
    → (trunc ≡ true) ⊎ ((append ≡ false) × (resume ≡ false))
    → part_by trunc append resume n o ≡ []
no_part trunc append resume n none h = refl
no_part trunc append resume n (some o) h = ground arith

module _ (S : Service) (at : View S) (C : IsConfined S at) (F : IsFaithful S at) where
  abbrev pub Same : S.World → S.World → Type 0
  Same v w = (b k : Str) → at v b k ≡ at w b k

  -- The branches of openUpload that find the length of what is kept.
  abbrev kept_by : Fs → Str → ℤ → Bool → Bool → Bool → Act S.World ℕ
  kept_by f clean offset trunc append resume =
      if trunc
      then ret 0
      else if append
      then (head_size S f (key f clean) >>= λ size. ret (or_zero size))
      else if resume
      then head_size S f (key f clean) >>= kept_of S clean offset
      else ret 0

  nothing_kept :
      (w v : S.World) (n : ℕ) (o : Option Object)
      → ret {W = S.World} 0 w ≡ (ok n, v)
      → (lead_of n o ≡ []) × Same v w
  unfolding ret
  nothing_kept w v n o h =
      let (zero_kept, moved) = ok_pair h in
      (
        ap (λ m. lead_of m o) (sym zero_kept) ∙ lead_of_zero o,
        λ b k. ap (λ x. at x b k) (sym moved),
      )

  kept_of_lem :
      (f : Fs) (clean : Str) (offset : ℤ) (u v : S.World) (size : Option ℕ) (n : ℕ)
      (o : Option Object)
      → size ≡ size_at o
      → kept_of S clean offset size u ≡ (ok n, v)
      → (lead_of n o ≡ part_by false false true (pos_part offset) o) × (u ≡ v)
  unfolding ret throw
  kept_of_lem f clean offset u v none n o e h = absurd (cc)
  kept_of_lem f clean offset u v (some m) n none e h = absurd (cc)
  kept_of_lem f clean offset u v (some m) n (some o) e h =
      let (kept_is, moved) = ok_pair h in
      let size_is : m ≡ length o.body = cc in
      (
        ap (λ x. take x o.body) (sym kept_is ∙ ap (min (pos_part offset)) size_is)
            ∙ take-min (pos_part offset) o.body,
        moved,
      )

  kept_by_lem :
      (f : Fs) (clean : Str) (offset : ℤ) (w v : S.World) (n : ℕ) (trunc append resume : Bool)
      → kept_by f clean offset trunc append resume w ≡ (ok n, v)
      → (lead_of n (at w f.bucket (key f clean))
          ≡ part_by trunc append resume (pos_part offset) (at w f.bucket (key f clean)))
        × Same v w
  unfolding ret
  kept_by_lem f clean offset w v n true append resume h =
      let (lead, same) = nothing_kept w v n _ h in
      (lead ∙ sym (no_part true append resume (pos_part offset) _ (inl refl)), same)
  kept_by_lem f clean offset w v n false true resume h =
      let (size, u, read, rest) = >>=-eq-ok (head_size S f (key f clean)) _ w h in
      let (size_is, same) = head_size_lem S at C F f (key f clean) w u size read in
      let (kept_is, moved) = ok_pair rest in
      (
        ap (λ m. lead_of m (at w f.bucket (key f clean))) (sym kept_is ∙ ap or_zero size_is)
            ∙ append-all resume (pos_part offset) _,
        λ b k. ap (λ x. at x b k) (sym moved) ∙ same b k,
      )
  kept_by_lem f clean offset w v n false false true h =
      let (size, u, read, rest) = >>=-eq-ok (head_size S f (key f clean)) _ w h in
      let (size_is, same) = head_size_lem S at C F f (key f clean) w u size read in
      let (lead, moved) = kept_of_lem f clean offset u v size n _ size_is rest in
      (lead, λ b k. ap (λ x. at x b k) (sym moved) ∙ same b k)
  kept_by_lem f clean offset w v n false false false h =
      let (lead, same) = nothing_kept w v n _ h in
      (lead ∙ sym (no_part false false false (pos_part offset) _ (inr (refl, refl))), same)

  -- The handle that openUpload returns.
  pub open_upload_lem :
      (mime : Str → Str) (f : Fs) (clean : Str) (flags : Flags) (offset : ℤ) (w v : S.World)
      (u : UploadFile)
      → open_upload S mime f clean flags offset w ≡ (ok u, v)
      → (u ≡ new_upload mime f clean u.prefix_len)
        × (lead_of u.prefix_len (at w f.bucket (key f clean))
            ≡ kept_part flags offset (at w f.bucket (key f clean)))
        × Same v w
  unfolding open_upload kept ret
  open_upload_lem mime f clean flags offset w v u h =
      let (n, x, read, rest) = >>=-eq-ok (kept S f clean flags offset) _ w h in
      let (made, moved) = ok_pair rest in
      let (lead, same) =
        kept_by_lem f clean offset w x n flags.trunc flags.append (ltb_ℤ (pos 0) offset) read in
      let long : n ≡ u.prefix_len = ap (λ (y : UploadFile). y.prefix_len) made in
      (
        sym made ∙ ap (new_upload mime f clean) long,
        ap (λ m. lead_of m (at w f.bucket (key f clean))) (sym long) ∙ lead,
        λ b k. ap (λ y. at y b k) (sym moved) ∙ same b k,
      )
