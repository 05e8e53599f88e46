-- ===== src/Fs/Heads.antt =====
-- What headSize of internal/s3fs/fs.go tells of the object at a key.
use s32ftp.Prelude.{
  ◌≡◌, refl, sym, ap, ◌∙◌, ℕ, Bool, true, false, Option, none, some, length, if◌then◌else◌,
}
use s32ftp.Action.Rules.{ok_pair}
use s32ftp.Text.{Str}
use s32ftp.Errors.{ok, err, s3_error, is_not_found}
use s32ftp.Action.{ret, throw, ◌>>=◌, attempt}
use s32ftp.Info.{size_of}
use s32ftp.Service.{Service, Head, Reply}
use s32ftp.Service.Lawful.{Object, View, IsConfined}
use s32ftp.Service.Faithful.{IsFaithful}
use s32ftp.Fs.{Fs, head_of, found_head, head_size, size_of_head}

-- The number of bytes of an object that may be there.
abbrev pub size_at : Option Object → Option ℕ
size_at none = none
size_at (some o) = some (length o.body)

module _ (S : Service) (at : View S) (C : IsConfined S at) (F : IsFaithful S at) where
  -- A headSize that succeeds has told the size of the object at the key, and changed nothing.
  pub head_size_lem :
      (f : Fs) (k : Str) (w v : S.World) (r : Option ℕ)
      → head_size S f k w ≡ (ok r, v)
      → (r ≡ size_at (at w f.bucket k)) × ((b' k' : Str) → at v b' k' ≡ at w b' k')
  unfolding head_size head_of ◌>>=◌ attempt ret throw size_of
  head_size_lem f k w v r h = told (S.head_object f.bucket k w) refl h
    where
      told :
          (x : Reply Head × S.World)
          → S.head_object f.bucket k w ≡ x
          → ((attempt (λ _. x) >>= found_head S) >>= λ found. ret (size_of_head S found)) w
            ≡ (ok r, v)
          → (r ≡ size_at (at w f.bucket k)) × ((b' k' : Str) → at v b' k' ≡ at w b' k')
      told (ok head, u) e g =
          let (o, there, long) = F.head_found _ _ w (ap (λ p. p.0) e) in
          let (size, moved) = ok_pair g in
          (
            sym size ∙ ap (λ n. some (size_of n)) long ∙ ap size_at (sym there),
            λ b' k'.
                ap (λ x. at x b' k') (sym moved)
                ∙ ap (λ p. at p.1 b' k') (sym e)
                ∙ C.head_frame _ _ w b' k',
          )
      told (err x, u) e g = gone (is_not_found x) refl g
        where
          gone :
              (c : Bool)
              → is_not_found x ≡ c
              → ((if c then ret none else throw (s3_error x)) >>= λ found.
                    ret (size_of_head S found))
                  u
                ≡ (ok r, v)
              → (r ≡ size_at (at w f.bucket k)) × ((b' k' : Str) → at v b' k' ≡ at w b' k')
          gone true m q =
              let (size, moved) = ok_pair q in
              (
                sym size ∙ ap size_at (sym (F.head_missing _ _ w (ap (λ p. p.0) e) m)),
                λ b' k'.
                    ap (λ x. at x b' k') (sym moved)
                    ∙ ap (λ p. at p.1 b' k') (sym e)
                    ∙ C.head_frame _ _ w b' k',
              )
          gone false m q = absurd (cc)
