-- ===== src/Dir/Clearing.antt =====
-- What RemoveAll of internal/s3fs/dir.go has done when it reports no error.
use s32ftp.Prelude.{◌≡◌, sym, ◌∙◌, inl, inr, true, false, List, Option, none, some, Bool-cases}
use s32ftp.Text.{Str, has_prefix, member}
use s32ftp.Service.{Service}
use s32ftp.Service.Lawful.{Object, View, IsConfined}
use s32ftp.Service.Thorough.{IsThorough}
use s32ftp.Fs.{Fs, key, key_dir}
use s32ftp.Dir.AllKeys.{absent_key, AreKeysBelow}
use s32ftp.Dir.Cleared.{IsGone, IsCleared, IsDeleted}

module _ (S : Service) (at : View S) (f : Fs) where
  -- Nothing is left below the prefix but what was refused, and the rest of the bucket is as it was.
  pub record IsEmptied (prefix : Str) (w v : S.World) : Type 0 where
    pub below : (k : Str) → has_prefix prefix k ≡ true → IsGone S at f.bucket k v
    pub beside : (k : Str) → has_prefix prefix k ≡ false → at v f.bucket k ≡ at w f.bucket k

  -- What RemoveAll does to the bucket, by what is at the key of the path.
  abbrev pub IsRemoved : Str → S.World → S.World → Option Object → Type 0
  IsRemoved clean w v none = IsEmptied (key_dir f clean) w v
  IsRemoved clean w v (some o) = IsDeleted S at f.bucket (key f clean) w v

module _ (S : Service) (at : View S) (C : IsConfined S at) (T : IsThorough S at) (f : Fs) where
  -- All keys that a listing found below the prefix have been deleted, and no others.
  pub emptied :
      (prefix : Str) (keys deleted : List Str) (w u v : S.World)
      → AreKeysBelow S at f prefix w keys u
      → ((k : Str) → member k keys ≡ true → member k deleted ≡ true)
      → ((k : Str) → member k deleted ≡ true → has_prefix prefix k ≡ true)
      → IsCleared S at f.bucket deleted u v
      → IsEmptied S at f prefix w v
  emptied prefix keys deleted w u v all covers inside cleared = record {
    below = λ k p. elim (Bool-cases (member k deleted)) [
      | inl e ↦ cleared.gone k e
      | inr e ↦ inl (
          cleared.kept k e
          ∙ all.unchanged f.bucket k
          ∙ absent_key S at f all k p (λ m. cc (sym e ∙ covers k m)))
    ];
    beside = λ k p. elim (Bool-cases (member k deleted)) [
      | inl e ↦ absurd (cc (sym p ∙ inside k e))
      | inr e ↦ cleared.kept k e ∙ all.unchanged f.bucket k
    ];
  }
