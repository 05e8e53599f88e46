-- ===== src/Rename/Moved.antt =====
-- What the copies and deletions of Rename of internal/s3fs/dir.go come to, for a file and for a directory.
use s32ftp.Prelude.{
  ◌≡◌, ◌≢◌, refl, sym, ap, ◌∙◌, inl, inr, Bool, true, false, List, [], ◌∷◌, ◌++◌, Option, none,
  some, arith, Bool-cases,
}
use s32ftp.Text.{Str, str_eq, has_prefix, trim_prefix, member}
use s32ftp.Text.Laws.{has_prefix-append, has_prefix-eq, has_prefix_trans, trim_prefix-append}
use s32ftp.Keys.Source.{IsText}
use s32ftp.Service.{Service}
use s32ftp.Service.Lawful.{Object, View, IsConfined}
use s32ftp.Service.Thorough.{IsThorough}
use s32ftp.Fs.{Fs, key, key_dir}
use s32ftp.Dir.AllKeys.{Same, AreKeysBelow, absent_key}
use s32ftp.Dir.Cleared.{IsGone, IsCleared, IsDeleted}
use s32ftp.Rename.{target}
use s32ftp.Rename.Copied.{body_of, IsCopy, IsMovable, AreCopied}

not_true : (b : Bool) → b ≢ true → b ≡ false
not_true true h = absurd (h refl)
not_true false h = refl

-- Of two prefixes of a string, one is a prefix of the other.
has_prefix_between :
    (p q s : Str) → has_prefix p (q ++ s) ≡ true → has_prefix q p ≡ false → has_prefix p q ≡ true
unfolding has_prefix
has_prefix_between [] q s h k = refl
has_prefix_between (x ∷ p) [] s h k = absurd (cc)
has_prefix_between (x ∷ p) (y ∷ q) s h k = ground (arith, has_prefix_between p q s)

module _ (S : Service) (at : View S) (f : Fs) where
  -- An object has the new key, with the body that it had, and no longer the old one.
  pub record IsFileMoved (old new : Str) (w v : S.World) : Type 0 where
    pub moved : body_of (at v f.bucket new) ≡ body_of (at w f.bucket old)
    pub gone : at v f.bucket old ≡ none
    pub beside :
        (k : Str) → str_eq k old ≡ false → str_eq new k ≡ false → at v f.bucket k ≡ at w f.bucket k

  -- What was below the old prefix is below the new one, with the bodies that it had, and nothing else is;
  -- nothing is left below the old prefix but what was refused.
  pub record IsTreeMoved (old new : Str) (w v : S.World) : Type 0 where
    pub moved : (s : Str) → body_of (at v f.bucket (new ++ s)) ≡ body_of (at w f.bucket (old ++ s))
    pub gone : (s : Str) → IsGone S at f.bucket (old ++ s) v
    pub beside :
        (k : Str)
        → has_prefix old k ≡ false
        → has_prefix new k ≡ false
        → at v f.bucket k ≡ at w f.bucket k

  -- What Rename does, by what is at the key of the old path.
  abbrev pub IsMoved : Str → Str → S.World → S.World → Option Object → Type 0
  IsMoved old new w v none = IsTreeMoved (key_dir f old) (key_dir f new) w v
  IsMoved old new w v (some o) = IsFileMoved (key f old) (key f new) w v

  -- Every key at which there is an object is a string of bytes.
  abbrev pub HasTextKeys : S.World → Type 0
  HasTextKeys w = (k : Str) (o : Object) → at w f.bucket k ≡ some o → IsText k

module _ (S : Service) (at : View S) (C : IsConfined S at) (T : IsThorough S at) (f : Fs) where
  pub copied_then_removed :
      (old new : Str) (w u x v : S.World)
      → str_eq new old ≡ false
      → Same S at u w
      → IsCopy S at C T f old new u x
      → IsDeleted S at f.bucket old x v
      → IsFileMoved S at f old new w v
  copied_then_removed old new w u x v ne same copy cleared = record {
    moved = ap body_of (cleared.1 new ne) ∙ copy.same_body ∙ ap body_of (same f.bucket old);
    gone = cleared.0;
    beside = λ k p q. cleared.1 k p ∙ copy.frame k q ∙ same f.bucket k;
  }

  pub tree_from :
      (old new : Str) (w u v : S.World)
      → Same S at u w
      → IsTreeMoved S at f old new u v
      → IsTreeMoved S at f old new w v
  tree_from old new w u v same r = record {
    moved = λ s. r.moved s ∙ ap body_of (same f.bucket (old ++ s));
    gone = r.gone;
    beside = λ k p q. r.beside k p q ∙ same f.bucket k;
  }

  -- The keys below the old prefix, copied and then deleted.
  module _ (old new : Str) (w u x v : S.World) (keys : List Str)
      (apart : has_prefix old new ≡ false)
      (free : (k : Str) → has_prefix new k ≡ true → at w f.bucket k ≡ none)
      (text : HasTextKeys S at f w) (all : AreKeysBelow S at f old w keys u) where
    pub movable : (k : Str) → member k keys ≡ true → IsMovable S at C T f old new k
    movable k m =
        let (below, o, there) = all.sound k m in
        record {
          below_old = below;
          not_below_new = elim (Bool-cases (has_prefix new k)) [
            | inl e ↦ absurd (some_ne (sym there ∙ free k e))
            | inr e ↦ e
          ];
          is_text = text k o there;
        }
      where
        some_ne : {o : Object} → some o ≡ none → ⊥
        some_ne e = cc e

    -- If there is a key to move, the new prefix does not begin the old one.
    unlisted : (k s : Str) → has_prefix new (old ++ s) ≡ true → member k keys ≢ true
    unlisted k s p m =
        let r = movable k m in
        cc (
          sym r.not_below_new
          ∙ has_prefix_trans new old k (has_prefix_between new old s p apart) r.below_old)

    module _ (copies : AreCopied S at C T f old new keys u x)
        (cleared : IsCleared S at f.bucket keys x v) where
      here : (s : Str) → target old new (old ++ s) ≡ new ++ s
      unfolding target
      here s = ap (λ r. new ++ r) (trim_prefix-append old s)

      nothing_new : (s : Str) → member (old ++ s) keys ≡ false → at x f.bucket (new ++ s) ≡ none
      nothing_new s e =
          ap (at x f.bucket) (sym (here s))
          ∙ copies.rest (old ++ s) (has_prefix-append old s) e
          ∙ ap (at u f.bucket) (here s)
          ∙ all.unchanged f.bucket (new ++ s)
          ∙ free (new ++ s) (has_prefix-append new s)

      nothing_old : (s : Str) → member (old ++ s) keys ≡ false → at w f.bucket (old ++ s) ≡ none
      nothing_old s e =
          absent_key S at f all (old ++ s) (has_prefix-append old s) (λ m. cc (sym e ∙ m))

      not_deleted : (s : Str) → at v f.bucket (new ++ s) ≡ at x f.bucket (new ++ s)
      not_deleted s = elim (Bool-cases (member (new ++ s) keys)) [
        | inl m ↦ absurd (cc (sym (movable (new ++ s) m).not_below_new ∙ has_prefix-append new s))
        | inr m ↦ cleared.kept (new ++ s) m
      ]

      arrived : (s : Str) → body_of (at v f.bucket (new ++ s)) ≡ body_of (at w f.bucket (old ++ s))
      arrived s = elim (Bool-cases (member (old ++ s) keys)) [
        | inl e ↦
            ap body_of (not_deleted s ∙ ap (at x f.bucket) (sym (here s)))
            ∙ copies.copied (old ++ s) e
            ∙ ap body_of (all.unchanged f.bucket (old ++ s))
        | inr e ↦ ap body_of (not_deleted s ∙ nothing_new s e ∙ sym (nothing_old s e))
      ]

      not_copied : (s : Str) → has_prefix new (old ++ s) ≡ true → at x f.bucket (old ++ s) ≡ none
      not_copied s p =
          let t : Str = trim_prefix new (old ++ s) in
          ap (at x f.bucket) (has_prefix-eq new (old ++ s) p)
          ∙ nothing_new t (not_true _ (unlisted (old ++ t) s p))

      left_nothing : (s : Str) → IsGone S at f.bucket (old ++ s) v
      left_nothing s = elim (Bool-cases (member (old ++ s) keys)) [
        | inl m ↦ cleared.gone (old ++ s) m
        | inr m ↦ inl (
            cleared.kept (old ++ s) m ∙ elim (Bool-cases (has_prefix new (old ++ s))) [
              | inl p ↦ not_copied s p
              | inr p ↦
                  copies.same (old ++ s) p ∙ all.unchanged f.bucket (old ++ s) ∙ nothing_old s m
            ])
      ]

      pub tree_moved : IsTreeMoved S at f old new w v
      tree_moved = record {
        moved = arrived;
        gone = left_nothing;
        beside = λ k p q.
            cleared.kept k (elim (Bool-cases (member k keys)) [
              | inl m ↦ absurd (cc (sym p ∙ (movable k m).below_old))
              | inr m ↦ m
            ])
            ∙ copies.same k q
            ∙ all.unchanged f.bucket k;
      }
