-- ===== src/Rename/Kept.antt =====
-- The two branches of Rename of internal/s3fs/dir.go, which may fail part of the way.
use s32ftp.Prelude.{
  ℕ, ◌≡◌, refl, sym, ap, ◌∙◌, ◌⊎◌, inl, inr, Bool, true, false, not, List, [], ◌∷◌, ◌++◌, Option,
  none, some, if◌then◌else◌, Bool-cases,
}
use s32ftp.Text.{Str, str_eq, is_nil, has_prefix, member}
use s32ftp.Text.Laws.{has_prefix-append, trim_prefix-append}
use s32ftp.Isolation.Reads
use s32ftp.Keys.Source.{IsText}
use s32ftp.Errors.{Error, Result, eacces, enotempty, einval, errno, path_error}
use s32ftp.Action.{throw, ◌>>=◌, ◌>>◌, guard}
use s32ftp.Action.Rules
use s32ftp.Action.Rules.{Any, Keeps, any_rules, guard_world, >>-world, >>=-world}
use s32ftp.Service.{Service}
use s32ftp.Service.Lawful.{Object, View, IsConfined}
use s32ftp.Service.Thorough.{IsThorough}
use s32ftp.Fs.{Fs, key, key_dir, prefix_has_objects}
use s32ftp.Fs.Free.{prefix_free}
use s32ftp.Dir.{copy_key, remove_key, list_all_keys, delete_keys}
use s32ftp.Dir.AllKeys.{AreKeysBelow, list_all_keys-AreKeysBelow}
use s32ftp.Rename.{target, copy_all, rename_file, rename_tree}
use s32ftp.Rename.Copied.{body_of, copy_key-IsCopy, AreCopied, above_ne, copy_all-AreCopied}
use s32ftp.Rename.Moved.{HasTextKeys, movable}
use s32ftp.Rename.{rename_dir}
use s32ftp.Rename.Frames.{
  Stays, delete_keys-Keeps, remove_key-Keeps, copy_key-Keeps, list_pages-Keeps, Stays-after,
}

module _ (S : Service) (at : View S) (f : Fs) where
  -- The object at a key is still there, or its body is at the new key.
  abbrev pub IsKept : Str → Str → Object → S.World → Type 0
  IsKept old new o v = (at v f.bucket old ≡ some o) ⊎ (body_of (at v f.bucket new) ≡ some o.body)

module _ (S : Service) (at : View S) (C : IsConfined S at) (f : Fs) where
  module _ (T : IsThorough S at) (bytes : IsText f.bucket) where
    looked :
        (prefix k : Str) (o : Object)
        → Keeps (Stays S at C f k (some o)) Any (prefix_has_objects S f prefix)
    looked prefix k o =
        Reads.prefix_has_objects-Keeps S (Stays S at C f k (some o))
          (λ b j u i. C.head_frame b j u f.bucket k ∙ i)
          (λ b r u i. C.list_frame b r u f.bucket k ∙ i) f prefix

    copied-IsKept :
        (old new : Str) (o : Object) (u : S.World)
        → str_eq new old ≡ false
        → str_eq old new ≡ false
        → IsText old
        → at u f.bucket old ≡ some o
        → IsKept S at f old new o ((copy_key S f old new >> remove_key S f old) u).1
    copied-IsKept old new o u ne ne' text there =
        >>-world (IsKept S at f old new o) (copy_key S f old new) (remove_key S f old) u
          (λ e x h. inl (
            Stays-after S at C f old (some o) (copy_key S f old new) u x _
              (copy_key-Keeps S at C f old (some o) old new ne) there h))
          (λ x h.
            let copy = copy_key-IsCopy S at C T f old new u x bytes text h in
            inr (
              ap body_of
                ((remove_key-Keeps S at C f new (at x f.bucket new) old ne').holds x refl).0
              ∙ copy.same_body
              ∙ ap body_of there))

    pub file-IsKept :
        (old_clean new_clean : Str) (o : Object) (w : S.World)
        → str_eq (key f new_clean) (key f old_clean) ≡ false
        → str_eq (key f old_clean) (key f new_clean) ≡ false
        → IsText (key f old_clean)
        → at w f.bucket (key f old_clean) ≡ some o
        → IsKept S at f
            (key f old_clean)
            (key f new_clean)
            o
            (rename_file S f old_clean new_clean w).1
    unfolding rename_file
    file-IsKept old_clean new_clean o w ne ne' text there =
        >>=-world (IsKept S at f (key f old_clean) (key f new_clean) o)
          (prefix_has_objects S f (key_dir f new_clean)) _ w (λ e u h. inl (stays u _ h))
          (λ exists u h.
            guard_world (IsKept S at f (key f old_clean) (key f new_clean) o) (not exists) _ _ u
              (inl (stays u _ h)) (λ free. copied-IsKept _ _ o u ne ne' text (stays u _ h)))
      where
        stays :
            (u : S.World) (r : Result Error Bool)
            → prefix_has_objects S f (key_dir f new_clean) w ≡ (r, u)
            → at u f.bucket (key f old_clean) ≡ some o
        stays u r h =
            Stays-after S at C f (key f old_clean) (some o)
              (prefix_has_objects S f (key_dir f new_clean)) w u r
              (looked (key_dir f new_clean) (key f old_clean) o) there h

    copy_all-Keeps :
        (old new k : Str) (x : Option Object) (keys : List Str)
        → has_prefix new k ≡ false
        → Keeps (Stays S at C f k x) Any (copy_all S f old new keys)
    unfolding copy_all
    copy_all-Keeps old new k x [] h = search any_rules
    copy_all-Keeps old new k x (j ∷ keys) h =
        Rules.bind-Any (Stays S at C f k x)
          (copy_key-Keeps S at C f k x j (target old new j) (above_ne S at C T f old new j k h))
          (λ _. copy_all-Keeps old new k x keys h)

    -- The directory branch behind its checks.
    module _ (fuel : ℕ) (old new s : Str) (w : S.World) (o : Object)
        (apart : has_prefix old new ≡ false)
        (free : (k : Str) → has_prefix new k ≡ true → at w f.bucket k ≡ none)
        (text : HasTextKeys S at f w) (there : at w f.bucket (old ++ s) ≡ some o) where
      not_new : has_prefix new (old ++ s) ≡ false
      not_new = elim (Bool-cases (has_prefix new (old ++ s))) [
        | inl e ↦ absurd (some_ne (sym there ∙ free (old ++ s) e))
        | inr e ↦ e
      ]
        where
          some_ne : some o ≡ none → ⊥
          some_ne e = cc e

      deleted-IsKept :
          (keys : List Str) (u x : S.World)
          → AreKeysBelow S at f old w keys u
          → AreCopied S at C T f old new keys u x
          → IsKept S at f (old ++ s) (new ++ s) o (delete_keys S f keys x).1
      deleted-IsKept keys u x all copies = elim (Bool-cases (member (old ++ s) keys)) [
        | inl e ↦ inr (
            ap body_of
              ((delete_keys-Keeps S at C f (new ++ s) (at x f.bucket (new ++ s)) keys not_key).holds
                x refl).0
            ∙ ap (λ k. body_of (at x f.bucket k)) (sym here)
            ∙ copies.copied (old ++ s) e
            ∙ ap body_of (all.unchanged f.bucket (old ++ s) ∙ there))
        | inr e ↦ inl (
            ((delete_keys-Keeps S at C f (old ++ s) (some o) keys e).holds x
              (copies.same (old ++ s) not_new ∙ all.unchanged f.bucket (old ++ s) ∙ there)).0)
      ]
        where
          here : target old new (old ++ s) ≡ new ++ s
          here = unfold target in ap (λ r. new ++ r) (trim_prefix-append old s)

          not_key : member (new ++ s) keys ≡ false
          not_key = elim (Bool-cases (member (new ++ s) keys)) [
            | inl m ↦ absurd (
                cc (
                  sym
                    (movable S at C T f old new w u x x keys apart free text all (new ++ s)
                      m).not_below_new
                  ∙ has_prefix-append new s))
            | inr m ↦ m
          ]

      tree-IsKept : IsKept S at f (old ++ s) (new ++ s) o (rename_tree S fuel f old new w).1
      unfolding rename_tree list_all_keys
      tree-IsKept =
          >>=-world (IsKept S at f (old ++ s) (new ++ s) o) (list_all_keys S fuel f old) _ w
            (λ e u h. inl (
              Stays-after S at C f (old ++ s) (some o) (list_all_keys S fuel f old) w u _
                (list_pages-Keeps S at C f (old ++ s) (some o) fuel old none []) there h))
            (λ keys u h.
              let all = list_all_keys-AreKeysBelow S at C T f fuel old keys w u h in
              >>-world (IsKept S at f (old ++ s) (new ++ s) o) (copy_all S f old new keys)
                (delete_keys S f keys) u
                (λ e x g. inl (
                  Stays-after S at C f (old ++ s) (some o) (copy_all S f old new keys) u x _
                    (copy_all-Keeps old new (old ++ s) (some o) keys not_new)
                    (all.unchanged f.bucket (old ++ s) ∙ there) g))
                (λ x g. deleted-IsKept keys u x all (
                  copy_all-AreCopied S at C T f old new keys u x bytes
                    (movable S at C T f old new w u x x keys apart free text all) g)))

    pub dir-IsKept :
        (fuel : ℕ) (old_clean new_clean s : Str) (o : Object) (w : S.World)
        → HasTextKeys S at f w
        → at w f.bucket (key_dir f old_clean ++ s) ≡ some o
        → IsKept S at f
            (key_dir f old_clean ++ s)
            (key_dir f new_clean ++ s)
            o
            (rename_dir S fuel f old_clean new_clean w).1
    unfolding rename_dir throw
    dir-IsKept fuel old_clean new_clean s o w text there =
        pick (is_nil old) (has_prefix old new) refl
      where
        old : Str
        old = key_dir f old_clean

        new : Str
        new = key_dir f new_clean

        stays :
            (u : S.World) (r : Result Error Bool)
            → prefix_has_objects S f new w ≡ (r, u)
            → at u f.bucket (old ++ s) ≡ some o
        stays u r h =
            Stays-after S at C f (old ++ s) (some o) (prefix_has_objects S f new) w u r
              (looked new (old ++ s) o) there h

        pick :
            (empty inside : Bool)
            → has_prefix old new ≡ inside
            → IsKept S at f
                (old ++ s)
                (new ++ s)
                o
                ((if empty
                    then throw (path_error "rename" old_clean (errno eacces))
                    else if inside
                    then throw (path_error "rename" new_clean (errno einval))
                    else (do
                      exists ← prefix_has_objects S f new
                      guard (not exists) (path_error "rename" new_clean (errno enotempty))
                      rename_tree S fuel f old new))
                  w).1
        pick true inside e = inl there
        pick false true e = inl there
        pick false false e =
            >>=-world (IsKept S at f (old ++ s) (new ++ s) o) (prefix_has_objects S f new) _ w
              (λ x u h. inl (stays u _ h))
              (λ exists u h.
                guard_world (IsKept S at f (old ++ s) (new ++ s) o) (not exists) _ _ u
                  (inl (stays u _ h))
                  (λ none_there.
                    let (same, free) = prefix_free S at C T f new w u exists h none_there in
                    tree-IsKept fuel old new s u o e (λ k p. same f.bucket k ∙ free k p)
                      (λ k x there'. text k x (sym (same f.bucket k) ∙ there'))
                      (same f.bucket (old ++ s) ∙ there)))
