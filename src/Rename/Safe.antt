-- ===== src/Rename/Safe.antt =====
-- Rename of internal/s3fs/dir.go, whatever its result.
use mathlib.Core.Path.{subst}
use s32ftp.Prelude.{
  ℕ, ◌≡◌, refl, sym, ap, ◌∙◌, inl, Bool, true, false, ◌||◌, ◌++◌, Option, none, some, if◌then◌else◌,
}
use s32ftp.Text.{Str, str_eq}
use s32ftp.Keys.Source.{IsText}
use s32ftp.Errors.{Error, Result, ok, eacces, errno, path_error}
use s32ftp.Action.{ret, throw, ◌>>=◌}
use s32ftp.Action.Rules.{>>=-world}
use s32ftp.Service.{Service}
use s32ftp.Service.Lawful.{Object, View, IsConfined}
use s32ftp.Service.Thorough.{IsThorough}
use s32ftp.Fs.{Fs, key, key_dir}
use s32ftp.Dir.AllKeys.{Same}
use s32ftp.Rename.Moved.{HasTextKeys}
use s32ftp.Info.{FileInfo}
use s32ftp.Service.Faithful.{IsFaithful}
use s32ftp.Fs.Stats.{Tells, stat-Tells, stat_same}
use s32ftp.Fs.{stat}
use s32ftp.Rename.{rename_found, rename}
use s32ftp.Keys.{clean_ftp_path, root_path}
use s32ftp.Dir.{read_only_err}
use s32ftp.Rename.Kept.{IsKept, file-IsKept, dir-IsKept}
use s32ftp.Rename.Outcome.{keys_differ}
use s32ftp.Rename.Copied.{str_eq_sym}

module _ (S : Service) (at : View S) (f : Fs) where
  -- What is not lost, by what is at the key of the old path.
  abbrev pub AllKept : Str → Str → S.World → S.World → Option Object → Type 0
  AllKept old new w v (some o) = IsKept S at f (key f old) (key f new) o v
  AllKept old new w v none =
      (s : Str) (o : Object)
      → at w f.bucket (key_dir f old ++ s) ≡ some o
      → IsKept S at f (key_dir f old ++ s) (key_dir f new ++ s) o v

module _ (S : Service) (at : View S) (C : IsConfined S at) (f : Fs) where
  Same-AllKept :
      (old new : Str) (w v : S.World) (x : Option Object)
      → at w f.bucket (key f old) ≡ x
      → Same S at v w
      → AllKept S at f old new w v x
  Same-AllKept old new w v none e same = λ s o there. inl (same f.bucket _ ∙ there)
  Same-AllKept old new w v (some o) e same = inl (same f.bucket _ ∙ e)

  module _ (T : IsThorough S at) (F : IsFaithful S at) (bytes : IsText f.bucket) (fuel : ℕ) where
    found-AllKept :
        (old new : Str) (w u : S.World) (info : FileInfo) (x : Option Object)
        → str_eq (key f new) (key f old) ≡ false
        → str_eq (key f old) (key f new) ≡ false
        → HasTextKeys S at f w
        → Same S at u w
        → at w f.bucket (key f old) ≡ x
        → Tells x (ok info)
        → AllKept S at f old new w (rename_found S fuel f old new info u).1 x
    found-AllKept old new w u info none ne ne' text same e t = λ s o there.
        rw (is_dir info.is_dir refl) (
          dir-IsKept S at C f T bytes fuel old new s o u
            (λ k y h. text k y (sym (same f.bucket k) ∙ h)) (same f.bucket _ ∙ there))
      where
        is_dir : (d : Bool) → info.is_dir ≡ d → info.is_dir ≡ true
        is_dir true h = h
        is_dir false h = absurd (no_object (t.1 h).1)
          where
            no_object : {y : Object} → none ≡ some y → ⊥
            no_object h = cc h
    found-AllKept old new w u info (some o) ne ne' text same e t = rw (is_file info.is_dir refl) (
        file-IsKept S at C f T bytes old new o u ne ne' (text (key f old) o e)
          (same f.bucket _ ∙ e))
      where
        is_file : (d : Bool) → info.is_dir ≡ d → info.is_dir ≡ false
        is_file false h = h
        is_file true h = absurd (no_object (t.0 h))
          where
            no_object : some o ≡ none → ⊥
            no_object h = cc h

    -- Whatever the result of a Rename, which may have failed part of the way: if there was an object
    -- at the key of the old path, it is still there or the new key has its body; otherwise each
    -- object below the directory key of the old path is still there, or its body is at the same
    -- place below that of the new path. The two paths cleaned are ones that cleaning leaves alone,
    -- and names are strings of bytes.
    pub rename_keeps :
        (oldname newname : Str) (w : S.World)
        → clean_ftp_path (clean_ftp_path oldname) ≡ clean_ftp_path oldname
        → clean_ftp_path (clean_ftp_path newname) ≡ clean_ftp_path newname
        → HasTextKeys S at f w
        → AllKept S at f
            (clean_ftp_path oldname)
            (clean_ftp_path newname)
            w
            (rename S fuel f oldname newname w).1
            (at w f.bucket (key f (clean_ftp_path oldname)))
    unfolding rename throw ret
    rename_keeps oldname newname w p q text =
        pick f.read_only (str_eq old new) (str_eq old root_path) (str_eq new root_path) refl refl
      where
        old : Str
        old = clean_ftp_path oldname

        new : Str
        new = clean_ftp_path newname

        nothing_done :
            (v : S.World) → Same S at v w → AllKept S at f old new w v (at w f.bucket (key f old))
        nothing_done v same = Same-AllKept old new w v _ refl same

        pick :
            (r same old_root new_root : Bool)
            → str_eq old new ≡ same
            → str_eq old root_path ≡ old_root
            → AllKept S at f old new w
                ((if r
                    then throw (read_only_err "rename" oldname)
                    else if same
                    then ret tt
                    else if old_root || new_root
                    then throw (path_error "rename" old (errno eacces))
                    else (stat S f old >>= rename_found S fuel f old new))
                  w).1
                (at w f.bucket (key f old))
        pick true same old_root new_root e e' = nothing_done w (λ b k. refl)
        pick false true old_root new_root e e' = nothing_done w (λ b k. refl)
        pick false false true new_root e e' = nothing_done w (λ b k. refl)
        pick false false false true e e' = nothing_done w (λ b k. refl)
        pick false false false false e e' =
            >>=-world (λ v. AllKept S at f old new w v (at w f.bucket (key f old))) (stat S f old)
              (rename_found S fuel f old new) w (λ x u h. nothing_done u (seen u _ h))
              (λ info u h.
                found-AllKept old new w u info _ (keys_differ f old new p q e)
                  (str_eq_sym (key f old) (key f new) ∙ keys_differ f old new p q e) text
                  (seen u _ h) refl
                  (subst (Tells (at w f.bucket (key f old))) (ap (λ r. r.0) h)
                    (stat-Tells S at C F f old w p e')))
          where
            seen :
                (u : S.World) (r : Result Error FileInfo) → stat S f old w ≡ (r, u) → Same S at u w
            seen u r h b k = ap (λ x. at x.1 b k) (sym h) ∙ stat_same S at C F f old w b k
