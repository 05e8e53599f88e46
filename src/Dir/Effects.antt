-- ===== src/Dir/Effects.antt =====
-- What Remove and RemoveDir of internal/s3fs/dir.go have done when they report no error.
use mathlib.Core.Path.{subst}
use s32ftp.Prelude.{◌≡◌, refl, sym, ap, ◌∙◌, Bool, true, false, Option, none, some, if◌then◌else◌}
use s32ftp.Text.{Str, str_eq}
use s32ftp.Keys.{clean_ftp_path, root_path}
use s32ftp.Errors.{ok, path_error, errno, eacces}
use s32ftp.Action.{throw, ◌>>=◌, call}
use s32ftp.Action.Rules.{called, guard_then, >>=-eq-ok}
use s32ftp.Info.{FileInfo}
use s32ftp.Service.{Service}
use s32ftp.Service.Lawful.{Object, View, IsConfined, hits}
use s32ftp.Service.Faithful.{IsFaithful, IsObedient}
use s32ftp.Fs.{Fs, key, key_dir, stat, list_request}
use s32ftp.Fs.Stats.{Tells, stat-Tells, stat_same}
use s32ftp.Dir.{read_only_err, remove, remove_found, remove_dir, remove_dir_clean}
use s32ftp.Dir.AllKeys.{Same}

-- The object at the key is gone, and every other, of any bucket, is as it was.
abbrev pub IsOnlyGone : (S : Service) → View S → Fs → Str → S.World → S.World → Type 0
IsOnlyGone S at f k w v =
    (at v f.bucket k ≡ none) × ((b k' : Str) → hits f.bucket k b k' ≡ false → at v b k' ≡ at w b k')

-- What Remove deletes, by what is at the key of the path.
abbrev pub removed_key : Fs → Str → Option Object → Str
removed_key f clean none = key_dir f clean
removed_key f clean (some o) = key f clean

module _ (S : Service) (at : View S) (C : IsConfined S at) (O : IsObedient S at) (f : Fs) where
  gone_from :
      (k : Str) (w u v : S.World)
      → Same S at u w
      → IsOnlyGone S at f k u v
      → IsOnlyGone S at f k w v
  gone_from k w u v same (gone, others) = (gone, λ b k' other. others b k' other ∙ same b k')

  deleted-IsOnlyGone :
      (k : Str) (u v : S.World)
      → call (S.delete_object f.bucket k) u ≡ (ok tt, v)
      → IsOnlyGone S at f k u v
  deleted-IsOnlyGone k u v h =
      let (good, moved) = called (S.delete_object f.bucket k) u v tt h in
      (
        ap (λ x. at x f.bucket k) (sym moved) ∙ O.delete_ok f.bucket k u good,
        λ b k' other. ap (λ x. at x b k') (sym moved) ∙ C.delete_frame f.bucket k u b k' other,
      )

  module _ (F : IsFaithful S at) where
    remove_dir_clean-IsOnlyGone :
        (clean : Str) (w v : S.World)
        → remove_dir_clean S f clean w ≡ (ok tt, v)
        → IsOnlyGone S at f (key_dir f clean) w v
    unfolding remove_dir_clean
    remove_dir_clean-IsOnlyGone clean w v h =
        let request = list_request (key_dir f clean) (some 2) in
        let (info, u1, asked, g1) = >>=-eq-ok (stat S f clean) _ w h in
        let (_, g2) = guard_then _ _ _ u1 v tt g1 in
        let (page, u2, listed, g3) = >>=-eq-ok (call (S.list_objects f.bucket request)) _ u1 g2 in
        let (_, g4) = guard_then _ _ _ u2 v tt g3 in
        gone_from (key_dir f clean) w u2 v
          (λ b k.
            ap (λ x. at x b k) (sym (called _ u1 u2 page listed).1)
            ∙ C.list_frame f.bucket request u1 b k
            ∙ ap (λ r. at r.1 b k) (sym asked)
            ∙ stat_same S at C F f clean w b k)
          (deleted-IsOnlyGone (key_dir f clean) u2 v g4)

    -- When RemoveDir of a path reports success, the marker of the directory is gone, and every other
    -- object, of this and of the other buckets, is as it was.
    pub remove_dir_lem :
        (name : Str) (w v : S.World)
        → remove_dir S f name w ≡ (ok tt, v)
        → IsOnlyGone S at f (key_dir f (clean_ftp_path name)) w v
    unfolding remove_dir throw
    remove_dir_lem name w v h = pick f.read_only (str_eq (clean_ftp_path name) root_path) h
      where
        pick :
            (r root : Bool)
            → (if r
                  then throw (read_only_err "rmdir" name)
                  else if root
                  then throw (path_error "rmdir" (clean_ftp_path name) (errno eacces))
                  else remove_dir_clean S f (clean_ftp_path name))
                w
              ≡ (ok tt, v)
            → IsOnlyGone S at f (key_dir f (clean_ftp_path name)) w v
        pick true root g = absurd (cc)
        pick false true g = absurd (cc)
        pick false false g = remove_dir_clean-IsOnlyGone (clean_ftp_path name) w v g

    found-IsOnlyGone :
        (clean : Str) (x : Option Object) (u v : S.World) (info : FileInfo)
        → clean_ftp_path clean ≡ clean
        → Tells x (ok info)
        → remove_found S f clean info u ≡ (ok tt, v)
        → IsOnlyGone S at f (removed_key f clean x) u v
    found-IsOnlyGone clean x u v info idem t h = pick info.is_dir refl h
      where
        pick :
            (d : Bool)
            → info.is_dir ≡ d
            → (if d then remove_dir S f clean else call (S.delete_object f.bucket (key f clean))) u
              ≡ (ok tt, v)
            → IsOnlyGone S at f (removed_key f clean x) u v
        pick true e g =
            subst (λ y. IsOnlyGone S at f (removed_key f clean y) u v) (sym (t.0 e))
              (subst (λ c. IsOnlyGone S at f (key_dir f c) u v) idem (remove_dir_lem clean u v g))
        pick false e g =
            let (o, there) = t.1 e in
            subst (λ y. IsOnlyGone S at f (removed_key f clean y) u v) (sym there)
              (deleted-IsOnlyGone (key f clean) u v g)

    -- When Remove of a path reports success, then the object at the key of the path is gone if there
    -- was one, and otherwise the marker of the directory, and every other object, of this and of the
    -- other buckets, is as it was, if cleaning the cleaned path again changes nothing.
    pub remove_lem :
        (name : Str) (w v : S.World)
        → clean_ftp_path (clean_ftp_path name) ≡ clean_ftp_path name
        → remove S f name w ≡ (ok tt, v)
        → IsOnlyGone S at f
            (removed_key f (clean_ftp_path name) (at w f.bucket (key f (clean_ftp_path name))))
            w
            v
    unfolding remove throw
    remove_lem name w v idem h = pick f.read_only (str_eq clean root_path) refl h
      where
        clean : Str
        clean = clean_ftp_path name

        pick :
            (r root : Bool)
            → str_eq clean root_path ≡ root
            → (if r
                  then throw (read_only_err "remove" name)
                  else if root
                  then throw (path_error "remove" clean (errno eacces))
                  else (stat S f clean >>= remove_found S f clean))
                w
              ≡ (ok tt, v)
            → IsOnlyGone S at f (removed_key f clean (at w f.bucket (key f clean))) w v
        pick true root e g = absurd (cc)
        pick false true e g = absurd (cc)
        pick false false e g =
            let (info, u, asked, rest) = >>=-eq-ok (stat S f clean) (remove_found S f clean) w g in
            gone_from _ w u v
              (λ b k. ap (λ r. at r.1 b k) (sym asked) ∙ stat_same S at C F f clean w b k)
              (found-IsOnlyGone clean (at w f.bucket (key f clean)) u v info idem
                (subst (Tells (at w f.bucket (key f clean))) (ap (λ r. r.0) asked)
                  (stat-Tells S at C F f clean w idem e))
                rest)
