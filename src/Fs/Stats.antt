-- ===== src/Fs/Stats.antt =====
-- What Stat of internal/s3fs/fs.go tells of the object at the key of a path.
use s32ftp.Prelude.{
  ◌≡◌, refl, sym, ap, ◌∙◌, List, [], ◌∷◌, ◌++◌, Bool, true, false, not, Option, none, some,
  if◌then◌else◌,
}
use s32ftp.Text.{Str, is_nil, str_eq, join}
use s32ftp.Keys.{clean_ftp_path, join_root, root_path, base}
use s32ftp.Keys.Clean.{clean_ftp_path-IsClean}
use s32ftp.Keys.Segments.{AllElements}
use s32ftp.Keys.Root.{elements_of, join_root_lem, join_open}
use s32ftp.Errors.{
  Error, Result, ok, err, not_exist, path_error, stat_error, is_not_found, is_not_exist,
}
use s32ftp.Action.{ret, throw, ◌>>=◌, attempt}
use s32ftp.Info.{FileInfo, new_file_info, new_dir_info}
use s32ftp.Service.{Service, Head, Page, Reply}
use s32ftp.Service.Lawful.{Object, View, IsConfined}
use s32ftp.Service.Faithful.{IsFaithful}
use s32ftp.Isolation.Reads
use s32ftp.Fs.{Fs, key, stat, stat_key, stat_headed, stat_dir, stat_listed, has_entries}

-- The key of a path other than the root is not empty.
pub key_full :
    (root p : Str) → str_eq (clean_ftp_path p) root_path ≡ false → is_nil (join_root root p) ≡ false
unfolding join str_eq
key_full root p h =
    rw (join_root_lem root p)
      (pick (elements_of p) (clean_ftp_path-IsClean p).spelled (clean_ftp_path-IsClean p).proper)
  where
    pick :
        (segs : List Str)
        → clean_ftp_path p ≡ ◌∷◌ b'/' (join b'/' segs)
        → AllElements segs
        → is_nil (root ++ join b'/' segs) ≡ false
    pick [] e a = absurd (cc (sym h ∙ ap (λ x. str_eq x root_path) e))
    pick (s ∷ rest) e a = (join_open root s rest a).0

-- What an answer of Stat says of the object at the key of the path.
abbrev pub Tells : Option Object → Result Error FileInfo → Type 0
Tells found (ok info) =
    (info.is_dir ≡ true → found ≡ none) × (info.is_dir ≡ false → (o : Object) × (found ≡ some o))
Tells found (err e) = is_not_exist e ≡ true → found ≡ none

module _ (S : Service) (at : View S) (C : IsConfined S at) (F : IsFaithful S at) (f : Fs) where
  stat_dir-Tells : (clean : Str) (w : S.World) → Tells none (stat_dir S f clean w).0
  unfolding stat_dir ◌>>=◌ attempt
  stat_dir-Tells clean w = listed (S.list_objects f.bucket _ w).0 (S.list_objects f.bucket _ w).1
    where
      entries :
          (b : Bool) (u : S.World)
          → Tells none
              ((if b
                  then ret (new_dir_info (base clean))
                  else throw (path_error "stat" clean not_exist))
                u).0
      entries true u = unfold ret in unfold new_dir_info in (λ _. refl, λ e. absurd (cc))
      entries false u = unfold throw in λ _. refl

      listed : (reply : Reply Page) (u : S.World) → Tells none (stat_listed S clean reply u).0
      listed (ok page) u = entries (has_entries page) u
      listed (err e) u = unfold throw in λ _. refl

  stat_key-Tells :
      (clean : Str) (w : S.World) → Tells (at w f.bucket (key f clean)) (stat_key S f clean w).0
  unfolding stat_key ◌>>=◌ attempt
  stat_key-Tells clean w = headed (S.head_object f.bucket (key f clean) w).0 _ refl
    where
      headed :
          (reply : Reply Head) (u : S.World)
          → (S.head_object f.bucket (key f clean) w).0 ≡ reply
          → Tells (at w f.bucket (key f clean)) (stat_headed S f clean reply u).0
      headed (ok head) u e =
          let (o, there, _) = F.head_found _ _ w e in
          unfold ret in unfold new_file_info in (λ d. absurd (cc), λ _. (o, there))
      headed (err x) u e = missing (is_not_found x) refl
        where
          missing :
              (c : Bool)
              → is_not_found x ≡ c
              → Tells
                  (at w f.bucket (key f clean))
                  ((if not c then throw (stat_error clean x) else stat_dir S f clean) u).0
          missing false m = unfold throw in unfold is_not_exist in λ d. absurd (cc)
          missing true m = rw (F.head_missing _ _ w e m) (stat_dir-Tells clean u)

  -- Stat of a cleaned path other than the root.
  pub stat-Tells :
      (clean : Str) (w : S.World)
      → clean_ftp_path clean ≡ clean
      → str_eq clean root_path ≡ false
      → Tells (at w f.bucket (key f clean)) (stat S f clean w).0
  unfolding stat
  stat-Tells clean w idem root =
      let full : is_nil (key f clean) ≡ false = key_full f.root_prefix clean (rw idem root) in
      rw (idem, root, full) (stat_key-Tells clean w)

  -- Stat changes no object.
  pub stat_same : (clean : Str) (w : S.World) (b k : Str) → at (stat S f clean w).1 b k ≡ at w b k
  stat_same clean w =
      ((Reads.stat-Keeps S (λ u. (b k : Str) → at u b k ≡ at w b k)
          (λ b k u i b' k'. C.head_frame b k u b' k' ∙ i b' k')
          (λ b r u i b' k'. C.list_frame b r u b' k' ∙ i b' k') f clean).holds
        w (λ b k. refl)).0
