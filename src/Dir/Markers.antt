-- ===== src/Dir/Markers.antt =====
-- What Mkdir of internal/s3fs/dir.go has done when it reports no error.
use s32ftp.Prelude.{
  ℕ, [], ◌≡◌, refl, sym, ap, ◌∙◌, Bool, true, false, not, Option, none, some, if◌then◌else◌,
}
use s32ftp.Text.{Str, str_eq, has_prefix}
use s32ftp.Keys.{clean_ftp_path, root_path}
use s32ftp.Errors.{Error, Result, ok, err}
use s32ftp.Action.{ret, throw, call, from_reply}
use s32ftp.Action.Rules.{called, ok_pair, guard_then, >>=-eq-ok}
use s32ftp.Service.{Service, Reply, Upload}
use s32ftp.Service.Lawful.{Object, View, IsConfined, hits}
use s32ftp.Service.Thorough.{IsThorough}
use s32ftp.Fs.Free.{prefix_free}
use s32ftp.Dir.AllKeys.{Same}
use s32ftp.Service.Faithful.{IsFaithful, IsObedient}
use s32ftp.Fs.Heads.{size_at, head_size_lem}
use s32ftp.Fs.{Fs, key, key_dir, head_size, prefix_has_objects}
use s32ftp.Dir.{read_only_err, mkdir, mkdir_clean, is_none}

none_there :
    (size : Option ℕ) (x : Option Object) → is_none size ≡ true → size ≡ size_at x → x ≡ none
none_there size none h e = refl
none_there none (some o) h e = absurd (cc)
none_there (some n) (some o) h e = absurd (cc)

module _ (S : Service) (at : View S) (O : IsObedient S at) (f : Fs) (k : Str) where
  -- The request that writes the marker.
  abbrev marker : Upload
  marker = record { body = []; content_type = none }

  marked :
      (u v : S.World)
      → call (S.put_object f.bucket k marker) u ≡ (ok tt, v)
      → (o : Object) × (at v f.bucket k ≡ some o) × (o.body ≡ [])
  unfolding call
  marked u v h = step (S.put_object f.bucket k marker u) refl h
    where
      step :
          (r : Reply (Unit {0}) × S.World)
          → S.put_object f.bucket k marker u ≡ r
          → ◌≡◌ {A = Result Error (Unit {0}) × S.World} (from_reply r.0, r.1) (ok tt, v)
          → (o : Object) × (at v f.bucket k ≡ some o) × (o.body ≡ [])
      step (ok x, z) e g =
          let (o, there, empty) = O.put_ok f.bucket k marker u (ap (λ p. p.0) e) in
          let (_, moved) = ok_pair g in
          (o, ap (λ y. at y f.bucket k) (sym (ap (λ p. p.1) e ∙ moved)) ∙ there, empty)
      step (err x, z) e g = absurd (cc)

-- The last step of Mkdir.
module _ (S : Service) (at : View S) (C : IsConfined S at) (O : IsObedient S at) (f : Fs)
    (clean : Str) (v : S.World) where
  abbrev Put : Bool → S.World → Type 0
  Put m u =
      (if not m
          then ret tt
          else call (S.put_object f.bucket (key_dir f clean) (marker S at O f clean)))
        u
      ≡ (ok tt, v)

  marks :
      (m : Bool) (u : S.World)
      → f.dir_marker ≡ m
      → Put m u
      → f.dir_marker ≡ true
      → (o : Object) × (at v f.bucket (key_dir f clean) ≡ some o) × (o.body ≡ [])
  unfolding ret
  marks false u e g on = absurd (cc)
  marks true u e g on = marked S at O f (key_dir f clean) u v g

  leaves :
      (m : Bool) (u : S.World) → f.dir_marker ≡ m → Put m u → f.dir_marker ≡ false → Same S at v u
  unfolding ret
  leaves true u e g off b k = absurd (cc)
  leaves false u e g off b k = ap (λ x. at x b k) (sym (ok_pair g).1)

  frame :
      (m : Bool) (u : S.World)
      → Put m u
      → (b k : Str) → hits f.bucket (key_dir f clean) b k ≡ false
      → at v b k ≡ at u b k
  unfolding ret
  frame false u g b k other = ap (λ x. at x b k) (sym (ok_pair g).1)
  frame true u g b k other =
      ap (λ x. at x b k) (sym (called _ u v tt g).1) ∙ C.put_frame _ _ _ u b k other

-- What Mkdir finds and leaves, for the cleaned path.
pub record IsMade (S : Service) (at : View S) (f : Fs) (clean : Str) (w v : S.World) : Type 0 where
  pub no_file : at w f.bucket (key f clean) ≡ none
  pub empty : (k : Str) → has_prefix (key_dir f clean) k ≡ true → at w f.bucket k ≡ none
  pub with_marker :
      f.dir_marker ≡ true
      → (o : Object) × (at v f.bucket (key_dir f clean) ≡ some o) × (o.body ≡ [])
  pub without_marker : f.dir_marker ≡ false → Same S at v w
  pub beside : (b k : Str) → hits f.bucket (key_dir f clean) b k ≡ false → at v b k ≡ at w b k

-- When Mkdir of a path other than the root reports success, there was no object at the key of the path
-- and none below the directory; then, if the view has markers, the directory has an empty marker and
-- every other object, of this and of the other buckets, is as it was, and otherwise every object is.
pub mkdir_lem :
    (S : Service) (at : View S) (C : IsConfined S at) (T : IsThorough S at) (F : IsFaithful S at)
    (O : IsObedient S at) (f : Fs) (name : Str) (w v : S.World)
    → str_eq (clean_ftp_path name) root_path ≡ false
    → mkdir S f name w ≡ (ok tt, v)
    → IsMade S at f (clean_ftp_path name) w v
unfolding mkdir mkdir_clean throw ret
mkdir_lem S at C T F O f name w v root h = pick f.read_only (rw root at h)
  where
    clean : Str
    clean = clean_ftp_path name

    chain : mkdir_clean S f clean w ≡ (ok tt, v) → IsMade S at f clean w v
    chain g =
        let (size, u1, e1, g1) = >>=-eq-ok (head_size S f (key f clean)) _ w g in
        let (free, g2) = guard_then _ _ _ u1 v tt g1 in
        let (exists, u3, e3, g3) = >>=-eq-ok (prefix_has_objects S f (key_dir f clean)) _ u1 g2 in
        let (nothing, g4) = guard_then _ _ _ u3 v tt g3 in
        let (told, same1) = head_size_lem S at C F f (key f clean) w u1 size e1 in
        let (same3, below) = prefix_free S at C T f (key_dir f clean) u1 u3 exists e3 nothing in
        record {
          no_file = none_there size _ free told;
          empty = λ k p. sym (same1 f.bucket k) ∙ below k p;
          with_marker = marks S at C O f clean v f.dir_marker u3 refl g4;
          without_marker = λ off b k.
              leaves S at C O f clean v f.dir_marker u3 refl g4 off b k ∙ same3 b k ∙ same1 b k;
          beside = λ b k other.
              frame S at C O f clean v f.dir_marker u3 g4 b k other ∙ same3 b k ∙ same1 b k;
        }

    pick :
        (r : Bool)
        → (if r then throw (read_only_err "mkdir" name) else mkdir_clean S f clean) w ≡ (ok tt, v)
        → IsMade S at f clean w v
    pick true g = absurd (cc)
    pick false g = chain g
