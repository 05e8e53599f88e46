-- ===== src/Driver/Accounts.antt =====
-- What a login gives: AuthUser of internal/ftpdriver/driver.go on a document that Load returned.
use Prim.Native.String.{String}
use mathlib.Core.Option.{some-injective}
use s32ftp.Prelude.{
  ◌≡◌, ◌≢◌, refl, sym, ap, ◌∙◌, ◌⊎◌, inl, inr, Bool, true, false, List, [], ◌∷◌, Option, none, some,
  All, Memᴰ, Bool-cases,
}
use s32ftp.Text.{Str, str_eq}
use s32ftp.Text.Laws.{str_eq_iff}
use s32ftp.Keys.Root.{IsRootPrefix}
use s32ftp.Errors.{ok}
use s32ftp.Config.{Config, User, find_user, lookup_user, check_password}
use s32ftp.Config.Normalize.Roots.{RootsAreNormal}
use s32ftp.Config.Validate.Sound.{IsValid}
use s32ftp.Config.Load.{load}
use s32ftp.Config.Load.Sound.{load-IsValid}
use s32ftp.Fs.{Fs}
use s32ftp.Driver.{or_own, view_of, auth_account, auth_user}

find_user_lem :
    (name : Str) (users : List User) {u : User}
    → find_user name users ≡ some u
    → Memᴰ u users × (u.username ≡ name)
unfolding find_user
find_user_lem name [] h = absurd (cc)
find_user_lem name (v ∷ users) {u} h = elim (Bool-cases (str_eq v.username name)) [
  | inl e ↦
      let same : v ≡ u = some-injective v u (rw e at h) in
      (
        Memᴰ.head (sym same),
        ap (λ (x : User). x.username) (sym same) ∙ (str_eq_iff v.username name).0 e,
      )
  | inr e ↦ let (m, n) = find_user_lem name users (rw e at h) in (Memᴰ.tail m, n)
]

Root-Memᴰ :
    {u : User} {users : List User}
    → All (λ (v : User). IsRootPrefix v.root_prefix) users
    → Memᴰ u users
    → IsRootPrefix u.root_prefix
Root-Memᴰ a (Memᴰ.head e) = rw e a.0
Root-Memᴰ a (Memᴰ.tail m) = Root-Memᴰ a.1 m

or_own-IsRootPrefix :
    (own shared : Str) → IsRootPrefix own → IsRootPrefix shared → IsRootPrefix (or_own own shared)
or_own-IsRootPrefix [] shared a b = b
or_own-IsRootPrefix (x ∷ own) shared a b = a

or_own-ne-nil : (own shared : Str) → shared ≢ [] → or_own own shared ≢ []
or_own-ne-nil [] shared h e = h e
or_own-ne-nil (x ∷ own) shared h e = absurd (cc)

-- The account's own value where it has one, and else the shared one.
abbrev pub IsOwnOr : Str → Str → Str → Type 0
IsOwnOr own shared x = ((own ≡ []) × (x ≡ shared)) ⊎ ((own ≢ []) × (x ≡ own))

or_own-IsOwnOr : (own shared : Str) → IsOwnOr own shared (or_own own shared)
or_own-IsOwnOr [] shared = inl (refl, refl)
or_own-IsOwnOr (x ∷ own) shared = inr (λ e. absurd (cc), refl)

module _ (matches_hash : Str → Str → Bool) where
  -- What a view is to be, for an account of the document.
  pub record IsViewOf (c : Config) (user pass : Str) (f : Fs) (u : User) : Type 0 where
    pub listed : Memᴰ u c.ftp.users
    pub named : u.username ≡ user
    pub knows : check_password matches_hash u pass ≡ true
    pub read_only : f.read_only ≡ u.read_only
    pub bucket : IsOwnOr u.bucket c.s3.bucket f.bucket
    pub has_bucket : f.bucket ≢ []
    pub root : IsOwnOr u.root_prefix c.s3.root_prefix f.root_prefix
    pub normal_root : IsRootPrefix f.root_prefix
    pub dir_marker : f.dir_marker ≡ c.s3.dir_marker

  auth_account-IsViewOf :
      (c : Config) (user pass : Str) (o : Option User) {f : Fs}
      → IsValid c × RootsAreNormal c
      → lookup_user c user ≡ o
      → auth_account matches_hash c pass o ≡ ok f
      → (u : User) × IsViewOf c user pass f u
  unfolding view_of lookup_user RootsAreNormal
  auth_account-IsViewOf c user pass none v l h = absurd (cc)
  auth_account-IsViewOf c user pass (some u) {f} (valid, roots) l h =
      let (m, n) = find_user_lem user c.ftp.users l in
      let (k, same) = granted (Bool-cases (check_password matches_hash u pass)) in
      (
        u,
        rw (← same) (record {
          listed = m;
          named = n;
          knows = k;
          read_only = refl;
          bucket = or_own-IsOwnOr u.bucket c.s3.bucket;
          has_bucket = or_own-ne-nil u.bucket c.s3.bucket valid.s3.bucket;
          root = or_own-IsOwnOr u.root_prefix c.s3.root_prefix;
          normal_root =
              or_own-IsRootPrefix u.root_prefix c.s3.root_prefix (Root-Memᴰ roots.1 m) roots.0;
          dir_marker = refl;
        }),
      )
    where
      granted :
          (check_password matches_hash u pass ≡ true) ⊎ (check_password matches_hash u pass ≡ false)
          → (check_password matches_hash u pass ≡ true) × (view_of c u ≡ f)
      granted (inl e) = (e, cc (rw e at h))
      granted (inr e) = absurd (cc (rw e at h))

  -- A login on a document that Load returned gives a view only to a name of the document with its
  -- password. The view is read-only as the account is, and has the directory marker of the document; its
  -- bucket and its root prefix are the account's own where it has one and else those of the
  -- document's S3 section; the bucket is not empty, and the root prefix is empty or ends in "/".
  pub auth_user-IsViewOf :
      (unicode : Str → Str) (env : String → Option Str) (read_file : Str → Option Str)
      (unmarshal : Str → Config → Option Config) (path : Str) {c : Config} (user pass : Str)
      {f : Fs}
      → load unicode env read_file unmarshal path ≡ ok c
      → auth_user matches_hash c user pass ≡ ok f
      → (u : User) × IsViewOf c user pass f u
  unfolding auth_user
  auth_user-IsViewOf unicode env read_file unmarshal path {c} user pass l h =
      auth_account-IsViewOf c user pass (lookup_user c user)
        (load-IsValid unicode env read_file unmarshal path l) refl h
