-- ===== src/Isolation/Calls.antt =====
-- The S3 calls that internal/s3fs makes leave the objects outside the root alone.
use s32ftp.Prelude.{ℕ, ◌≡◌, ◌∙◌, true, false, not, ◌&&◌, List, [], ◌∷◌, arith, All}
use s32ftp.Text.{Str, str_eq, has_prefix, member}
use s32ftp.Text.Laws.{str_eq_iff}
use s32ftp.Keys.Root.{keys_in_root}
use s32ftp.Action.{call}
use s32ftp.Action.Rules
use s32ftp.Action.Rules.{Good, Any, Keeps, any_rules}
use s32ftp.Service.{Service, Page, Upload, ListRequest}
use s32ftp.Service.Lawful.{View, IsConfined, HasPrefixes, hits}
use s32ftp.Isolation.Reads
use s32ftp.Fs
use s32ftp.Fs.{Fs, key, key_dir, list_request, nonempty}
use s32ftp.Listing
use s32ftp.Dir
use s32ftp.Dir.{keys_of}

-- No object outside the bucket and the root prefix has changed since `start`.
abbrev pub Untouched : (S : Service) → View S → Fs → S.World → S.World → Type 0
Untouched S at f start w =
    (b k : Str)
    → (str_eq f.bucket b && has_prefix f.root_prefix k) ≡ false
    → at w b k ≡ at start b k

abbrev pub InRoot : Fs → Str → Type 0
InRoot f k = has_prefix f.root_prefix k ≡ true

module _ (S : Service) (at : View S) (L : IsConfined S at) (f : Fs) (start : S.World) where
  abbrev Same : S.World → Type 0
  Same = Untouched S at f start

  pub outside_ne :
      (k b k' : Str)
      → InRoot f k
      → (str_eq f.bucket b && has_prefix f.root_prefix k') ≡ false
      → hits f.bucket k b k' ≡ false
  outside_ne k b k' h o = ground (arith, str_eq_iff k k')

  head_inv : (b k : Str) (w : S.World) → Same w → Same (S.head_object b k w).1
  head_inv b k w i b' k' o = L.head_frame b k w b' k' ∙ i b' k' o

  list_inv : (b : Str) (r : ListRequest) (w : S.World) → Same w → Same (S.list_objects b r w).1
  list_inv b r w i b' k' o = L.list_frame b r w b' k' ∙ i b' k' o

  pub list-Keeps :
      (r : ListRequest)
      → Keeps Same
          (λ (p : Page). HasPrefixes r.prefix p.contents)
          (call (S.list_objects f.bucket r))
  list-Keeps r =
      Rules.call-Keeps Same (λ (p : Page). HasPrefixes r.prefix p.contents)
        (S.list_objects f.bucket r)
        (λ w i. (λ b k' o. L.list_frame f.bucket r w b k' ∙ i b k' o, L.list_prefix f.bucket r w))

  pub list-Any : (r : ListRequest) → Keeps Same Any (call (S.list_objects f.bucket r))
  list-Any r = Reads.list-Any S Same head_inv list_inv f r

  pub stat-Keeps : (name : Str) → Keeps Same Any (Fs.stat S f name)
  stat-Keeps name = Reads.stat-Keeps S Same head_inv list_inv f name

  pub read_dir-Keeps : (fuel : ℕ) (name : Str) → Keeps Same Any (Listing.read_dir S fuel f name)
  read_dir-Keeps fuel name = Reads.read_dir-Keeps S Same head_inv list_inv f fuel name

  head_size-Keeps : (k : Str) → Keeps Same Any (Fs.head_size S f k)
  head_size-Keeps k = Reads.head_size-Keeps S Same head_inv list_inv f k

  pub prefix_has_objects-Keeps : (prefix : Str) → Keeps Same Any (Fs.prefix_has_objects S f prefix)
  prefix_has_objects-Keeps prefix = Reads.prefix_has_objects-Keeps S Same head_inv list_inv f prefix

  pub delete-Keeps : (k : Str) → InRoot f k → Keeps Same Any (call (S.delete_object f.bucket k))
  delete-Keeps k h =
      Rules.call-Any Same (S.delete_object f.bucket k)
        λ w i b k' o. L.delete_frame f.bucket k w b k' (outside_ne k b k' h o) ∙ i b k' o

  pub put-Keeps :
      (k : Str) (u : Upload) → InRoot f k → Keeps Same Any (call (S.put_object f.bucket k u))
  put-Keeps k u h =
      Rules.call-Any Same (S.put_object f.bucket k u)
        λ w i b k' o. L.put_frame f.bucket k u w b k' (outside_ne k b k' h o) ∙ i b k' o

  pub copy-Keeps :
      (k source : Str) → InRoot f k → Keeps Same Any (call (S.copy_object f.bucket k source))
  copy-Keeps k source h =
      Rules.call-Any Same (S.copy_object f.bucket k source)
        λ w i b k' o. L.copy_frame f.bucket k source w b k' (outside_ne k b k' h o) ∙ i b k' o

  member_outside :
      (keys : List Str) (b k : Str)
      → All (InRoot f) keys
      → (str_eq f.bucket b && has_prefix f.root_prefix k) ≡ false
      → (str_eq f.bucket b && member k keys) ≡ false
  unfolding member
  member_outside [] b k h o = ground arith
  member_outside (j ∷ keys) b k h o = ground (arith, str_eq_iff k j, member_outside keys b k h.1 o)

  pub delete_many-Keeps :
      (keys : List Str)
      → All (InRoot f) keys
      → Keeps Same Any (call (S.delete_objects f.bucket keys))
  delete_many-Keeps keys h = Rules.call-Any Same (S.delete_objects f.bucket keys) λ w i b k' o.
      L.delete_many_frame f.bucket keys w b k' (member_outside keys b k' h o) ∙ i b k' o

  pub key-InRoot : (p : Str) → InRoot f (key f p)
  key-InRoot p = (keys_in_root f.root_prefix p).0

  pub key_dir-InRoot : (p : Str) → InRoot f (key_dir f p)
  key_dir-InRoot p = (keys_in_root f.root_prefix p).1

  pub mkdir_clean-Keeps : (clean : Str) → Keeps Same Any (Dir.mkdir_clean S f clean)
  unfolding Dir.mkdir_clean
  mkdir_clean-Keeps clean = Rules.bind-Any Same (head_size-Keeps (key f clean)) λ size.
      Rules.then-Any Same (Rules.guard-Any Same _ _) (
        Rules.bind-Any Same (prefix_has_objects-Keeps (key_dir f clean)) λ exists.
          Rules.then-Any Same (Rules.guard-Any Same _ _) (
            Rules.if_Any Same (not f.dir_marker) (Rules.ret-Any Same tt)
              (put-Keeps (key_dir f clean) _ (key_dir-InRoot clean))))
