-- ===== src/Service/Thorough.antt =====
-- What the calls that list, copy and delete many objects do when they report no error: the documented
-- answers of the S3 service, as laws over the objects that a world holds.
use s32ftp.Prelude.{
  ℕ, ◌≤◌, ◌≡◌, ◌≢◌, ◌⊎◌, Bool, true, false, ◌||◌, List, [], ◌∷◌, Option, none, some,
}
use s32ftp.Text.{Str, str_eq, has_prefix, member}
use s32ftp.Keys.{copy_source}
use s32ftp.Keys.Source.{IsText}
use s32ftp.Errors.{ok}
use s32ftp.Service.{Service, Entry, ListRequest, Page}
use s32ftp.Service.Lawful.{Object, View}

-- Whether a key is among the entries.
unfoldable pub is_listed : Str → List Entry → Bool
unfolding str_eq
is_listed k [] = false
is_listed k (o ∷ rest) = str_eq k o.key || is_listed k rest

-- A listing of all keys with a prefix, from its start or from a token on.
abbrev pub listing : Str → Option ℕ → Option Str → ListRequest
listing prefix max_keys token = record {
  prefix = prefix;
  delimiter = none;
  max_keys = max_keys;
  token = token;
}

-- `Pending b p token w k`: in the world `w`, the page behind the token or one that follows it shows
-- the key. `first` says so of each object at the start of a listing, and `goes_on` that a key that is
-- pending is on the page or still pending behind it. `only` says that what is shown is there, and
-- `shows` that a page that may hold a key shows one if there is one.
pub record IsThorough (S : Service) (at : View S) : Type 1 where
  pub Pending : Str → Str → Option Str → S.World → Str → Type 0
  pub first :
      (b p k : Str) (w : S.World) {o : Object}
      → at w b k ≡ some o
      → has_prefix p k ≡ true
      → Pending b p none w k
  pub goes_on :
      (b p k : Str) (token : Option Str) (w : S.World) {page : Page}
      → (S.list_objects b (listing p none token) w).0 ≡ ok page
      → Pending b p token w k
      → (is_listed k page.contents ≡ true)
        ⊎ ((page.is_truncated ≡ true)
            × Pending b p page.next_token (S.list_objects b (listing p none token) w).1 k)
  pub only :
      (b p k : Str) (token : Option Str) (w : S.World) {page : Page}
      → (S.list_objects b (listing p none token) w).0 ≡ ok page
      → is_listed k page.contents ≡ true
      → (o : Object) × (at w b k ≡ some o)
  pub shows :
      (b p k : Str) (n : ℕ) (w : S.World) {o : Object} {page : Page}
      → (S.list_objects b (listing p (some n) none) w).0 ≡ ok page
      → 1 ≤ n
      → at w b k ≡ some o
      → has_prefix p k ≡ true
      → page.contents ≢ []
  pub copy_ok :
      (b k b' k' : Str) (w : S.World)
      → IsText b'
      → IsText k'
      → (S.copy_object b k (copy_source b' k') w).0 ≡ ok tt
      → (o o' : Object) × (at w b' k' ≡ some o)
        × (at (S.copy_object b k (copy_source b' k') w).1 b k ≡ some o')
        × (o'.body ≡ o.body)
  pub delete_many_ok :
      (b : Str) (keys : List Str) (w : S.World) (k : Str) {failed : List Str}
      → (S.delete_objects b keys w).0 ≡ ok failed
      → member k keys ≡ true
      → member k failed ≡ false
      → at (S.delete_objects b keys w).1 b k ≡ none
