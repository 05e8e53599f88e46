-- ===== src/Service/Lawful.antt =====
-- What the source relies on of the S3 service, as laws over the objects that a world holds.
use s32ftp.Prelude.{ℕ, ◌≡◌, Bool, true, false, ◌&&◌, List, Option, All}
use s32ftp.Text.{Str, str_eq, has_prefix, member}
use s32ftp.Action.Rules.{Good}
use s32ftp.Service.{Service, Entry, ListRequest, Page, Upload}

pub record Object : Type 0 where
  pub body : Str
  pub modified : ℕ

-- The object of a bucket at a key.
abbrev pub View : Service → Type 0
View S = S.World → Str → Str → Option Object

-- Whether two places in the store are one.
abbrev pub hits : Str → Str → Str → Str → Bool
hits b k b' k' = str_eq b b' && str_eq k k'

abbrev pub HasPrefixes : Str → List Entry → Type 0
HasPrefixes prefix entries = All (λ (o : Entry). has_prefix prefix o.key ≡ true) entries

-- What no call does, whether it succeeds or fails: reading changes no object, writing changes no
-- object but those that it names, and a listing shows no key outside its prefix.
pub record IsConfined (S : Service) (at : View S) : Type 0 where
  pub head_frame :
      (b k : Str) (w : S.World) (b' k' : Str) → at (S.head_object b k w).1 b' k' ≡ at w b' k'
  pub get_frame :
      (b k : Str) (r : Option ℕ) (w : S.World) (b' k' : Str)
      → at (S.get_object b k r w).1 b' k' ≡ at w b' k'
  pub list_frame :
      (b : Str) (r : ListRequest) (w : S.World) (b' k' : Str)
      → at (S.list_objects b r w).1 b' k' ≡ at w b' k'
  pub put_frame :
      (b k : Str) (u : Upload) (w : S.World) (b' k' : Str)
      → hits b k b' k' ≡ false
      → at (S.put_object b k u w).1 b' k' ≡ at w b' k'
  pub copy_frame :
      (b k source : Str) (w : S.World) (b' k' : Str)
      → hits b k b' k' ≡ false
      → at (S.copy_object b k source w).1 b' k' ≡ at w b' k'
  pub delete_frame :
      (b k : Str) (w : S.World) (b' k' : Str)
      → hits b k b' k' ≡ false
      → at (S.delete_object b k w).1 b' k' ≡ at w b' k'
  pub delete_many_frame :
      (b : Str) (keys : List Str) (w : S.World) (b' k' : Str)
      → (str_eq b b' && member k' keys) ≡ false
      → at (S.delete_objects b keys w).1 b' k' ≡ at w b' k'
  pub list_prefix :
      (b : Str) (r : ListRequest) (w : S.World)
      → Good (λ (page : Page). HasPrefixes r.prefix page.contents) (S.list_objects b r w).0
