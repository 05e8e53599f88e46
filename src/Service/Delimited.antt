-- ===== src/Service/Delimited.antt =====
-- What a listing by folders shows when it reports no error: the documented answers of the S3 service to
-- a request with the delimiter "/", as laws over the objects that a world holds.
use s32ftp.Prelude.{◌≡◌, ◌⊎◌, Bool, true, false, [], ◌∷◌, ◌++◌, Option, none, some, All}
use s32ftp.Text.{Str, contains_char, member}
use s32ftp.Keys.{slash}
use s32ftp.Errors.{ok}
use s32ftp.Service.{Service, ListRequest, Page}
use s32ftp.Service.Lawful.{Object, View}
use s32ftp.Service.Thorough.{is_listed}

abbrev pub by_folder : Str → Option Str → ListRequest
by_folder prefix token = record {
  prefix = prefix;
  delimiter = some (slash ∷ []);
  max_keys = none;
  token = token;
}

-- What may stand directly below a prefix, with its name.
pub data Item : Type 0 where
  file_item : Str → Item
  dir_item : Str → Item

abbrev pub name_of : Item → Str
name_of (file_item n) = n
name_of (dir_item n) = n

-- An object at the name, or below it.
abbrev pub Stands : (S : Service) → View S → Str → Str → S.World → Item → Type 0
Stands S at b p w (file_item n) = (o : Object) × (at w b (p ++ n) ≡ some o)
Stands S at b p w (dir_item n) =
    (s : Str) × (o : Object) × (at w b ((p ++ n) ++ (slash ∷ s)) ≡ some o)

abbrev pub is_shown : Str → Item → Page → Bool
is_shown p (file_item n) page = is_listed (p ++ n) page.contents
is_shown p (dir_item n) page = member ((p ++ n) ++ (slash ∷ [])) page.common_prefixes

-- A common prefix is the prefix with one name and the delimiter behind it.
abbrev pub IsFolder : Str → Str → Type 0
IsFolder p c = (n : Str) × (c ≡ (p ++ n) ++ (slash ∷ [])) × (contains_char slash n ≡ false)

-- `Later b p token w x`: in the world `w`, the page behind the token or one that follows it shows
-- the item.
pub record IsDelimiting (S : Service) (at : View S) : Type 1 where
  pub Later : Str → Str → Option Str → S.World → Item → Type 0
  pub begins :
      (b p : Str) (w : S.World) (x : Item)
      → contains_char slash (name_of x) ≡ false
      → Stands S at b p w x
      → Later b p none w x
  pub carries_on :
      (b p : Str) (token : Option Str) (w : S.World) (x : Item) {page : Page}
      → (S.list_objects b (by_folder p token) w).0 ≡ ok page
      → contains_char slash (name_of x) ≡ false
      → Later b p token w x
      → (is_shown p x page ≡ true)
        ⊎ ((page.is_truncated ≡ true)
            × Later b p page.next_token (S.list_objects b (by_folder p token) w).1 x)
  pub only_items :
      (b p : Str) (token : Option Str) (w : S.World) (x : Item) {page : Page}
      → (S.list_objects b (by_folder p token) w).0 ≡ ok page
      → is_shown p x page ≡ true
      → Stands S at b p w x
  pub folders :
      (b p : Str) (token : Option Str) (w : S.World) {page : Page}
      → (S.list_objects b (by_folder p token) w).0 ≡ ok page
      → All (IsFolder p) page.common_prefixes
