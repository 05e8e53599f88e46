-- ===== src/Listing/Pages.antt =====
-- What ReadDir of internal/s3fs/dir.go returns, over all the pages that the service sends.
use s32ftp.Prelude.{
  ℕ, zero, suc, ◌≡◌, if◌then◌else◌, Bool, true, false, ◌||◌, List, [], ◌∷◌, Option, none,
}
use s32ftp.Text.{Str, str_eq, is_nil, ends_with, contains_char}
use s32ftp.Keys.{slash, relative_name, clean_ftp_path}
use s32ftp.Errors.{ok}
use s32ftp.Action.{Act}
use s32ftp.Action.Rules
use s32ftp.Action.Rules.{Good, Any, Keeps}
use s32ftp.Info.{FileInfo, new_dir_info, new_file_info, size_of, time_of}
use s32ftp.Service.{Service, Entry, Page}
use s32ftp.Fs.{Fs, stat, key_dir}
use s32ftp.Listing.{
  add_prefixes, add_object, add_objects, add_page, read_pages, read_dir, delimited,
}
use s32ftp.Listing.Sorted.{IsOrdered, IsUnique, add_info-IsUnique, sort_infos-IsOrdered}

if-IsUnique :
    (b : Bool) (xs ys : List FileInfo) → IsUnique xs → IsUnique ys → IsUnique (if b then xs else ys)
if-IsUnique true xs ys h k = h
if-IsUnique false xs ys h k = k

add_prefixes-IsUnique :
    (prefix : Str) (ps : List Str) (infos : List FileInfo)
    → IsUnique infos
    → IsUnique (add_prefixes prefix ps infos)
unfolding add_prefixes
add_prefixes-IsUnique prefix [] infos h = h
add_prefixes-IsUnique prefix (p ∷ ps) infos h = add_prefixes-IsUnique prefix ps _ (
    if-IsUnique (is_nil (relative_name prefix p)) infos _ h
      (add_info-IsUnique (new_dir_info (relative_name prefix p)) infos h))

add_object-IsUnique :
    (prefix : Str) (o : Entry) (infos : List FileInfo)
    → IsUnique infos
    → IsUnique (add_object prefix o infos)
unfolding add_object
add_object-IsUnique prefix o infos h =
    if-IsUnique (str_eq o.key prefix || ends_with slash o.key) infos _ h (
      if-IsUnique
        (is_nil (relative_name prefix o.key) || contains_char slash (relative_name prefix o.key))
        infos _ h
        (add_info-IsUnique
          (new_file_info (relative_name prefix o.key) (size_of o.size) (time_of o.last_modified))
          infos h))

add_objects-IsUnique :
    (prefix : Str) (os : List Entry) (infos : List FileInfo)
    → IsUnique infos
    → IsUnique (add_objects prefix os infos)
unfolding add_objects
add_objects-IsUnique prefix [] infos h = h
add_objects-IsUnique prefix (o ∷ os) infos h =
    add_objects-IsUnique prefix os _ (add_object-IsUnique prefix o infos h)

pub add_page-IsUnique :
    (prefix : Str) (page : Page) (infos : List FileInfo)
    → IsUnique infos
    → IsUnique (add_page prefix page infos)
add_page-IsUnique prefix page infos h =
    add_objects-IsUnique prefix page.contents _
      (add_prefixes-IsUnique prefix page.common_prefixes infos h)

-- What a listing is to be: ordered, with one entry for each name.
abbrev pub IsListing : List FileInfo → Type 0
IsListing infos = IsOrdered infos × IsUnique infos

module _ (S : Service) where
  either-Keeps :
      (b : Bool) (m n : Act S.World (List FileInfo))
      → Keeps (Any {A = S.World}) IsUnique m
      → Keeps (Any {A = S.World}) IsUnique n
      → Keeps (Any {A = S.World}) IsUnique (elim b [ true ↦ m | false ↦ n ])
  either-Keeps true m n h k = h
  either-Keeps false m n h k = k

  read_pages-Keeps :
      (fuel : ℕ) (f : Fs) (prefix : Str) (token : Option Str) (infos : List FileInfo)
      → IsUnique infos
      → Keeps (Any {A = S.World}) IsUnique (read_pages S fuel f prefix token infos)
  unfolding read_pages
  read_pages-Keeps zero f prefix token infos h = Rules.throw_any Any IsUnique _
  read_pages-Keeps (suc fuel) f prefix token infos h =
      Rules.>>=-Keeps Any Any IsUnique
        (Rules.call-Any Any (S.list_objects f.bucket (delimited prefix token)) (λ w i. tt))
        (λ page _.
          either-Keeps page.is_truncated _ _
            (read_pages-Keeps fuel f prefix page.next_token _
              (add_page-IsUnique prefix page infos h))
            (Rules.ret-Keeps Any IsUnique (add_page-IsUnique prefix page infos h)))

  read_dir-Keeps :
      (fuel : ℕ) (f : Fs) (name : Str)
      → Keeps (Any {A = S.World}) IsListing (read_dir S fuel f name)
  unfolding read_dir
  read_dir-Keeps fuel f name = Rules.>>=-Keeps Any Any IsListing any_stat (λ _ _.
      Rules.>>=-Keeps Any IsUnique IsListing
        (read_pages-Keeps fuel f (key_dir f (clean_ftp_path name)) none [] tt)
        (λ infos h. Rules.ret-Keeps Any IsListing (sort_infos-IsOrdered infos h)))
    where
      any_stat : Keeps (Any {A = S.World}) Any (stat S f (clean_ftp_path name))
      any_stat = record { holds = λ w i. (tt, Rules.Good-Any _) }

-- Whatever pages a service sends, a listing that ReadDir returns has directories before files and
-- each of them in the order of the bytes of the names, and it holds no name twice.
pub read_dir-IsListing :
    (S : Service) (fuel : ℕ) (f : Fs) (name : Str) (w : S.World) {infos : List FileInfo}
    → (read_dir S fuel f name w).0 ≡ ok infos
    → IsListing infos
read_dir-IsListing S fuel f name w h = rw h at ((read_dir-Keeps S fuel f name).holds w tt).1
