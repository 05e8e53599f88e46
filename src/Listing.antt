-- ===== src/Listing.antt =====
-- The listing of a directory: ReadDir of internal/s3fs/dir.go.
pub mod Sorted
pub mod Pages
pub mod Ends
pub mod Names
pub mod Found
pub mod Complete
use s32ftp.Prelude.{
  ℕ, zero, suc, ◌+◌, ◌-◌, min, Bool, true, false, not, ◌&&◌, ◌||◌, List, [], ◌∷◌, ◌++◌, Option,
  none, some, ltb, if◌then◌else◌, length, take, drop, map,
}
use s32ftp.Text.{
  Str, is_nil, str_eq, str_lt, has_prefix, trim_prefix, ends_with, contains_char, member,
}
use s32ftp.Keys.{slash, clean_ftp_path, join_root, dir_key, relative_name, copy_source, root_path}
use s32ftp.Errors.{
  Errno, eexist, eacces, enotdir, enotempty, eisdir, einval, S3Error, Cause, errno, not_exist,
  read_only, Error, path_error, s3_error, diverged, Result, ok, err, is_not_exist,
}
use s32ftp.Action.{Act, ret, throw, ◌>>=◌, ◌>>◌, call, observe, guard}
use s32ftp.Service.{Service, Entry, Page, ListRequest}
use s32ftp.Info.{FileInfo, new_dir_info, new_file_info, size_of, time_of, put_object_input}
use s32ftp.Fs.{Fs, key, key_dir, list_request, nonempty, stat, head_size, prefix_has_objects}

-- `add` of ReadDir: the names seen and the infos found so far, in order.
abbrev pub names_of : List FileInfo → List Str
names_of [] = []
names_of (i ∷ infos) = i.name ∷ names_of infos

unfoldable pub add_info : FileInfo → List FileInfo → List FileInfo
unfolding member
add_info info infos = if member info.name (names_of infos) then infos else infos ++ (info ∷ [])

-- The loop over `out.CommonPrefixes`.
unfoldable pub add_prefixes : Str → List Str → List FileInfo → List FileInfo
unfolding add_info relative_name
add_prefixes prefix [] infos = infos
add_prefixes prefix (p ∷ rest) infos =
    let entry = relative_name prefix p in
    add_prefixes prefix rest (if is_nil entry then infos else add_info (new_dir_info entry) infos)

-- The loop over `out.Contents`.
unfoldable pub add_object : Str → Entry → List FileInfo → List FileInfo
unfolding add_info relative_name ends_with contains_char str_eq
add_object prefix o infos =
    if str_eq o.key prefix || ends_with slash o.key
    then infos
    else let entry = relative_name prefix o.key in
      if is_nil entry || contains_char slash entry
      then infos
      else add_info (new_file_info entry (size_of o.size) (time_of o.last_modified)) infos

unfoldable pub add_objects : Str → List Entry → List FileInfo → List FileInfo
unfolding add_object
add_objects prefix [] infos = infos
add_objects prefix (o ∷ rest) infos = add_objects prefix rest (add_object prefix o infos)

abbrev pub add_page : Str → Page → List FileInfo → List FileInfo
add_page prefix page infos =
    add_objects prefix page.contents (add_prefixes prefix page.common_prefixes infos)

-- The order of `sort.Slice`: directories first, then by name.
unfoldable pub comes_before : FileInfo → FileInfo → Bool
unfolding str_lt
comes_before a b =
    if a.is_dir && not b.is_dir
    then true
    else if not a.is_dir && b.is_dir
    then false
    else str_lt a.name b.name

-- `sort.Slice`. No two infos have one name, so every sort by this order gives the same list.
unfoldable pub insert_info : FileInfo → List FileInfo → List FileInfo
unfolding comes_before
insert_info a [] = a ∷ []
insert_info a (b ∷ infos) =
    let rest = insert_info a infos in if comes_before b a then b ∷ rest else a ∷ b ∷ infos

unfoldable pub sort_infos : List FileInfo → List FileInfo
unfolding insert_info
sort_infos [] = []
sort_infos (a ∷ infos) = insert_info a (sort_infos infos)

abbrev pub delimited : Str → Option Str → ListRequest
delimited prefix token = record {
  prefix = prefix;
  delimiter = some root_path;
  max_keys = none;
  token = token;
}

module _ (S : Service) where
  open S use {World, list_objects}

  -- The loop over the pages of the listing.
  unfoldable pub read_pages : ℕ → Fs → Str → Option Str → List FileInfo → Act World (List FileInfo)
  unfolding add_prefixes add_objects
  read_pages zero f prefix token infos = throw diverged
  read_pages (suc fuel) f prefix token infos = do
    page ← call (list_objects f.bucket (delimited prefix token))
    let more = read_pages fuel f prefix page.next_token (add_page prefix page infos)
    elim page.is_truncated [ true ↦ more | false ↦ ret (add_page prefix page infos) ]

  -- FS.ReadDir.
  unfoldable pub read_dir : ℕ → Fs → Str → Act World (List FileInfo)
  unfolding read_pages stat sort_infos
  read_dir fuel f name = do
    let clean = clean_ftp_path name
    _ ← stat S f clean
    infos ← read_pages fuel f (key_dir f clean) none []
    ret (sort_infos infos)
