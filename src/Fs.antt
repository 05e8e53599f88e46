-- ===== src/Fs.antt =====
-- internal/s3fs/fs.go: the filesystem view of a bucket and prefix. The logger and the contexts are left out.
pub mod Heads
pub mod Stats
pub mod Free
use s32ftp.Prelude.{
  ℕ, Bool, true, false, not, ◌||◌, List, [], ◌∷◌, Option, none, some, ltb, if◌then◌else◌,
}
use s32ftp.Text.{Str, is_nil, str_eq}
use s32ftp.Keys.{clean_ftp_path, join_root, dir_key, base, root_path}
use s32ftp.Errors.{
  S3Error, not_exist, path_error, s3_error, stat_error, Result, ok, err, is_not_found,
}
use s32ftp.Action.{Act, ret, throw, ◌>>=◌, call, attempt}
use s32ftp.Service.{Service, Head, Page, ListRequest}
use s32ftp.Info.{FileInfo, new_dir_info, new_file_info, size_of, time_of}

-- FS, without the client and the logger.
pub record Fs : Type 0 where
  pub bucket : Str
  pub root_prefix : Str
  pub dir_marker : Bool
  pub read_only : Bool

-- FS.key and FS.keyDir.
abbrev pub key : Fs → Str → Str
key f p = join_root f.root_prefix p

abbrev pub key_dir : Fs → Str → Str
key_dir f p = dir_key f.root_prefix p

abbrev pub list_request : Str → Option ℕ → ListRequest
list_request prefix max_keys = record {
  prefix = prefix;
  delimiter = none;
  max_keys = max_keys;
  token = none;
}

abbrev pub nonempty {ℓ} : {A : Type ℓ} → List A → Bool
nonempty [] = false
nonempty (x ∷ xs) = true

abbrev pub has_entries : Page → Bool
has_entries page = nonempty page.contents || nonempty page.common_prefixes

module _ (S : Service) where
  open S use {World, head_object, get_object, list_objects}

  -- Stat behind the listing: a directory marker, or a directory that its children imply.
  abbrev pub stat_listed : Str → Result S3Error Page → Act World FileInfo
  stat_listed clean (err e) = throw (stat_error clean e)
  stat_listed clean (ok page) =
      if has_entries page
      then ret (new_dir_info (base clean))
      else throw (path_error "stat" clean not_exist)

  unfoldable pub stat_dir : Fs → Str → Act World FileInfo
  stat_dir f clean = do
    reply ← attempt (list_objects f.bucket (list_request (key_dir f clean) (some 1)))
    stat_listed clean reply

  -- Stat behind the HEAD request.
  abbrev pub stat_headed : Fs → Str → Result S3Error Head → Act World FileInfo
  stat_headed f clean (ok head) =
      ret (new_file_info (base clean) (size_of head.content_length) (time_of head.last_modified))
  stat_headed f clean (err e) =
      if not (is_not_found e) then throw (stat_error clean e) else stat_dir f clean

  unfoldable pub stat_key : Fs → Str → Act World FileInfo
  stat_key f clean = do
    reply ← attempt (head_object f.bucket (key f clean))
    stat_headed f clean reply

  -- FS.Stat.
  unfoldable pub stat : Fs → Str → Act World FileInfo
  unfolding stat_key stat_dir is_not_found str_eq
  stat f name =
      let clean = clean_ftp_path name in
      if str_eq clean root_path
      then ret (new_dir_info root_path)
      else if is_nil (key f clean)
      then ret (new_dir_info root_path)
      else stat_key f clean

  -- FS.getObject.
  unfoldable pub get_object_from : Fs → Str → ℕ → Act World Str
  get_object_from f k offset =
      call (get_object f.bucket k (if ltb 0 offset then some offset else none))

  -- FS.headObject: none when the object is missing.
  abbrev pub found_head : Result S3Error Head → Act World (Option Head)
  found_head (ok head) = ret (some head)
  found_head (err e) = if is_not_found e then ret none else throw (s3_error e)

  unfoldable pub head_of : Fs → Str → Act World (Option Head)
  unfolding is_not_found
  head_of f k = do reply ← attempt (head_object f.bucket k); found_head reply

  -- FS.headSize.
  abbrev pub size_of_head : Option Head → Option ℕ
  size_of_head none = none
  size_of_head (some head) = some (size_of head.content_length)

  unfoldable pub head_size : Fs → Str → Act World (Option ℕ)
  unfolding head_of
  head_size f k = do found ← head_of f k; ret (size_of_head found)

  -- FS.prefixHasObjects.
  unfoldable pub prefix_has_objects : Fs → Str → Act World Bool
  prefix_has_objects f prefix = do
    page ← call (list_objects f.bucket (list_request prefix (some 1)))
    ret (nonempty page.contents)
