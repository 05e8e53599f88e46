-- ===== src/Dir.antt =====
-- The changes to a tree of objects: Mkdir, Remove, RemoveAll and Rename of internal/s3fs/dir.go.
pub mod Loops
pub mod Effects
pub mod Markers
pub mod AllKeys
pub mod Cleared
pub mod Clearing
pub mod Success
use Prim.Native.String.{String}
use s32ftp.Prelude.{
  ℕ, zero, suc, ◌+◌, ◌-◌, min, Bool, true, false, not, ◌&&◌, ◌||◌, List, [], ◌∷◌, ◌++◌, Option,
  none, some, ltb, if◌then◌else◌, length, take, drop, map,
}
use s32ftp.Text.{
  Str, is_nil, str_eq, str_lt, has_prefix, trim_prefix, ends_with, contains_char, member,
}
use s32ftp.Keys.{slash, clean_ftp_path, join_root, dir_key, relative_name, copy_source, root_path}
use s32ftp.Errors.{
  Errno, eexist, eacces, enotdir, enotempty, eisdir, einval, S3Error, Cause, errno, not_exist,
  read_only, Error, path_error, s3_error, diverged, Result, ok, err, is_not_exist,
}
use s32ftp.Action.{Act, ret, throw, ◌>>=◌, ◌>>◌, call, observe, guard}
use s32ftp.Service.{Service, Entry, Page, ListRequest}
use s32ftp.Info.{FileInfo, new_dir_info, new_file_info, size_of, time_of, put_object_input}
use s32ftp.Fs.{Fs, key, key_dir, list_request, nonempty, stat, head_size, prefix_has_objects}

-- The error for a mutation of a read-only view: FS.readOnlyErr.
abbrev pub read_only_err : String → Str → Error
read_only_err op name = path_error op name read_only

abbrev pub keys_of : List Entry → List Str
keys_of [] = []
keys_of (o ∷ rest) = o.key ∷ keys_of rest

-- Whether a listed key is not the marker itself.
unfoldable pub has_other : Str → List Entry → Bool
unfolding str_eq
has_other prefix [] = false
has_other prefix (o ∷ rest) = not (str_eq o.key prefix) || has_other prefix rest

abbrev pub is_none {ℓ} : {A : Type ℓ} → Option A → Bool
is_none none = true
is_none (some a) = false

abbrev pub batch_size : ℕ
batch_size = 1000

abbrev pub from_token : Str → Option Str → ListRequest
from_token prefix token = record {
  prefix = prefix;
  delimiter = none;
  max_keys = none;
  token = token;
}

abbrev pub batch_at : ℕ → List Str → List Str
batch_at start keys = take (min (start + batch_size) (length keys) - start) (drop start keys)

module _ (S : Service) where
  open S use {World, list_objects, put_object, copy_object, delete_object, delete_objects}

  -- FS.removeKey.
  unfoldable pub remove_key : Fs → Str → Act World (Unit {0})
  remove_key f k = call (delete_object f.bucket k)

  -- FS.copyKey.
  unfoldable pub copy_key : Fs → Str → Str → Act World (Unit {0})
  copy_key f from to = call (copy_object f.bucket to (copy_source f.bucket from))

  -- FS.listAllKeys: the loop over the pages.
  unfoldable pub list_pages : ℕ → Fs → Str → Option Str → List Str → Act World (List Str)
  list_pages zero f prefix token keys = throw diverged
  list_pages (suc fuel) f prefix token keys = do
    page ← call (list_objects f.bucket (from_token prefix token))
    let more = list_pages fuel f prefix page.next_token (keys ++ keys_of page.contents)
    elim page.is_truncated [ true ↦ more | false ↦ ret (keys ++ keys_of page.contents) ]

  unfoldable pub list_all_keys : ℕ → Fs → Str → Act World (List Str)
  unfolding list_pages
  list_all_keys fuel f prefix = list_pages fuel f prefix none []

  -- FS.deleteKeys: the loop over the batches. The keys that the service could not delete stand in
  -- its reply, which the code drops.
  unfoldable pub delete_from : ℕ → Fs → ℕ → List Str → Act World (Unit {0})
  delete_from zero f start keys = throw diverged
  delete_from (suc fuel) f start keys =
      let rest = delete_from fuel f (start + batch_size) keys in
      elim (ltb start (length keys)) [
        | true ↦ call (delete_objects f.bucket (batch_at start keys)) >>= λ _. rest
        | false ↦ ret tt
      ]

  unfoldable pub delete_keys : Fs → List Str → Act World (Unit {0})
  unfolding delete_from
  delete_keys f keys = delete_from (suc (length keys)) f 0 keys

  -- FS.Mkdir.
  unfoldable pub mkdir_clean : Fs → Str → Act World (Unit {0})
  unfolding head_size prefix_has_objects
  mkdir_clean f clean = do
    size ← head_size S f (key f clean)
    guard (is_none size) (path_error "mkdir" clean (errno eexist))
    exists ← prefix_has_objects S f (key_dir f clean)
    guard (not exists) (path_error "mkdir" clean (errno eexist))
    if not f.dir_marker
        then ret tt
        else call
            (put_object f.bucket (key_dir f clean) (record { body = []; content_type = none }))

  unfoldable pub mkdir : Fs → Str → Act World (Unit {0})
  unfolding mkdir_clean str_eq
  mkdir f name =
      let clean = clean_ftp_path name in
      if f.read_only
      then throw (read_only_err "mkdir" name)
      else if str_eq clean root_path
      then ret tt
      else mkdir_clean f clean

  -- FS.MkdirAll.
  abbrev pub mkdir_unless : Fs → Str → Result Error FileInfo → Act World (Unit {0})
  mkdir_unless f clean (ok info) = ret tt
  mkdir_unless f clean (err e) = mkdir f clean

  unfoldable pub mkdir_all : Fs → Str → Act World (Unit {0})
  unfolding mkdir stat str_eq
  mkdir_all f name =
      let clean = clean_ftp_path name in
      if f.read_only
      then throw (read_only_err "mkdir" name)
      else if str_eq clean root_path
      then ret tt
      else observe (stat S f clean) >>= mkdir_unless f clean

  -- FS.RemoveDir.
  unfoldable pub remove_dir_clean : Fs → Str → Act World (Unit {0})
  unfolding stat has_other
  remove_dir_clean f clean = do
    info ← stat S f clean
    guard info.is_dir (path_error "rmdir" clean (errno enotdir))
    page ← call (list_objects f.bucket (list_request (key_dir f clean) (some 2)))
    guard (not (has_other (key_dir f clean) page.contents))
        (path_error "rmdir" clean (errno enotempty))
    call (delete_object f.bucket (key_dir f clean))

  unfoldable pub remove_dir : Fs → Str → Act World (Unit {0})
  unfolding remove_dir_clean str_eq
  remove_dir f name =
      let clean = clean_ftp_path name in
      if f.read_only
      then throw (read_only_err "rmdir" name)
      else if str_eq clean root_path
      then throw (path_error "rmdir" clean (errno eacces))
      else remove_dir_clean f clean

  -- FS.Remove.
  abbrev pub remove_found : Fs → Str → FileInfo → Act World (Unit {0})
  remove_found f clean info =
      if info.is_dir then remove_dir f clean else call (delete_object f.bucket (key f clean))

  unfoldable pub remove : Fs → Str → Act World (Unit {0})
  unfolding stat remove_dir str_eq
  remove f name =
      let clean = clean_ftp_path name in
      if f.read_only
      then throw (read_only_err "remove" name)
      else if str_eq clean root_path
      then throw (path_error "remove" clean (errno eacces))
      else stat S f clean >>= remove_found f clean

  -- FS.RemoveAll. `present` is `statErr == nil`.
  unfoldable pub remove_tree : ℕ → Fs → Str → Bool → Act World (Unit {0})
  unfolding list_all_keys delete_keys remove_key
  remove_tree fuel f clean present = do
    keys ← list_all_keys fuel f (key_dir f clean)
    delete_keys f keys
    if present then remove_key f (key_dir f clean) else ret tt

  abbrev pub remove_seen : ℕ → Fs → Str → Result Error FileInfo → Act World (Unit {0})
  remove_seen fuel f clean (ok info) =
      if not info.is_dir then remove_key f (key f clean) else remove_tree fuel f clean true
  remove_seen fuel f clean (err e) =
      if not (is_not_exist e) then throw e else remove_tree fuel f clean false

  unfoldable pub remove_all : ℕ → Fs → Str → Act World (Unit {0})
  unfolding stat remove_tree remove_key is_not_exist str_eq
  remove_all fuel f name =
      let clean = clean_ftp_path name in
      if f.read_only
      then throw (read_only_err "remove" name)
      else if str_eq clean root_path
      then throw (path_error "remove" clean (errno eacces))
      else observe (stat S f clean) >>= remove_seen fuel f clean
