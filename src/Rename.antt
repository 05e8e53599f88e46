-- ===== src/Rename.antt =====
-- FS.Rename of internal/s3fs/dir.go: copy and delete, for one object or for all keys under a prefix.
pub mod Copied
pub mod Moved
pub mod Outcome
pub mod Frames
pub mod Kept
pub mod Safe
use s32ftp.Prelude.{ℕ, not, ◌||◌, List, [], ◌∷◌, ◌++◌, if◌then◌else◌}
use s32ftp.Text.{Str, is_nil, str_eq, has_prefix, trim_prefix}
use s32ftp.Keys.{clean_ftp_path, root_path}
use s32ftp.Errors.{eacces, enotempty, eisdir, einval, errno, path_error}
use s32ftp.Action.{Act, ret, throw, ◌>>=◌, ◌>>◌, guard}
use s32ftp.Service.{Service}
use s32ftp.Info.{FileInfo}
use s32ftp.Fs.{Fs, key, key_dir, stat, prefix_has_objects}
use s32ftp.Dir.{read_only_err, copy_key, remove_key, list_all_keys, delete_keys}

-- Where a key under the old prefix goes.
unfoldable pub target : Str → Str → Str → Str
unfolding trim_prefix
target old_prefix new_prefix k = new_prefix ++ trim_prefix old_prefix k

module _ (S : Service) where
  open S use {World}

  -- The branch of a file.
  unfoldable pub rename_file : Fs → Str → Str → Act World (Unit {0})
  unfolding prefix_has_objects copy_key remove_key
  rename_file f old_clean new_clean = do
    exists ← prefix_has_objects S f (key_dir f new_clean)
    guard (not exists) (path_error "rename" new_clean (errno eisdir))
    copy_key S f (key f old_clean) (key f new_clean)
    remove_key S f (key f old_clean)

  -- The loop that copies the keys of a directory.
  unfoldable pub copy_all : Fs → Str → Str → List Str → Act World (Unit {0})
  unfolding copy_key target
  copy_all f old_prefix new_prefix [] = ret tt
  copy_all f old_prefix new_prefix (k ∷ keys) =
      copy_key S f k (target old_prefix new_prefix k) >>= λ _. copy_all f old_prefix new_prefix keys

  -- The branch of a directory.
  unfoldable pub rename_tree : ℕ → Fs → Str → Str → Act World (Unit {0})
  unfolding prefix_has_objects list_all_keys copy_all delete_keys
  rename_tree fuel f old_prefix new_prefix = do
    keys ← list_all_keys S fuel f old_prefix
    copy_all f old_prefix new_prefix keys
    delete_keys S f keys

  unfoldable pub rename_dir : ℕ → Fs → Str → Str → Act World (Unit {0})
  unfolding rename_tree prefix_has_objects has_prefix
  rename_dir fuel f old_clean new_clean =
      let old_prefix = key_dir f old_clean in
      let new_prefix = key_dir f new_clean in
      if is_nil old_prefix
      then throw (path_error "rename" old_clean (errno eacces))
      else if has_prefix old_prefix new_prefix
      then throw (path_error "rename" new_clean (errno einval))
      else (do
        exists ← prefix_has_objects S f new_prefix
        guard (not exists) (path_error "rename" new_clean (errno enotempty))
        rename_tree fuel f old_prefix new_prefix)

  abbrev pub rename_found : ℕ → Fs → Str → Str → FileInfo → Act World (Unit {0})
  rename_found fuel f old_clean new_clean info =
      if not info.is_dir
      then rename_file f old_clean new_clean
      else rename_dir fuel f old_clean new_clean

  -- FS.Rename.
  unfoldable pub rename : ℕ → Fs → Str → Str → Act World (Unit {0})
  unfolding rename_file rename_dir stat str_eq
  rename fuel f oldname newname =
      let old_clean = clean_ftp_path oldname in
      let new_clean = clean_ftp_path newname in
      if f.read_only
      then throw (read_only_err "rename" oldname)
      else if str_eq old_clean new_clean
      then ret tt
      else if str_eq old_clean root_path || str_eq new_clean root_path
      then throw (path_error "rename" old_clean (errno eacces))
      else stat S f old_clean >>= rename_found fuel f old_clean new_clean
