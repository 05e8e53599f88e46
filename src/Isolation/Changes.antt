-- ===== src/Isolation/Changes.antt =====
-- The changing operations of internal/s3fs leave the objects outside the root alone.
use s32ftp.Prelude.{ℕ, Bool, true, false, not, ◌||◌, List, [], ◌∷◌, All}
use s32ftp.Text.{Str, str_eq, has_prefix, is_nil}
use s32ftp.Text.Laws.{has_prefix-append, has_prefix_trans}
use s32ftp.Keys.{clean_ftp_path, root_path}
use s32ftp.Errors.{Error, Result, ok, err, is_not_exist}
use s32ftp.Action.{◌>>=◌, call, observe}
use s32ftp.Action.Rules
use s32ftp.Action.Rules.{Any, Keeps, any_rules}
use s32ftp.Service.{Service}
use s32ftp.Service.Lawful.{View, IsConfined}
use s32ftp.Info.{FileInfo}
use s32ftp.Fs
use s32ftp.Fs.{Fs, key, key_dir}
use s32ftp.Dir
use s32ftp.Dir.{keys_of, batch_at, batch_size}
use s32ftp.Rename
use s32ftp.Isolation.Calls.{Untouched, InRoot}
use s32ftp.Isolation.Calls
use s32ftp.Isolation.Loops

target-InRoot : (f : Fs) (old new k : Str) → InRoot f new → InRoot f (Rename.target old new k)
unfolding Rename.target
target-InRoot f old new k r = has_prefix_trans f.root_prefix new _ r (has_prefix-append new _)

module _ (S : Service) (at : View S) (L : IsConfined S at) (f : Fs) (start : S.World) where
  abbrev Same : S.World → Type 0
  Same = Untouched S at f start

  put_key_dir-Keeps : (clean : Str) → Keeps Same Any (Dir.mkdir_clean S f clean)
  put_key_dir-Keeps clean = Calls.mkdir_clean-Keeps S at L f start clean

  pub mkdir-Keeps : (name : Str) → Keeps Same Any (Dir.mkdir S f name)
  unfolding Dir.mkdir
  mkdir-Keeps name = search (any_rules, put_key_dir-Keeps)

  stat-Any : (name : Str) → Keeps Same Any (Fs.stat S f name)
  stat-Any name = Calls.stat-Keeps S at L f start name

  pub mkdir_all-Keeps : (name : Str) → Keeps Same Any (Dir.mkdir_all S f name)
  unfolding Dir.mkdir_all
  mkdir_all-Keeps name = search (any_rules, observed)
    where
      unless :
          (clean : Str) (r : Result Error FileInfo) → Keeps Same Any (Dir.mkdir_unless S f clean r)
      unless clean (ok info) = search any_rules
      unless clean (err e) = mkdir-Keeps clean

      observed :
          (clean : Str)
          → Keeps Same Any (observe (Fs.stat S f clean) >>= Dir.mkdir_unless S f clean)
      observed clean = Rules.bind-Any Same (search (any_rules, stat-Any)) (unless clean)

  delete_dir : (clean : Str) → Keeps Same Any (call (S.delete_object f.bucket (key_dir f clean)))
  delete_dir clean = Calls.delete-Keeps S at L f start _ (Calls.key_dir-InRoot S at L f start clean)

  delete_file : (clean : Str) → Keeps Same Any (call (S.delete_object f.bucket (key f clean)))
  delete_file clean = Calls.delete-Keeps S at L f start _ (Calls.key-InRoot S at L f start clean)

  remove_dir_clean-Keeps : (clean : Str) → Keeps Same Any (Dir.remove_dir_clean S f clean)
  unfolding Dir.remove_dir_clean
  remove_dir_clean-Keeps clean = Rules.bind-Any Same (stat-Any clean) λ info.
      Rules.then-Any Same (Rules.guard-Any Same _ _) (
        Rules.bind-Any Same (Calls.list-Any S at L f start _)
          λ page. Rules.then-Any Same (Rules.guard-Any Same _ _) (delete_dir clean))

  pub remove_dir-Keeps : (name : Str) → Keeps Same Any (Dir.remove_dir S f name)
  unfolding Dir.remove_dir
  remove_dir-Keeps name = search (any_rules, remove_dir_clean-Keeps)

  pub remove-Keeps : (name : Str) → Keeps Same Any (Dir.remove S f name)
  unfolding Dir.remove
  remove-Keeps name = search (any_rules, stat-Any, remove_dir-Keeps, delete_file)

  remove_tree-Keeps :
      (fuel : ℕ) (clean : Str) (present : Bool)
      → Keeps Same Any (Dir.remove_tree S fuel f clean present)
  unfolding Dir.remove_tree Dir.remove_key
  remove_tree-Keeps fuel clean present =
      Rules.>>=-Keeps Same (All (InRoot f)) Any
        (Loops.list_all_keys-Keeps S at L f start fuel _
          (Calls.key_dir-InRoot S at L f start clean))
        λ keys h.
          Rules.then-Any Same (Loops.delete_keys-Keeps S at L f start keys h)
            (search (any_rules, delete_dir))

  remove_seen-Keeps :
      (fuel : ℕ) (clean : Str) (r : Result Error FileInfo)
      → Keeps Same Any (Dir.remove_seen S fuel f clean r)
  unfolding Dir.remove_key
  remove_seen-Keeps fuel clean (ok info) =
      Rules.if_Any Same (not info.is_dir) (delete_file clean) (remove_tree-Keeps fuel clean true)
  remove_seen-Keeps fuel clean (err e) =
      Rules.if_Any Same (not (is_not_exist e)) (search any_rules)
        (remove_tree-Keeps fuel clean false)

  pub remove_all-Keeps : (fuel : ℕ) (name : Str) → Keeps Same Any (Dir.remove_all S fuel f name)
  unfolding Dir.remove_all
  remove_all-Keeps fuel name = search (any_rules, observed)
    where
      observed :
          (clean : Str)
          → Keeps Same Any (observe (Fs.stat S f clean) >>= Dir.remove_seen S fuel f clean)
      observed clean =
          Rules.bind-Any Same (search (any_rules, stat-Any)) (remove_seen-Keeps fuel clean)

  copy_key-Keeps : (from to : Str) → InRoot f to → Keeps Same Any (Dir.copy_key S f from to)
  unfolding Dir.copy_key
  copy_key-Keeps from to r = Calls.copy-Keeps S at L f start to _ r

  rename_file-Keeps : (old new : Str) → Keeps Same Any (Rename.rename_file S f old new)
  unfolding Rename.rename_file Dir.remove_key
  rename_file-Keeps old new =
      Rules.bind-Any Same (Calls.prefix_has_objects-Keeps S at L f start _) λ exists.
        Rules.then-Any Same (Rules.guard-Any Same _ _) (
          Rules.then-Any Same (copy_key-Keeps _ _ (Calls.key-InRoot S at L f start new))
            (delete_file old))

  copy_all-Keeps :
      (old new : Str) (keys : List Str)
      → InRoot f new
      → Keeps Same Any (Rename.copy_all S f old new keys)
  unfolding Rename.copy_all
  copy_all-Keeps old new [] r = search any_rules
  copy_all-Keeps old new (k ∷ keys) r =
      Rules.bind-Any Same (copy_key-Keeps k _ (target-InRoot f old new k r))
        (λ _. copy_all-Keeps old new keys r)

  rename_dir-Keeps :
      (fuel : ℕ) (old new : Str) → Keeps Same Any (Rename.rename_dir S fuel f old new)
  unfolding Rename.rename_dir
  rename_dir-Keeps fuel old new =
      Rules.if_Any Same (is_nil (key_dir f old)) (Rules.throw_any Same Any _) (
        Rules.if_Any Same (has_prefix (key_dir f old) (key_dir f new)) (Rules.throw_any Same Any _)
          (Rules.bind-Any Same (Calls.prefix_has_objects-Keeps S at L f start _)
            λ exists. Rules.then-Any Same (Rules.guard-Any Same _ _) tree))
    where
      tree : Keeps Same Any (Rename.rename_tree S fuel f (key_dir f old) (key_dir f new))
      tree =
          Rules.>>=-Keeps Same (All (InRoot f)) Any
            (Loops.list_all_keys-Keeps S at L f start fuel _
              (Calls.key_dir-InRoot S at L f start old))
            λ keys h.
              Rules.then-Any Same
                (copy_all-Keeps _ _ keys (Calls.key_dir-InRoot S at L f start new))
                (Loops.delete_keys-Keeps S at L f start keys h)

  pub rename-Keeps : (fuel : ℕ) (old new : Str) → Keeps Same Any (Rename.rename S fuel f old new)
  unfolding Rename.rename
  rename-Keeps fuel old new = Rules.if_Any Same f.read_only (Rules.throw_any Same Any _) (
      Rules.if_Any Same (str_eq (clean_ftp_path old) (clean_ftp_path new)) (Rules.ret-Any Same tt) (
        Rules.if_Any Same
          (str_eq (clean_ftp_path old) root_path || str_eq (clean_ftp_path new) root_path)
          (Rules.throw_any Same Any _) (Rules.bind-Any Same (stat-Any (clean_ftp_path old)) found)))
    where
      found :
          (info : FileInfo)
          → Keeps Same Any
              (Rename.rename_found S fuel f (clean_ftp_path old) (clean_ftp_path new) info)
      found info =
          Rules.if_Any Same (not info.is_dir) (rename_file-Keeps _ _) (rename_dir-Keeps fuel _ _)
