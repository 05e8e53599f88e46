-- ===== src/Tests/Effects.antt =====
-- Removing a file of a small bucket, and making a directory.
use s32ftp.Prelude.{◌≡◌, refl}
use s32ftp.Text.{codes, str_eq}
use s32ftp.Keys.{clean_ftp_path, join_root, dir_key}
use s32ftp.Errors.{ok}
use s32ftp.Action.{◌>>=◌, ◌>>◌, guard, attempt, ret, call}
use s32ftp.Info.{new_file_info, new_dir_info}
use s32ftp.Service.Memory.{Store, find, page_of, put, memory}
use s32ftp.Service.Memory.Laws.{memory-IsConfined}
use s32ftp.Service.Memory.Transfers.{memory-IsFaithful, memory-IsObedient}
use s32ftp.Fs.{key, key_dir, stat}
use s32ftp.Dir.{remove, remove_dir, mkdir}
use s32ftp.Dir.Effects.{IsOnlyGone, removed_key, remove_dir_lem, remove_lem}
use s32ftp.Dir.Markers.{IsMade, mkdir_lem}
use s32ftp.Service.Memory.Thorough.{memory-IsThorough}
use s32ftp.Tests.Sessions.{shelf, view}

abbrev less : Store
less = (remove (memory 2) view (codes "a") shelf).1

abbrev more : Store
more = (mkdir (memory 2) view (codes "n") shelf).1

removes : remove (memory 2) view (codes "a") shelf ≡ (ok tt, less)
unfolding remove clean_ftp_path ◌>>=◌ join_root attempt find ret new_file_info call
removes = refl

makes : mkdir (memory 2) view (codes "n") shelf ≡ (ok tt, more)
unfolding mkdir clean_ftp_path ◌>>=◌ attempt find join_root ret ◌>>◌ guard call page_of dir_key
makes = refl

cleaned : clean_ftp_path (clean_ftp_path (codes "a")) ≡ clean_ftp_path (codes "a")
unfolding clean_ftp_path
cleaned = refl

remove_lem_example :
    IsOnlyGone
      (memory 2)
      find
      view
      (removed_key view
        (clean_ftp_path (codes "a"))
        (find shelf (codes "b") (key view (clean_ftp_path (codes "a")))))
      shelf
      less
remove_lem_example =
    remove_lem (memory 2) find (memory-IsConfined 2) (memory-IsObedient 2) view
      (memory-IsFaithful 2) (codes "a") shelf less cleaned removes

-- The directory that was made is removed again.
abbrev back : Store
back = (remove_dir (memory 2) view (codes "n") more).1

removes_dir : remove_dir (memory 2) view (codes "n") more ≡ (ok tt, back)
unfolding put remove_dir mkdir clean_ftp_path ◌>>=◌ attempt find join_root ret ◌>>◌ guard call
    page_of dir_key new_dir_info stat
removes_dir = refl

back-IsOnlyGone :
    IsOnlyGone (memory 2) find view (key_dir view (clean_ftp_path (codes "n"))) more back
back-IsOnlyGone =
    remove_dir_lem (memory 2) find (memory-IsConfined 2) (memory-IsObedient 2) view
      (memory-IsFaithful 2) (codes "n") more back removes_dir

mkdir_lem_example : IsMade (memory 2) find view (clean_ftp_path (codes "n")) shelf more
unfolding clean_ftp_path str_eq
mkdir_lem_example =
    mkdir_lem (memory 2) find (memory-IsConfined 2) (memory-IsThorough 1) (memory-IsFaithful 2)
      (memory-IsObedient 2) view (codes "n") shelf more refl makes
