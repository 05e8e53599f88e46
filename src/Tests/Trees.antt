-- ===== src/Tests/Trees.antt =====
-- Removing and renaming a file and a directory of a small bucket.
use s32ftp.Prelude.{ℕ, ◌≤◌, arith, ◌≡◌, refl, [], ◌∷◌}
use s32ftp.Text.{Str, codes, str_eq}
use s32ftp.Keys.{clean_ftp_path, copy_source}
use s32ftp.Keys.Source.{read_source, read_source-copy_source}
use s32ftp.Errors.{ok}
use s32ftp.Action.{◌>>=◌, ret, call}
use s32ftp.Service.Memory.{Store, find, page_of, memory}
use s32ftp.Service.Memory.Laws.{memory-IsConfined}
use s32ftp.Service.Memory.Transfers.{memory-IsFaithful}
use s32ftp.Service.Memory.Thorough.{memory-IsThorough, find-IsText}
use s32ftp.Fs.{key}
use s32ftp.Dir.{remove_all, list_all_keys}
use s32ftp.Dir.AllKeys.{AreKeysBelow, list_all_keys-AreKeysBelow}
use s32ftp.Dir.Success.{remove_all_ends}
use s32ftp.Service.Memory.Willing.{memory-IsWilling}
use s32ftp.Rename.{rename}
use s32ftp.Rename.Safe.{AllKept, rename_keeps}
use s32ftp.Tests.Sessions.{shelf, view}

abbrev bucket : Str
bucket = codes "b"

abbrev pruned : Store
pruned = (remove_all (memory 2) 5 view (codes "/d") shelf).1

abbrev moved : Store
moved = (rename (memory 2) 5 view (codes "/d") (codes "/e") shelf).1

cleaned : clean_ftp_path (clean_ftp_path (codes "/d")) ≡ clean_ftp_path (codes "/d")
unfolding clean_ftp_path
cleaned = refl

cleaned_new : clean_ftp_path (clean_ftp_path (codes "/e")) ≡ clean_ftp_path (codes "/e")
unfolding clean_ftp_path
cleaned_new = refl

list_all_keys-AreKeysBelow_example :
    AreKeysBelow
      (memory 2)
      find
      view
      (codes "r/d/")
      shelf
      (codes "r/d/x" ∷ codes "r/d/y" ∷ [])
      shelf
unfolding list_all_keys page_of ◌>>=◌ call ret
list_all_keys-AreKeysBelow_example =
    list_all_keys-AreKeysBelow (memory 2) find (memory-IsConfined 2) (memory-IsThorough 1) view 5
      (codes "r/d/") (codes "r/d/x" ∷ codes "r/d/y" ∷ []) shelf shelf refl

read_source-copy_source_example :
    read_source (copy_source (codes "b") (codes "a b/c%")) ≡ (codes "b", codes "a b/c%")
read_source-copy_source_example =
    read_source-copy_source (codes "b") (codes "a b/c%") (omega arith) (omega arith)

remove_all_ends_example :
    (n : ℕ) × ((fuel : ℕ)
      → n ≤ fuel
      → (v : Store) × (remove_all (memory 2) fuel view (codes "/d") shelf ≡ (ok tt, v)))
unfolding clean_ftp_path str_eq
remove_all_ends_example =
    remove_all_ends (memory 2) (memory-IsWilling 1) view (codes "/d") shelf refl refl

rename_keeps_example :
    AllKept
      (memory 2)
      find
      view
      (clean_ftp_path (codes "/d"))
      (clean_ftp_path (codes "/e"))
      shelf
      (rename (memory 2) 1 view (codes "/d") (codes "/e") shelf).1
      (find shelf bucket (key view (clean_ftp_path (codes "/d"))))
rename_keeps_example =
    rename_keeps (memory 2) find (memory-IsConfined 2) view (memory-IsThorough 1)
      (memory-IsFaithful 2) (omega arith) 1 (codes "/d") (codes "/e") shelf cleaned cleaned_new
      (λ k o h. find-IsText shelf (codes "b") k (omega arith) h)
