-- ===== src/Tests/Paths.antt =====
-- The cases of internal/s3fs/path_test.go, and the theorems on keys at concrete paths.
use s32ftp.Prelude.{◌≡◌, refl, ◌↔◌, inl, inr, true, [], ◌++◌}
use s32ftp.Text.{Str, codes, has_prefix, join, ends_with, contains_char}
use s32ftp.Keys.{slash, clean_ftp_path, join_root, dir_key, relative_name, copy_source, base}
use s32ftp.Keys.Clean.{IsClean, clean_ftp_path-IsClean, clean_ftp_path_idem}
use s32ftp.Keys.Root.{
  elements_of, spell_dir, IsBelow, join_root_lem, join_root-injective, dir_key_lem, dir_key-IsBelow,
  keys_in_root, relative_name-append,
}

abbrev path : Str
path = codes "/a/../b//c"

clean_cases :
    (clean_ftp_path [] ≡ codes "/")
    × (clean_ftp_path (codes "/") ≡ codes "/")
    × (clean_ftp_path (codes ".") ≡ codes "/")
    × (clean_ftp_path (codes "a") ≡ codes "/a")
    × (clean_ftp_path (codes "/a/../b") ≡ codes "/b")
    × (clean_ftp_path (codes "/../../ etc") ≡ codes "/ etc")
    × (clean_ftp_path (codes "/a/b/") ≡ codes "/a/b")
unfolding clean_ftp_path
clean_cases = (refl, refl, refl, refl, refl, refl, refl)

key_cases :
    (join_root [] (codes "/") ≡ [])
    × (join_root (codes "root/") (codes "/a/b") ≡ codes "root/a/b")
    × (dir_key [] (codes "/a/b") ≡ codes "a/b/")
    × (dir_key (codes "root/") (codes "/") ≡ codes "root/")
    × (relative_name (codes "a/") (codes "a/b/c") ≡ codes "b/c")
    × (relative_name (codes "a/") (codes "a/") ≡ [])
    × (copy_source (codes "bucket") (codes "a b/c#d.txt") ≡ codes "bucket/a%20b/c%23d.txt")
    × (base (codes "/a/b") ≡ codes "b")
unfolding join_root dir_key relative_name copy_source base
key_cases = (refl, refl, refl, refl, refl, refl, refl, refl)

-- A second cleaning may find white space that the first one has laid bare.
not_idempotent :
    (clean_ftp_path (codes "/a /.") ≡ codes "/a ")
    × (clean_ftp_path (codes "/a ") ≡ codes "/a")
    × (clean_ftp_path (codes "/ /") ≡ codes "/ ")
    × (clean_ftp_path (codes "/ ") ≡ codes "/")
unfolding clean_ftp_path
not_idempotent = (refl, refl, refl, refl)

clean_ftp_path-IsClean_example : IsClean (clean_ftp_path path)
clean_ftp_path-IsClean_example = clean_ftp_path-IsClean path

clean_ftp_path_idem_example : clean_ftp_path (clean_ftp_path path) ≡ clean_ftp_path path
unfolding clean_ftp_path
clean_ftp_path_idem_example = clean_ftp_path_idem path refl

join_root_at_path : join_root (codes "root/") path ≡ codes "root/" ++ join slash (elements_of path)
join_root_at_path = join_root_lem (codes "root/") path

join_root-injective_example :
    (join_root (codes "r/") path ≡ join_root (codes "r/") (codes "b/c"))
    ↔ (clean_ftp_path path ≡ clean_ftp_path (codes "b/c"))
join_root-injective_example = join_root-injective (codes "r/") path (codes "b/c")

dir_key_of_path : dir_key (codes "r/") path ≡ codes "r/" ++ spell_dir (elements_of path)
unfolding ends_with
dir_key_of_path = dir_key_lem (codes "r/") path (inr refl)

dir_key-IsBelow_example :
    (has_prefix (dir_key [] (codes "/b")) (dir_key [] path) ≡ true)
    ↔ IsBelow (elements_of (codes "/b")) (elements_of path)
dir_key-IsBelow_example = dir_key-IsBelow [] (codes "/b") path (inl refl)

keys_of_path :
    (has_prefix (codes "r/") (join_root (codes "r/") path) ≡ true)
    × (has_prefix (codes "r/") (dir_key (codes "r/") path) ≡ true)
keys_of_path = keys_in_root (codes "r/") path

relative_names :
    (relative_name (codes "a/") (codes "a/b") ≡ codes "b")
    × (relative_name (codes "a/") (codes "a/b/") ≡ codes "b")
unfolding contains_char
relative_names = relative_name-append (codes "a/") b'b' [] refl
