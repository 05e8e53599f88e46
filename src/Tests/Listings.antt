-- ===== src/Tests/Listings.antt =====
-- Listings and deletions on a small bucket whose pages hold two entries.
use s32ftp.Prelude.{◌≡◌, refl, arith, true, false, List, [], ◌∷◌, some, none, All}
use s32ftp.Text.{Str, codes}
use s32ftp.Fs.{key_dir, stat}
use s32ftp.Errors.{ok}
use s32ftp.Info.{FileInfo, new_dir_info, new_file_info, size_of, time_of}
use s32ftp.Action.{◌>>=◌, ret, call}
use s32ftp.Keys.{clean_ftp_path, dir_key}
use s32ftp.Service.{Page, Entry}
use s32ftp.Service.Memory.{find, memory, page_of}
use s32ftp.Service.Memory.Laws.{memory-IsConfined}
use s32ftp.Service.Memory.Transfers.{memory-IsFaithful}
use s32ftp.Service.Memory.Delimited.{memory-IsDelimiting}
use s32ftp.Listing.Complete.{ShowsAll, read_dir-ShowsAll}
use s32ftp.Listing.{read_dir, delimited}
use s32ftp.Listing.Ends.{last_sent, next_sent, read_dir_lem}
use s32ftp.Listing.Pages.{IsListing, read_dir-IsListing}
use s32ftp.Dir.{list_all_keys, delete_keys, from_token}
use s32ftp.Dir.Loops.{
  Listed, last_page, next_page, IsBatch, join_batches, send_batches, delete_keys_lem,
  list_all_keys_lem,
}
use s32ftp.Tests.Sessions.{shelf, view}

abbrev entry : Str → Entry
entry k = record { key = k; size = some 1; last_modified = some 1 }

abbrev listing : List FileInfo
listing = new_dir_info (codes "d") ∷ new_file_info (codes "a") 1 1 ∷ []

listing_lem : (read_dir (memory 2) 5 view (codes "/") shelf).0 ≡ ok listing
unfolding read_dir ◌>>=◌ clean_ftp_path ret call page_of dir_key new_file_info new_dir_info size_of
    time_of
listing_lem = refl

read_dir-IsListing_example : IsListing listing
read_dir-IsListing_example = read_dir-IsListing (memory 2) 5 view (codes "/") shelf listing_lem

abbrev first : Page
first = record {
  contents = entry (codes "r/a") ∷ entry (codes "r/d/x") ∷ [];
  common_prefixes = [];
  is_truncated = true;
  next_token = some (0 ∷ 0 ∷ []);
}

abbrev second : Page
second = record {
  contents = entry (codes "r/d/y") ∷ [];
  common_prefixes = [];
  is_truncated = false;
  next_token = some (0 ∷ 0 ∷ 0 ∷ 0 ∷ []);
}

first_reply :
    (memory 2).list_objects view.bucket (from_token (codes "r/") none) shelf ≡ (ok first, shelf)
unfolding page_of
first_reply = refl

second_reply :
    (memory 2).list_objects view.bucket (from_token (codes "r/") first.next_token) shelf
    ≡ (ok second, shelf)
unfolding page_of
second_reply = refl

two_pages :
    Listed
      (memory 2)
      view
      (codes "r/")
      shelf
      none
      2
      (codes "r/a" ∷ codes "r/d/x" ∷ codes "r/d/y" ∷ [])
      shelf
two_pages = next_page first first_reply refl (last_page second second_reply refl)

list_all_keys_lem_example :
    list_all_keys (memory 2) 2 view (codes "r/") shelf
    ≡ (ok (codes "r/a" ∷ codes "r/d/x" ∷ codes "r/d/y" ∷ []), shelf)
list_all_keys_lem_example =
    list_all_keys_lem (memory 2) view (codes "r/") 2 2 shelf shelf
      (codes "r/a" ∷ codes "r/d/x" ∷ codes "r/d/y" ∷ []) two_pages (omega arith)

delete_keys_lem_example :
    (bs : List (List Str)) × (join_batches bs ≡ codes "r/a" ∷ codes "r/d/x" ∷ [])
    × All IsBatch bs
    × (delete_keys (memory 2) view (codes "r/a" ∷ codes "r/d/x" ∷ [])
        ≡ send_batches (memory 2) view bs)
delete_keys_lem_example = delete_keys_lem (memory 2) view (codes "r/a" ∷ codes "r/d/x" ∷ [])

abbrev front : Page
front = record {
  contents = entry (codes "r/a") ∷ [];
  common_prefixes = codes "r/d/" ∷ [];
  is_truncated = true;
  next_token = some (0 ∷ 0 ∷ []);
}

abbrev back : Page
back = record {
  contents = [];
  common_prefixes = codes "r/d/" ∷ [];
  is_truncated = false;
  next_token = some (0 ∷ 0 ∷ 0 ∷ 0 ∷ []);
}

front_reply :
    (memory 2).list_objects view.bucket
      (delimited (key_dir view (clean_ftp_path (codes "/"))) none)
      shelf
    ≡ (ok front, shelf)
unfolding page_of clean_ftp_path dir_key
front_reply = refl

back_reply :
    (memory 2).list_objects view.bucket
      (delimited (key_dir view (clean_ftp_path (codes "/"))) front.next_token)
      shelf
    ≡ (ok back, shelf)
unfolding page_of clean_ftp_path dir_key
back_reply = refl

root_stat :
    stat (memory 2) view (clean_ftp_path (codes "/")) shelf ≡ (ok (new_dir_info (codes "/")), shelf)
unfolding stat clean_ftp_path ret
root_stat = refl

read_dir_lem_example :
    (infos : List FileInfo) × (read_dir (memory 2) 5 view (codes "/") shelf ≡ (ok infos, shelf))
    × IsListing infos
    × ShowsAll (memory 2) find (codes "b") (key_dir view (clean_ftp_path (codes "/"))) shelf infos
read_dir_lem_example =
    read_dir_lem (memory 2) find (memory-IsConfined 2) (memory-IsFaithful 2) (memory-IsDelimiting 2)
      view (codes "/") 5 2 shelf shelf shelf (new_dir_info (codes "/")) (front ∷ back ∷ [])
      root_stat (next_sent front front_reply refl (last_sent back back_reply refl)) (omega arith)

read_all : read_dir (memory 2) 5 view (codes "/") shelf ≡ (ok listing, shelf)
unfolding read_dir ◌>>=◌ clean_ftp_path ret call page_of dir_key new_file_info new_dir_info size_of
    time_of
read_all = refl

read_dir-ShowsAll_example :
    ShowsAll (memory 2) find (codes "b") (key_dir view (clean_ftp_path (codes "/"))) shelf listing
read_dir-ShowsAll_example =
    read_dir-ShowsAll (memory 2) find (memory-IsConfined 2) (memory-IsFaithful 2)
      (memory-IsDelimiting 2) view 5 (codes "/") shelf shelf listing read_all
