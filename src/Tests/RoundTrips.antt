-- ===== src/Tests/RoundTrips.antt =====
-- A file that is appended to, then read back from its second byte on, and listed.
use mathlib.Core.Path.{subst}
use s32ftp.Prelude.{ℕ, ◌≡◌, refl, sym, true, false, List, [], ◌∷◌, ◌++◌, some, none, drop, arith}
use s32ftp.Prelude.Int.{pos}
use s32ftp.Text.{codes, contains_char, member}
use s32ftp.Errors.{ok, eof}
use s32ftp.Keys.{clean_ftp_path, join_root, dir_key}
use s32ftp.Info.{FileInfo, new_dir_info, new_file_info, size_of, time_of}
use s32ftp.Listing.{names_of, read_dir}
use s32ftp.Session.Listed.{upload_listed}
use s32ftp.Service.Memory.Delimited.{memory-IsDelimiting}
use s32ftp.Action.{◌>>=◌, attempt, ret, call}
use s32ftp.Fs.{key, key_dir}
use s32ftp.Service.Memory.{Store, find, memory, page_of, put}
use s32ftp.Service.Memory.Laws.{memory-IsConfined}
use s32ftp.Service.Memory.Transfers.{
  memory-IsFaithful, memory-Answers, put_at_once, put_at_once-IsUploader,
}
use s32ftp.Download.{Download, Delivery, part, open_download}
use s32ftp.Download.Complete.{read_to_end}
use s32ftp.Upload.{object_content_type}
use s32ftp.Upload.Kept.{kept_part}
use s32ftp.Upload.Schedule.{run}
use s32ftp.Session.RoundTrip.{round_trip}
use s32ftp.Tests.Sessions.{shelf, view}
use s32ftp.Tests.Uploads
use s32ftp.Tests.Uploads.{plain, appending, sent, state}

abbrev store : Store
store = (state sent).world

abbrev reader : Download
reader = record {
  fs = view;
  name = codes "/a";
  key = codes "r/a";
  size = 4;
  mod_time = 0;
  position = 1;
  body = none;
  is_closed = false;
}

abbrev slow : ℕ → Delivery
slow n = part 2

-- The objects after the upload.
abbrev objects : Store
objects = put (codes "b") (codes "r/a") (record { body = codes "1xyz"; modified = 0 }) shelf

is_objects : store ≡ objects
unfolding run call find join_root object_content_type
is_objects = refl

opens_objects : open_download (memory 2) view (codes "/a") (pos 1) objects ≡ (ok reader, objects)
unfolding open_download ◌>>=◌ attempt find join_root ret call put
opens_objects = refl

opens : open_download (memory 2) view (codes "/a") (pos 1) store ≡ (ok reader, store)
opens =
    subst (λ s. open_download (memory 2) view (codes "/a") (pos 1) s ≡ (ok reader, s))
      (sym is_objects) opens_objects

round_trip_example : read_to_end (memory 2) slow 3 5 reader store ≡ (
  drop 1 (
      kept_part appending (pos 0) (find shelf (codes "b") (key view (codes "/a")))
      ++ (state sent).accepted),
  some eof,
)
unfolding run find join_root call
round_trip_example =
    round_trip (memory 2) find (memory-IsConfined 2) (memory-IsFaithful 2) (put_at_once 2)
      (put_at_once-IsUploader 2) (memory-Answers 2) plain view (codes "/a") appending (pos 0)
      (pos 1) shelf shelf store Uploads.handle sent reader slow 2 5 Uploads.opens
      Uploads.closed_well opens (λ i. refl) (omega arith)

abbrev seen : List FileInfo
seen = new_dir_info (codes "d") ∷ new_file_info (codes "a") 4 0 ∷ []

lists : read_dir (memory 2) 5 view (codes "/") store ≡ (ok seen, store)
unfolding read_dir ◌>>=◌ clean_ftp_path ret call page_of dir_key new_file_info new_dir_info size_of
    time_of run find join_root put object_content_type
lists = refl

key_of_a : key view (codes "/a") ≡ key_dir view (clean_ftp_path (codes "/")) ++ codes "a"
unfolding clean_ftp_path join_root dir_key
key_of_a = refl

upload_listed_example : member (codes "a") (names_of seen) ≡ true
unfolding contains_char
upload_listed_example =
    upload_listed (memory 2) find (memory-IsConfined 2) (memory-IsFaithful 2)
      (memory-IsDelimiting 2) (put_at_once 2) (put_at_once-IsUploader 2) plain view (codes "/a")
      (codes "/") (codes "a") appending (pos 0) shelf shelf store Uploads.handle sent 5 seen
      (refl, refl) key_of_a Uploads.opens Uploads.closed_well lists
