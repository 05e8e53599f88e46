-- ===== src/Tests/Transfers.antt =====
-- Sessions with transfers on a small bucket.
use s32ftp.Prelude.{◌≡◌, refl, false, List, [], ◌∷◌, if◌then◌else◌}
use s32ftp.Prelude.Int.{pos}
use s32ftp.Text.{codes, str_eq, has_prefix}
use s32ftp.Keys.{clean_ftp_path, root_path}
use s32ftp.Errors.{Error, Result, err, path_error, errno, eisdir, read_only}
use s32ftp.Service.Memory.{Store, find, memory}
use s32ftp.Service.Memory.Laws.{memory-IsConfined}
use s32ftp.Service.Memory.Transfers.{put_at_once, put_at_once-IsUploader}
use s32ftp.Upload.{Flags}
use s32ftp.Download.{last}
use s32ftp.Download.Finish.{fetch}
use s32ftp.Opening.{File, get_handle, open_file, create}
use s32ftp.Opening.Kinds.{IsGivenOut, open_file-IsGranted, get_handle_read_only}
use s32ftp.Session.{list_dir}
use s32ftp.Session.Transfers.{
  Order, plain, transfer, run_orders, run_orders-Untouched, run_orders_read_only,
}
use s32ftp.Tests.Sessions.{shelf, view, guest}
use s32ftp.Tests.Uploads
use s32ftp.Tests.Uploads.{appending, sent}

abbrev reading : Flags
reading = record { wronly = false; rdwr = false; append = false; create = false; trunc = false }

abbrev visit : List Order
visit =
    transfer (codes "/a") appending (pos 0) sent []
    ∷ plain (list_dir 5 (codes "/"))
    ∷ transfer (codes "/a") reading (pos 1) [] (fetch last 9 ∷ [])
    ∷ []

abbrev after : Store
after = run_orders (memory 2) (put_at_once 2) Uploads.plain view visit shelf

run_orders-Untouched_example :
    find after (codes "b") (codes "s/z") ≡ find shelf (codes "b") (codes "s/z")
unfolding str_eq has_prefix
run_orders-Untouched_example =
    run_orders-Untouched (memory 2) find (memory-IsConfined 2) (put_at_once 2)
      (put_at_once-IsUploader 2) Uploads.plain view visit shelf (codes "b") (codes "s/z") refl

run_orders_read_only_example :
    find
      (run_orders (memory 2) (put_at_once 2) Uploads.plain guest visit shelf)
      (codes "b")
      (codes "r/a")
    ≡ find shelf (codes "b") (codes "r/a")
run_orders_read_only_example =
    run_orders_read_only (memory 2) find (memory-IsConfined 2) (put_at_once 2)
      (put_at_once-IsUploader 2) Uploads.plain guest visit shelf (codes "b") (codes "r/a") refl

open_file-IsGranted_example :
    IsGivenOut
      (memory 2)
      find
      view
      (codes "/a")
      appending
      shelf
      (get_handle (memory 2) Uploads.plain view (codes "/a") appending (pos 0) shelf)
    × IsGivenOut
        (memory 2)
        find
        view
        (codes "/a")
        appending
        shelf
        (open_file (memory 2) Uploads.plain view (codes "/a") appending shelf)
open_file-IsGranted_example =
    open_file-IsGranted (memory 2) find (memory-IsConfined 2) Uploads.plain view (codes "/a")
      appending (pos 0) shelf

abbrev refused : Result Error File × Store
refused = (
  err (
      path_error "open" (clean_ftp_path (codes "/a"))
        (if str_eq (clean_ftp_path (codes "/a")) root_path then errno eisdir else read_only)),
  shelf,
)

guest_handles_refused :
    (get_handle (memory 2) Uploads.plain guest (codes "/a") appending (pos 0) shelf ≡ refused)
    × (open_file (memory 2) Uploads.plain guest (codes "/a") appending shelf ≡ refused)
    × (create (memory 2) Uploads.plain guest (codes "/a") shelf ≡ refused)
guest_handles_refused =
    get_handle_read_only (memory 2) Uploads.plain guest (codes "/a") appending (pos 0) shelf refl
      refl
