-- ===== src/Tests/Uploads.antt =====
-- Uploads to a small bucket.
use s32ftp.Prelude.{◌≡◌, ◌≢◌, ◌⊎◌, refl, true, false, List, [], ◌∷◌, ◌++◌, some, none, length}
use s32ftp.Prelude.Int.{pos}
use s32ftp.Text.{Str, codes}
use s32ftp.Errors.{ok, closed}
use s32ftp.Keys.{join_root}
use s32ftp.Action.{◌>>=◌, attempt, ret, call}
use s32ftp.Info.{size_of}
use s32ftp.Service.Lawful.{Object}
use s32ftp.Service.Memory.{find, put, memory}
use s32ftp.Service.Memory.Laws.{memory-IsConfined}
use s32ftp.Service.Memory.Transfers.{memory-IsFaithful, put_at_once, put_at_once-IsUploader}
use s32ftp.Fs.{key}
use s32ftp.Upload.{Flags, UploadFile, object_content_type, close_returns, handed_part}
use s32ftp.Upload.Run.{new_upload, open_upload}
use s32ftp.Upload.Schedule.{
  Event, writes, returns, closes, aborts, aborted, completes, starts, takes, ends, State, run,
}
use s32ftp.Upload.Kept.{kept_part}
use s32ftp.Upload.Safety.{opened}
use s32ftp.Upload.Outcome.{close_returns_lem, never_partial}
use s32ftp.Upload.Abort.{transfer_error_lem}
use s32ftp.Upload.Failed.{reads_on}
use s32ftp.Upload.Ends.{rest_of}
use s32ftp.Upload.Progress.{upload_ends}
use s32ftp.Tests.Sessions.{shelf, view}

abbrev pub plain : Str → Str
plain s = codes "text/plain"

abbrev pub appending : Flags
appending = record { wronly = true; rdwr = false; append = true; create = true; trunc = false }

-- An APPE to the file /a, which has one byte.
abbrev pub handle : UploadFile
handle = new_upload plain view (codes "/a") 1

abbrev pub sent : List Event
sent =
    writes (codes "xyz")
    ∷ starts
    ∷ takes 2
    ∷ takes 2
    ∷ returns
    ∷ closes
    ∷ ends closed
    ∷ completes
    ∷ []

abbrev half_sent : List Event
half_sent = writes (codes "xyz") ∷ starts ∷ takes 2 ∷ []

abbrev half_aborted : List Event
half_aborted = writes (codes "xyz") ∷ starts ∷ takes 2 ∷ aborts (some closed) ∷ []

abbrev pub state : List Event → State (memory 2)
state es = run (memory 2) (put_at_once 2) es (opened (memory 2) handle shelf)

pub opens :
    open_upload (memory 2) plain view (codes "/a") appending (pos 0) shelf ≡ (ok handle, shelf)
unfolding open_upload ◌>>=◌ attempt find join_root ret size_of
opens = refl

stored :
    find (state sent).world (codes "b") (codes "r/a")
    ≡ some (record { body = codes "1xyz"; modified = 0 })
unfolding run find call join_root put object_content_type
stored = refl

pub closed_well : close_returns (state sent).file ≡ some none
unfolding run close_returns call find join_root
closed_well = refl

still_read : reads_on (state half_aborted).file.task ≡ true
unfolding run call find join_root
still_read = refl

still_aborting : (state half_aborted).file.aborting ≢ []
unfolding run call find join_root
still_aborting e = cc e

close_returns_lem_example :
    (o : Object) × (find (state sent).world (codes "b") (key view (codes "/a")) ≡ some o)
    × (o.body
        ≡ kept_part appending (pos 0) (find shelf (codes "b") (key view (codes "/a")))
          ++ (state sent).accepted)
close_returns_lem_example =
    close_returns_lem (memory 2) find (memory-IsConfined 2) (memory-IsFaithful 2) (put_at_once 2)
      (put_at_once-IsUploader 2) plain view (codes "/a") appending (pos 0) shelf shelf handle sent
      opens closed_well

never_partial_example :
    (find (state half_sent).world (codes "b") (key view (codes "/a"))
      ≡ find shelf (codes "b") (key view (codes "/a")))
    ⊎ (((state half_sent).file.is_closed ≡ true)
        × (o : Object) × (find (state half_sent).world (codes "b") (key view (codes "/a")) ≡ some o)
        × (o.body
            ≡ kept_part appending (pos 0) (find shelf (codes "b") (key view (codes "/a")))
              ++ (state half_sent).accepted))
never_partial_example =
    never_partial (memory 2) find (memory-IsConfined 2) (memory-IsFaithful 2) (put_at_once 2)
      (put_at_once-IsUploader 2) plain view (codes "/a") appending (pos 0) shelf shelf handle
      half_sent opens

transfer_error_lem_example :
    (find
        (run (memory 2) (put_at_once 2) (aborted ∷ sent) (state half_aborted)).world
        (codes "b")
        (key view (codes "/a"))
      ≡ find shelf (codes "b") (key view (codes "/a")))
    × (close_returns (run (memory 2) (put_at_once 2) (aborted ∷ sent) (state half_aborted)).file
        ≢ some none)
transfer_error_lem_example =
    transfer_error_lem (memory 2) find (memory-IsConfined 2) (memory-IsFaithful 2) (put_at_once 2)
      (put_at_once-IsUploader 2) plain view (codes "/a") appending (pos 0) shelf shelf handle
      half_aborted sent opens still_aborting still_read

upload_ends_example :
    let s : State (memory 2) = state half_sent in
    let t : State (memory 2) =
      run (memory 2) (put_at_once 2) (rest_of (length (handed_part s.file.writing)) closed) s in
    (t.file.writing ≡ none) × (t.file.is_closed ≡ true) × (close_returns t.file ≡ some t.file.error)
upload_ends_example =
    upload_ends (memory 2) find (memory-IsConfined 2) (memory-IsFaithful 2) (put_at_once 2)
      (put_at_once-IsUploader 2) plain view (codes "/a") appending (pos 0) shelf shelf handle
      half_sent closed opens
