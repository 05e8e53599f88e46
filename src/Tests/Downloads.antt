-- ===== src/Tests/Downloads.antt =====
-- Downloads from a small bucket.
use s32ftp.Prelude.{inl, ℕ, ◌≡◌, refl, false, List, [], ◌∷◌, some, none, drop, arith}
use s32ftp.Prelude.Int.{pos}
use s32ftp.Text.{codes}
use s32ftp.Errors.{ok, eof}
use s32ftp.Keys.{join_root}
use s32ftp.Action.{◌>>=◌, attempt, ret}
use s32ftp.Fs.{key}
use s32ftp.Service.Lawful.{Object}
use s32ftp.Service.Memory.{Store, find, memory}
use s32ftp.Service.Memory.Laws.{memory-IsConfined}
use s32ftp.Service.Memory.Transfers.{memory-IsFaithful, memory-Answers}
use s32ftp.Download.{Download, Delivery, part, last, open_download, read, read_at}
use s32ftp.Download.Follow.{IsNext, Follows}
use s32ftp.Download.Finish.{Use, fetch, skip, use_all, IsOpened, open_download_lem}
use s32ftp.Download.Complete.{read_to_end, download_lem}
use s32ftp.Download.At.{IsAnswerOf, read_at_lem}
use s32ftp.Tests.Sessions.{view}

abbrev text : Object
text = record { body = codes "hello"; modified = 3 }

abbrev store : Store
store = record { bucket = codes "b"; key = codes "r/t"; object = text } ∷ []

-- A RETR of /t after REST 1.
abbrev handle : Download
handle = record {
  fs = view;
  name = codes "/t";
  key = codes "r/t";
  size = 5;
  mod_time = 3;
  position = 1;
  body = none;
  is_closed = false;
}

abbrev slow : ℕ → Delivery
slow n = part 2

abbrev uses : List Use
uses = fetch (part 2) 2 ∷ skip (pos 0) 0 ∷ fetch last 4 ∷ []

opens : open_download (memory 2) view (codes "/t") (pos 1) store ≡ (ok handle, store)
unfolding open_download ◌>>=◌ attempt find join_root ret
opens = refl

there : find store (codes "b") (key view (codes "/t")) ≡ some text
unfolding find join_root
there = refl

open_download_lem_example :
    IsOpened
      (memory 2)
      find
      (memory-IsConfined 2)
      (memory-IsFaithful 2)
      text
      view
      (codes "/t")
      (pos 1)
      handle
      store
    × IsNext
        (memory 2)
        find
        (memory-IsConfined 2)
        (memory-IsFaithful 2)
        text
        (use_all (memory 2) uses handle store).0.position
        (read
          (memory 2)
          last
          3
          (use_all (memory 2) uses handle store).0
          (use_all (memory 2) uses handle store).1)
open_download_lem_example =
    open_download_lem (memory 2) find (memory-IsConfined 2) (memory-IsFaithful 2) text view
      (codes "/t") (pos 1) store store handle uses last 3 there opens

download_lem_example :
    read_to_end (memory 2) slow 3 6 handle store ≡ (drop 1 (codes "hello"), some eof)
download_lem_example =
    download_lem (memory 2) find (memory-IsConfined 2) (memory-IsFaithful 2) text
      (memory-Answers 2 text) view (codes "/t") (pos 1) store store handle slow 2 6 (λ i. refl)
      there opens (omega arith)

handle-Follows :
    Follows (memory 2) find (memory-IsConfined 2) (memory-IsFaithful 2) text handle store
unfolding find
handle-Follows = record { object = refl; sized = refl; stream = inl refl }

read_at_lem_example :
    IsAnswerOf 9 (drop 2 (codes "hello")) (read_at (memory 2) none 9 (pos 2) handle store).0
read_at_lem_example =
    read_at_lem (memory 2) find (memory-IsConfined 2) (memory-IsFaithful 2) text none 9 2 handle
      store refl handle-Follows (omega arith)
