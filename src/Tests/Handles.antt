-- ===== src/Tests/Handles.antt =====
-- A directory handle read in two parts.
use s32ftp.Prelude.{◌+◌, ◌-◌, ◌≡◌, refl, min, List, [], ◌∷◌, ◌++◌, length, drop, arith}
use s32ftp.Prelude.Int.{pos}
use s32ftp.Text.{codes}
use s32ftp.Errors.{ok, err}
use s32ftp.Info.{FileInfo, new_dir_info, new_file_info}
use s32ftp.Handle.{Handle, read_entries, eof}
use s32ftp.Handle.Reads.{given, read_entries_lem}

abbrev three : List FileInfo
three =
    new_dir_info (codes "d") ∷ new_file_info (codes "a") 1 1 ∷ new_file_info (codes "b") 2 1 ∷ []

abbrev handle : Handle
handle = record { name = codes "/"; info = new_dir_info (codes "/"); entries = three; offset = 1 }

two_left :
    (read_entries (pos 5) handle).0
    ≡ ok (new_file_info (codes "a") 1 1 ∷ new_file_info (codes "b") 2 1 ∷ [])
unfolding read_entries
two_left = refl

at_the_end : (read_entries (pos 5) (read_entries (pos 5) handle).1).0 ≡ err eof
unfolding read_entries
at_the_end = refl

read_entries_lem_example :
    (given (read_entries (pos 5) handle).0 ++ drop (read_entries (pos 5) handle).1.offset three
      ≡ drop 1 three)
    × (length (given (read_entries (pos 5) handle).0) ≡ min 5 (length three - 1))
    × ((read_entries (pos 5) handle).1.entries ≡ three)
    × ((read_entries (pos 5) handle).1.offset ≡ min (1 + 5) (length three))
read_entries_lem_example = read_entries_lem 4 handle (omega arith) (omega arith)
