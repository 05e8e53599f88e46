-- ===== src/Tests/Sessions.antt =====
-- Sessions on a small bucket.
use s32ftp.Prelude.{◌≡◌, refl, true, false, List, [], ◌∷◌}
use s32ftp.Text.{Str, codes}
use s32ftp.Errors.{err, path_error, read_only}
use s32ftp.Service.Memory.{Cell, Store, memory}
use s32ftp.Fs.{Fs}
use s32ftp.Session.{Command, list_dir, make_dir, delete, delete_all, move, run}
use s32ftp.Session.Site.{ignored, site}
use s32ftp.Session.Confined.{run_read_only}

abbrev file : Str → Str → Cell
file k text = record { bucket = codes "b"; key = k; object = record { body = text; modified = 1 } }

abbrev pub shelf : Store
shelf =
    file (codes "r/a") (codes "1")
    ∷ file (codes "r/d/x") (codes "2")
    ∷ file (codes "r/d/y") (codes "3")
    ∷ file (codes "s/z") (codes "4")
    ∷ []

abbrev pub view : Fs
view = record { bucket = codes "b"; root_prefix = codes "r/"; dir_marker = true; read_only = false }

abbrev pub guest : Fs
guest = record view { read_only = true }

abbrev pub orders : List Command
orders =
    make_dir (codes "/new")
    ∷ move 5 (codes "/d") (codes "/e")
    ∷ delete (codes "a")
    ∷ delete_all 5 (codes "/nothing")
    ∷ list_dir 5 (codes "/")
    ∷ []

guest_refused :
    run (memory 2) guest (delete (codes "a")) shelf
    ≡ (err (path_error "remove" (codes "a") read_only), shelf)
guest_refused = run_read_only (memory 2) guest (delete (codes "a")) shelf refl refl

-- The answers to SITE.
site_cases :
    (site (codes " chmod 644 /a") ≡ ignored)
    × (site (codes "CHMOD") ≡ ignored)
    × ((site []).code ≡ 502)
    × (site (codes " UTIME x ")
        ≡ record { code = 502; message = codes "SITE UTIME x is not implemented" })
unfolding site
site_cases = (refl, refl, refl, refl)
