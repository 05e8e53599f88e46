-- ===== src/Session.antt =====
-- The operations that one FTP session may make on its view. The Client of
-- internal/ftpdriver/client.go embeds the FS, so the server library calls them as they are.
pub mod Confined
pub mod Transfers
pub mod RoundTrip
pub mod Site
pub mod Listed
use Prim.Native.String.{String}
use s32ftp.Prelude.{ℕ, Bool, true, false, List, [], ◌∷◌, Option, none, some}
use s32ftp.Text.{Str}
use s32ftp.Errors.{Error, Result, path_error, read_only}
use s32ftp.Action.{Act, ret, ◌>>=◌}
use s32ftp.Service.{Service}
use s32ftp.Fs.{Fs, stat}
use s32ftp.Listing.{read_dir}
use s32ftp.Dir.{mkdir, mkdir_all, remove, remove_dir, remove_all}
use s32ftp.Rename.{rename}

-- The numbers are the fuel of the loops over pages.
pub data Command : Type 0 where
  stat_of : Str → Command
  list_dir : ℕ → Str → Command
  make_dir : Str → Command
  make_dirs : Str → Command
  delete : Str → Command
  delete_dir : Str → Command
  delete_all : ℕ → Str → Command
  move : ℕ → Str → Str → Command

module _ (S : Service) where
  open S use {World}

  unfoldable pub run : Fs → Command → Act World (Unit {0})
  unfolding stat read_dir mkdir mkdir_all remove remove_dir remove_all rename
  run f (stat_of p) = stat S f p >>= λ _. ret tt
  run f (list_dir fuel p) = read_dir S fuel f p >>= λ _. ret tt
  run f (make_dir p) = mkdir S f p
  run f (make_dirs p) = mkdir_all S f p
  run f (delete p) = remove S f p
  run f (delete_dir p) = remove_dir S f p
  run f (delete_all fuel p) = remove_all S fuel f p
  run f (move fuel p q) = rename S fuel f p q

  -- A session goes on after a command that failed.
  unfoldable pub run_session : Fs → List Command → World → World
  unfolding run
  run_session f [] w = w
  run_session f (c ∷ cs) w = run_session f cs (run f c w).1

-- The error with which a read-only view answers a changing command: FS.readOnlyErr with the name
-- as the client gave it.
abbrev pub refusal : Command → Option Error
refusal (stat_of p) = none
refusal (list_dir fuel p) = none
refusal (make_dir p) = some (path_error "mkdir" p read_only)
refusal (make_dirs p) = some (path_error "mkdir" p read_only)
refusal (delete p) = some (path_error "remove" p read_only)
refusal (delete_dir p) = some (path_error "rmdir" p read_only)
refusal (delete_all fuel p) = some (path_error "remove" p read_only)
refusal (move fuel p q) = some (path_error "rename" p read_only)
