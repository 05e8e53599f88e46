-- ===== src/Tests/Configs.antt =====
-- The theorems on the configuration and the driver at a small document.
use Prim.Native.String.{String}
use s32ftp.Prelude.{
  ℕ, length, ◌≡◌, refl, ◌↔◌, Bool, true, false, not, ◌&&◌, ◌||◌, List, [], ◌∷◌, Option, some, none,
  ◌==◌,
}
use s32ftp.Prelude.Int.{◌≤ℤ◌, pos}
use s32ftp.Text.{Str, codes}
use s32ftp.Keys.{slash}
use s32ftp.Keys.Root.{IsRootPrefix}
use s32ftp.Errors.{ok}
use s32ftp.Config.{Config, User, default_config}
use s32ftp.Config.Normalize.{normalize, normalize_prefix}
use s32ftp.Config.Normalize.Roots.{starts_with, RootsAreNormal, normalize_prefix_shape}
use s32ftp.Config.Validate.{validate}
use s32ftp.Config.Validate.Sound.{IsValid, validate_iff}
use s32ftp.Config.Load.{load, read_config}
use s32ftp.Config.Load.Sound.{load-IsValid}
use s32ftp.Driver.{Driver, tracked, client_connected, client_disconnected, auth_user, view_of}
use s32ftp.Driver.Clients.{
  Event, connect, disconnect, accepted, run_events, IsSound, run_events-IsSound, clients_lem,
}
use s32ftp.Driver.Accounts.{IsViewOf, auth_user-IsViewOf}
use s32ftp.Driver.Settings.{Settings, get_settings, AreSettingsOf, get_settings-AreSettingsOf}

abbrev alice : User
alice = record {
  username = codes "alice";
  password = codes "secret";
  password_hash = [];
  read_only = true;
  bucket = [];
  root_prefix = codes "/home/alice";
}

-- What the file sets over the defaults.
abbrev pub fill : Config → Config
fill c = record c {
  ftp = record c.ftp {
    users = alice ∷ [];
    max_clients = pos 2;
    passive_port_range = codes "3000-3010";
  };
  s3 = record c.s3 { bucket = codes "b"; root_prefix = codes "shared" };
}

abbrev pub same_text : Str → Str
same_text s = s

abbrev pub no_env : String → Option Str
no_env name = none

abbrev pub read_file : Str → Option Str
read_file path = some path

abbrev pub unmarshal : Str → Config → Option Config
unmarshal text c = some (fill c)

abbrev no_hash : Str → Str → Bool
no_hash hash password = false

abbrev plain : Config
plain = fill default_config

abbrev pub loaded : Config
loaded = normalize same_text plain

pub loaded_lem : load same_text no_env read_file unmarshal (codes "/etc/c.yaml") ≡ ok loaded
unfolding load read_config default_config normalize
loaded_lem = refl

pub loaded-IsValid : IsValid loaded
loaded-IsValid =
    (validate_iff loaded).0 (unfold validate in unfold normalize in unfold default_config in refl)

validate_iff_example : (validate plain ≡ none) ↔ IsValid plain
validate_iff_example = validate_iff plain

shape_of_prefix :
    IsRootPrefix (normalize_prefix (codes " /a/b "))
    × (starts_with slash (normalize_prefix (codes " /a/b ")) ≡ false)
shape_of_prefix = normalize_prefix_shape (codes " /a/b ")

load-IsValid_example : IsValid loaded × RootsAreNormal loaded
load-IsValid_example =
    load-IsValid same_text no_env read_file unmarshal (codes "/etc/c.yaml") loaded_lem

login :
    auth_user no_hash loaded (codes "alice") (codes "secret")
    ≡ ok (view_of loaded (record alice { root_prefix = codes "home/alice/" }))
unfolding auth_user view_of normalize default_config
login = refl

auth_user-IsViewOf_example :
    (u : User) × IsViewOf no_hash loaded
      (codes "alice")
      (codes "secret")
      (view_of loaded (record alice { root_prefix = codes "home/alice/" }))
      u
auth_user-IsViewOf_example =
    auth_user-IsViewOf no_hash same_text no_env read_file unmarshal (codes "/etc/c.yaml")
      (codes "alice") (codes "secret") loaded_lem login

abbrev idle : Driver ℕ
idle = record { cfg = plain; tls_config = none; clients = [] }

abbrev visits : List Event
visits = connect 1 ∷ connect 2 ∷ connect 3 ∷ disconnect 1 ∷ connect 2 ∷ []

visits_lem : (run_events visits idle).clients ≡ 2 ∷ []
unfolding run_events default_config
visits_lem = refl

run_events-IsSound_example : IsSound (run_events visits idle)
run_events-IsSound_example = run_events-IsSound visits idle refl

clients_lem_example :
    (tracked 7 (client_connected 5 idle).1.clients
      ≡ (accepted (client_connected 5 idle).0 && 7 == 5 || tracked 7 idle.clients))
    × ((accepted (client_connected 5 idle).0 ≡ false) ↔ (
        (pos 1 ≤ℤ idle.cfg.ftp.max_clients)
        × (idle.cfg.ftp.max_clients ≤ℤ pos (length idle.clients))))
    × (tracked 7 (client_disconnected 5 idle).clients ≡ (not (5 == 7) && tracked 7 idle.clients))
clients_lem_example = clients_lem 5 7 idle

get_settings-AreSettingsOf_example :
    (s : Settings) × (get_settings loaded ≡ ok s) × AreSettingsOf loaded s
get_settings-AreSettingsOf_example = get_settings-AreSettingsOf loaded loaded-IsValid
