-- ===== src/Program.antt =====
-- cmd/s32ftp/main.go: how the parts are put together. The server library, `bcrypt`, the signals and the
-- clock are parameters; the log lines are left out.
pub mod Start
pub mod Dialled
pub mod Ready
use s32ftp.Prelude.{
  ℕ, suc, ◌*◌, ◌-◌, ◌%◌, ◌^◌, Bool, true, false, ◌&&◌, not, List, [], ◌∷◌, Option, none, some, ltb,
  if◌then◌else◌,
}
use s32ftp.Prelude.Int.{ℤ, pos, negsuc, sub_ℕ}
use s32ftp.Text.{Str, codes, str_eq, is_nil}
use s32ftp.Errors.{Result, ok, err}
use s32ftp.Service.{Service}
use s32ftp.Config.{Config, S3Config}
use s32ftp.Config.Env.{ConfigError}
use s32ftp.Logging.{Logger, LogError}
use s32ftp.Backend.{BackendError, Client, ClientOptions, ensure_bucket}
use s32ftp.Driver.{Driver, DriverError}

-- resolvedVersion. `build` is the version that `debug.ReadBuildInfo` gives.
abbrev pub build_version : Str → Option Str → Str
build_version version none = version
build_version version (some v) =
    if not (is_nil v) && not (str_eq v (codes "(devel)")) then v else version

unfoldable pub resolved_version : Str → Option Str → Str
unfolding str_eq
resolved_version version build =
    if not (str_eq version (codes "dev")) then version else build_version version build

-- `int64(mb) * 1024 * 1024` with the wrap of an int64.
abbrev pub of_bits : ℕ → ℤ
of_bits n = if ltb n (2 ^ 63) then pos n else sub_ℕ n (2 ^ 64)

unfoldable pub mebibytes : ℤ → ℤ
mebibytes (pos mb) = of_bits ((mb * (1024 * 1024)) % 2 ^ 64)
mebibytes (negsuc n) = of_bits ((2 ^ 64 - (suc n * (1024 * 1024)) % 2 ^ 64) % 2 ^ 64)

-- The options that run gives to NewClient.
abbrev pub options_of : S3Config → ClientOptions
options_of c = record {
  endpoint_url = c.endpoint_url;
  region = c.region;
  access_key_id = c.access_key_id;
  secret_access_key = c.secret_access_key;
  session_token = c.session_token;
  force_path_style = c.force_path_style;
  insecure_skip_verify = c.insecure_skip_verify;
  ca_bundle = c.ca_bundle;
  part_size_bytes = mebibytes c.part_size_mb;
  upload_concurrency = c.upload_concurrency;
}

-- The command line.
pub record Arguments : Type 0 where
  pub config_path : Str
  pub show_version : Bool
  pub hash_password : Str

-- How run ends before it serves.
pub data StartError : Type 0 where
  bad_config : ConfigError → StartError
  bad_logging : LogError → StartError
  bad_backend : BackendError → StartError
  bad_driver : DriverError → StartError
  hash_failed listen_failed : StartError

-- What run serves with.
pub record Running (Cert : Type 0) : Type 0 where
  pub cfg : Config
  pub logger : Logger
  pub client : Client
  pub driver : Driver Cert

pub data Started (Cert : Type 0) : Type 0 where
  printed : Str → Started Cert
  running : Running Cert → Started Cert

-- `load`, `new_logger`, `new_client` and `new_driver` are those of the other packages, at their own
-- parameters.
module _ {Cert : Type 0} (S : Service) (load : Str → Result ConfigError Config)
    (new_logger : Config → Result LogError Logger)
    (new_client : ClientOptions → Result BackendError Client)
    (new_driver : Config → Result DriverError (Driver Cert)) (can_listen : Driver Cert → Bool) where
  open S use {World}

  abbrev pub Start : Type 0
  Start = Result StartError (Started Cert) × World

  -- The steps of run, from the last to the first.
  abbrev pub listen : Config → Logger → Client → World → Result DriverError (Driver Cert) → Start
  listen cfg logger client w (err e) = (err (bad_driver e), w)
  listen cfg logger client w (ok driver) =
      if can_listen driver
      then (
        ok (running (record { cfg = cfg; logger = logger; client = client; driver = driver })),
        w,
      )
      else (err listen_failed, w)

  abbrev pub with_bucket : Config → Logger → Client → Result BackendError (Unit {0}) × World → Start
  with_bucket cfg logger client (err e, w) = (err (bad_backend e), w)
  with_bucket cfg logger client (ok x, w) = listen cfg logger client w (new_driver cfg)

  abbrev pub with_client : Config → Logger → World → Result BackendError Client → Start
  with_client cfg logger w (err e) = (err (bad_backend e), w)
  with_client cfg logger w (ok client) =
      with_bucket cfg logger client
        (if cfg.s3.create_bucket_if_missing then ensure_bucket S cfg.s3.bucket w else (ok tt, w))

  abbrev pub with_logger : Config → World → Result LogError Logger → Start
  with_logger cfg w (err e) = (err (bad_logging e), w)
  with_logger cfg w (ok logger) = with_client cfg logger w (new_client (options_of cfg.s3))

  abbrev pub with_config : World → Result ConfigError Config → Start
  with_config w (err e) = (err (bad_config e), w)
  with_config w (ok cfg) = with_logger cfg w (new_logger cfg)

  abbrev pub hashed : World → Option Str → Start
  hashed w none = (err hash_failed, w)
  hashed w (some hash) = (ok (printed hash), w)

  -- run up to where the server listens. `hash` is config.HashPassword.
  unfoldable pub start : (Str → Option Str) → Str → Option Str → Arguments → World → Start
  unfolding resolved_version mebibytes ensure_bucket
  start hash version build args w =
      if args.show_version
      then (ok (printed (resolved_version version build)), w)
      else if not (is_nil args.hash_password)
      then hashed w (hash args.hash_password)
      else with_config w (load args.config_path)

-- What the channel and the context of run bring: the server has ended, with an error that is not
-- io.EOF or none, or a signal has come; after the signal, the server has ended, or ten seconds have
-- passed.
pub data Wake (E : Type 0) : Type 0 where
  served : Option E → Wake E
  signalled : Wake E

pub data Rest (E : Type 0) : Type 0 where
  stopped : Option E → Rest E
  timed_out : Rest E

-- The rest of run: its error.
abbrev pub after_stop : {E : Type 0} → Rest E → Option E
after_stop (stopped e) = e
after_stop timed_out = none

unfoldable pub serve : {E : Type 0} → Wake E → Rest E → Option E
serve (served e) rest = e
serve signalled rest = after_stop rest
