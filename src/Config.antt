-- ===== src/Config.antt =====
-- The configuration document of internal/config/config.go and its defaults.
pub mod Numbers
pub mod Normalize
pub mod Env
pub mod Validate
pub mod Load
use s32ftp.Prelude.{
  ℕ, Bool, true, false, ◌&&◌, ◌||◌, not, List, [], ◌∷◌, if◌then◌else◌, Option, none, some,
}
use s32ftp.Prelude.Int.{ℤ, pos}
use s32ftp.Text.{Str, codes, str_eq, is_nil}

abbrev pub mode_off : Str
mode_off = codes "off"

abbrev pub mode_explicit : Str
mode_explicit = codes "explicit"

abbrev pub mode_required : Str
mode_required = codes "required"

abbrev pub mode_implicit : Str
mode_implicit = codes "implicit"

-- FTPTLS.
pub record Tls : Type 0 where
  pub mode : Str
  pub cert_file : Str
  pub key_file : Str
  pub min_version : Str

-- FTPUser.
pub record User : Type 0 where
  pub username : Str
  pub password : Str
  pub password_hash : Str
  pub read_only : Bool
  pub bucket : Str
  pub root_prefix : Str

-- FTPConfig.
pub record FtpConfig : Type 0 where
  pub listen_ip : Str
  pub port : ℤ
  pub banner : Str
  pub idle_timeout_seconds : ℤ
  pub connection_timeout_seconds : ℤ
  pub public_host : Str
  pub passive_port_range : Str
  pub disable_active_mode : Bool
  pub disable_ip_match : Bool
  pub max_clients : ℤ
  pub tls : Tls
  pub users : List User

-- S3Config.
pub record S3Config : Type 0 where
  pub endpoint_url : Str
  pub region : Str
  pub access_key_id : Str
  pub secret_access_key : Str
  pub session_token : Str
  pub bucket : Str
  pub root_prefix : Str
  pub force_path_style : Bool
  pub insecure_skip_verify : Bool
  pub ca_bundle : Str
  pub part_size_mb : ℤ
  pub upload_concurrency : ℤ
  pub create_bucket_if_missing : Bool
  pub dir_marker : Bool

-- LoggingConfig.
pub record LoggingConfig : Type 0 where
  pub level : Str
  pub format : Str
  pub output : Str

pub record Config : Type 0 where
  pub ftp : FtpConfig
  pub s3 : S3Config
  pub logging : LoggingConfig

-- Default.
unfoldable pub default_config : Config
default_config = record {
  ftp = record {
    listen_ip = codes "0.0.0.0";
    port = pos 2121;
    banner = codes "s32ftp FTP-to-S3 gateway";
    idle_timeout_seconds = pos 900;
    connection_timeout_seconds = pos 30;
    public_host = [];
    passive_port_range = [];
    disable_active_mode = false;
    disable_ip_match = false;
    max_clients = pos 0;
    tls = record { mode = mode_off; cert_file = []; key_file = []; min_version = codes "1.2" };
    users = [];
  };
  s3 = record {
    endpoint_url = [];
    region = codes "us-east-1";
    access_key_id = [];
    secret_access_key = [];
    session_token = [];
    bucket = [];
    root_prefix = [];
    force_path_style = true;
    insecure_skip_verify = false;
    ca_bundle = [];
    part_size_mb = pos 8;
    upload_concurrency = pos 4;
    create_bucket_if_missing = false;
    dir_marker = true;
  };
  logging = record { level = codes "info"; format = codes "text"; output = codes "stdout" };
}

-- FTPConfig.TLSEnabled.
unfoldable pub tls_enabled : FtpConfig → Bool
unfolding str_eq
tls_enabled c =
    if is_nil c.tls.mode || str_eq c.tls.mode mode_off
    then not (is_nil c.tls.cert_file) && not (is_nil c.tls.key_file)
    else true

-- Config.LookupUser.
unfoldable pub find_user : Str → List User → Option User
unfolding str_eq
find_user name [] = none
find_user name (u ∷ users) = if str_eq u.username name then some u else find_user name users

unfoldable pub lookup_user : Config → Str → Option User
unfolding find_user
lookup_user c name = find_user name c.ftp.users

-- FTPUser.CheckPassword. `matches_hash hash password` is `bcrypt.CompareHashAndPassword`.
unfoldable pub check_password : (Str → Str → Bool) → User → Str → Bool
unfolding str_eq
check_password matches_hash u password =
    if not (is_nil u.password_hash)
    then matches_hash u.password_hash password
    else str_eq u.password password
