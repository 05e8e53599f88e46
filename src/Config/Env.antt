-- ===== src/Config/Env.antt =====
-- Config.applyEnv of internal/config/config.go. `env` is `os.LookupEnv`.
use Prim.Native.String.{String}
use s32ftp.Prelude.{ℕ, Bool, Option, none, some}
use s32ftp.Prelude.Int.{ℤ}
use s32ftp.Text.{Str, trim_space}
use s32ftp.Errors.{Result, ok, err, ◌>>=◌}
use s32ftp.Config.{Config}
use s32ftp.Config.Numbers.{RangeError, atoi, parse_bool}

-- The errors of Load and Validate; numbers are indices into the list of users.
pub data ConfigError : Type 0 where
  read_failed parse_failed : Str → ConfigError
  bad_env : String → ConfigError
  port_out_of_range : ℤ → ConfigError
  listen_ip_has_port : Str → ConfigError
  tls_needs_files bad_tls_mode : Str → ConfigError
  bad_passive_range : RangeError → ConfigError
  no_bucket half_credentials : ConfigError
  small_part_size : ℤ → ConfigError
  small_concurrency no_users : ConfigError
  empty_username : ℕ → ConfigError
  duplicate_username : ℕ → Str → ConfigError
  no_password : ℕ → Str → ConfigError
  bad_level bad_log_format : Str → ConfigError

abbrev pub or_value : Option Str → Str → Str
or_value none old = old
or_value (some v) old = v

abbrev pub parsed_or : Option ℤ → ℤ → ℤ
parsed_or none old = old
parsed_or (some n) old = n

abbrev pub int_or : Option Str → ℤ → ℤ
int_or none old = old
int_or (some v) old = parsed_or (atoi (trim_space v)) old

abbrev pub parsed_bool : String → Option Bool → Result ConfigError Bool
parsed_bool name none = err (bad_env name)
parsed_bool name (some b) = ok b

abbrev pub bool_or : String → Option Str → Bool → Result ConfigError Bool
bool_or name none old = ok old
bool_or name (some v) old = parsed_bool name (parse_bool (trim_space v))

module _ (env : String → Option Str) where
  -- setString, setInt, setBool.
  abbrev pub set_string : String → Str → Str
  set_string name old = or_value (env name) old

  abbrev pub set_int : String → ℤ → ℤ
  set_int name old = int_or (env name) old

  abbrev pub set_bool : String → Bool → Result ConfigError Bool
  set_bool name old = bool_or name (env name) old

  unfoldable pub apply_env : Config → Result ConfigError Config
  unfolding atoi parse_bool trim_space
  apply_env c = do
    let ftp = c.ftp
    let tls = ftp.tls
    let s3 = c.s3
    let logging = c.logging
    path_style ← set_bool "S32FTP_S3_FORCE_PATH_STYLE" s3.force_path_style
    insecure ← set_bool "S32FTP_S3_INSECURE_SKIP_VERIFY" s3.insecure_skip_verify
    create ← set_bool "S32FTP_S3_CREATE_BUCKET_IF_MISSING" s3.create_bucket_if_missing
    marker ← set_bool "S32FTP_S3_DIR_MARKER" s3.dir_marker
    ok (record {
      ftp = record ftp {
        listen_ip = set_string "S32FTP_FTP_LISTEN_IP" ftp.listen_ip;
        port = set_int "S32FTP_FTP_PORT" ftp.port;
        banner = set_string "S32FTP_FTP_BANNER" ftp.banner;
        public_host = set_string "S32FTP_FTP_PUBLIC_HOST" ftp.public_host;
        passive_port_range = set_string "S32FTP_FTP_PASSIVE_PORT_RANGE" ftp.passive_port_range;
        max_clients = set_int "S32FTP_FTP_MAX_CLIENTS" ftp.max_clients;
        tls = record tls {
          mode = set_string "S32FTP_FTP_TLS_MODE" tls.mode;
          cert_file = set_string "S32FTP_FTP_TLS_CERT_FILE" tls.cert_file;
          key_file = set_string "S32FTP_FTP_TLS_KEY_FILE" tls.key_file;
        };
      };
      s3 = record s3 {
        endpoint_url = set_string "S32FTP_S3_ENDPOINT_URL" s3.endpoint_url;
        region = set_string "S32FTP_S3_REGION" s3.region;
        access_key_id = set_string "S32FTP_S3_ACCESS_KEY_ID" s3.access_key_id;
        secret_access_key = set_string "S32FTP_S3_SECRET_ACCESS_KEY" s3.secret_access_key;
        session_token = set_string "S32FTP_S3_SESSION_TOKEN" s3.session_token;
        bucket = set_string "S32FTP_S3_BUCKET" s3.bucket;
        root_prefix = set_string "S32FTP_S3_ROOT_PREFIX" s3.root_prefix;
        force_path_style = path_style;
        insecure_skip_verify = insecure;
        ca_bundle = set_string "S32FTP_S3_CA_BUNDLE" s3.ca_bundle;
        part_size_mb = set_int "S32FTP_S3_PART_SIZE_MB" s3.part_size_mb;
        upload_concurrency = set_int "S32FTP_S3_UPLOAD_CONCURRENCY" s3.upload_concurrency;
        create_bucket_if_missing = create;
        dir_marker = marker;
      };
      logging = record logging {
        level = set_string "S32FTP_LOG_LEVEL" logging.level;
        format = set_string "S32FTP_LOG_FORMAT" logging.format;
        output = set_string "S32FTP_LOG_OUTPUT" logging.output;
      };
    })
