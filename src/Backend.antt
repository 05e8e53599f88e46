-- ===== src/Backend.antt =====
-- internal/s3fs/backend.go: the construction of the S3 client and of its uploader, and EnsureBucket.
-- `manager.MinUploadPartSize`, `awsconfig.LoadDefaultConfig`, `os.ReadFile` and
-- `CertPool.AppendCertsFromPEM` are parameters. The classification of errors is in Errors.
pub mod Buckets
use s32ftp.Prelude.{
  ℕ, ◌*◌, ◌^◌, Bool, true, false, ◌&&◌, ◌||◌, not, List, [], ◌∷◌, Option, none, some, if◌then◌else◌,
}
use s32ftp.Prelude.Int.{ℤ, pos, ltb_ℤ}
use s32ftp.Text.{Str, is_nil}
use s32ftp.Errors.{S3Error, Result, ok, err, is_not_found, ◌>>=◌}
use s32ftp.Service.{Service, Reply}

-- ClientOptions.
pub record ClientOptions : Type 0 where
  pub endpoint_url : Str
  pub region : Str
  pub access_key_id : Str
  pub secret_access_key : Str
  pub session_token : Str
  pub force_path_style : Bool
  pub insecure_skip_verify : Bool
  pub ca_bundle : Str
  pub part_size_bytes : ℤ
  pub upload_concurrency : ℤ

pub data BackendError : Type 0 where
  unreadable_bundle no_certificates : Str → BackendError
  token_without_keys bad_aws_config : BackendError
  small_part : ℤ → BackendError
  head_bucket_failed create_bucket_failed : Str → S3Error → BackendError

-- The `tls.Config` of the transport; `root_cas` is what was added to the pool of the system.
pub record ClientTls : Type 0 where
  pub min_version : ℕ
  pub insecure_skip_verify : Bool
  pub root_cas : Option Str

-- The three parts of static credentials.
pub record Credentials : Type 0 where
  pub access_key_id : Str
  pub secret_access_key : Str
  pub session_token : Str

-- Client: how its S3 client and its uploader are set.
pub record Client : Type 0 where
  pub tls : Option ClientTls
  pub credentials : Option Credentials
  pub region : Str
  pub use_path_style : Bool
  pub base_endpoint : Option Str
  pub part_size : ℤ
  pub concurrency : ℤ

abbrev pub given : Str → Option Str
given [] = none
given (c ∷ s) = some (c ∷ s)

-- newHTTPClient: the TLS settings of the transport, none for the standard ones. `is_transport` tells
-- whether `http.DefaultTransport` is an `*http.Transport`.
module _ (is_transport : Bool) (read_file : Str → Option Str) (has_certificates : Str → Bool) where
  abbrev pub tls_with : Bool → Option Str → ClientTls
  tls_with skip pem = record { min_version = 0x0303; insecure_skip_verify = skip; root_cas = pem }

  abbrev pub pool_of : Bool → Str → Option Str → Result BackendError (Option ClientTls)
  pool_of skip bundle none = err (unreadable_bundle bundle)
  pool_of skip bundle (some pem) =
      if has_certificates pem
      then ok (some (tls_with skip (some pem)))
      else err (no_certificates bundle)

  unfoldable pub new_http_client : ClientOptions → Result BackendError (Option ClientTls)
  new_http_client opts =
      if not is_transport
      then ok none
      else if not (opts.insecure_skip_verify || not (is_nil opts.ca_bundle))
      then ok none
      else if is_nil opts.ca_bundle
      then ok (some (tls_with opts.insecure_skip_verify none))
      else pool_of opts.insecure_skip_verify opts.ca_bundle (read_file opts.ca_bundle)

  -- NewClient. `load_aws` tells whether the SDK finds its configuration.
  module _ (min_part : ℤ) (load_aws : Option ClientTls → Str → Option Credentials → Bool) where
    abbrev pub credentials_of : ClientOptions → Result BackendError (Option Credentials)
    credentials_of opts =
        if not (is_nil opts.access_key_id) && not (is_nil opts.secret_access_key)
        then ok (
            some (record {
              access_key_id = opts.access_key_id;
              secret_access_key = opts.secret_access_key;
              session_token = opts.session_token;
            }))
        else if not (is_nil opts.session_token)
        then err token_without_keys
        else ok none

    abbrev pub part_size_of : ℤ → ℤ
    part_size_of n = if ltb_ℤ (pos 0) n then n else pos (8 * 1024 * 1024)

    abbrev pub concurrency_of : ℤ → ℤ
    concurrency_of n = if ltb_ℤ n (pos 1) then pos 4 else n

    abbrev pub client_of :
        ClientOptions → Option ClientTls → Option Credentials → Result BackendError Client
    client_of opts tls credentials =
        if not (load_aws tls opts.region credentials)
        then err bad_aws_config
        else if ltb_ℤ (part_size_of opts.part_size_bytes) min_part
        then err (small_part (part_size_of opts.part_size_bytes))
        else ok (record {
          tls = tls;
          credentials = credentials;
          region = opts.region;
          use_path_style = opts.force_path_style;
          base_endpoint = given opts.endpoint_url;
          part_size = part_size_of opts.part_size_bytes;
          concurrency = concurrency_of opts.upload_concurrency;
        })

    unfoldable pub new_client : ClientOptions → Result BackendError Client
    unfolding new_http_client
    new_client opts = do
      tls ← new_http_client opts
      credentials ← credentials_of opts
      client_of opts tls credentials

module _ (S : Service) where
  open S use {World, head_bucket, create_bucket}

  -- EnsureBucket.
  abbrev pub created : Str → Reply (Unit {0}) × World → Result BackendError (Unit {0}) × World
  created bucket (ok x, w) = (ok tt, w)
  created bucket (err e, w) = (err (create_bucket_failed bucket e), w)

  abbrev pub headed : Str → Reply (Unit {0}) × World → Result BackendError (Unit {0}) × World
  headed bucket (ok x, w) = (ok tt, w)
  headed bucket (err e, w) =
      if not (is_not_found e)
      then (err (head_bucket_failed bucket e), w)
      else created bucket (create_bucket bucket w)

  unfoldable pub ensure_bucket : Str → World → Result BackendError (Unit {0}) × World
  unfolding is_not_found
  ensure_bucket bucket w = headed bucket (head_bucket bucket w)
