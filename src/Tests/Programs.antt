-- ===== src/Tests/Programs.antt =====
-- The start of the program with a small document.
use s32ftp.Prelude.{◌≡◌, refl, Bool, true, false, if◌then◌else◌, List, [], ◌∷◌, Option, some, none}
use s32ftp.Prelude.Int.{pos}
use s32ftp.Text.{Str, codes, str_eq, member}
use s32ftp.Text.Laws.{str_eq_refl}
use s32ftp.Errors.{S3Error, Result, ok, err}
use s32ftp.Service.{Service}
use s32ftp.Config.{Config, LoggingConfig, default_config}
use s32ftp.Config.Normalize.{normalize}
use s32ftp.Config.Load.{load}
use s32ftp.Config.Validate.Sound.{IsValid}
use s32ftp.Logging.{Logger, open_failed, info, stdout, new_logger}
use s32ftp.Backend.{Client, ClientTls, Credentials, new_client, ensure_bucket}
use s32ftp.Backend.Buckets.{KeepsBuckets, Ensured, ensure_bucket_lem}
use s32ftp.Driver.{Driver, new}
use s32ftp.Program.{Arguments, Running, running, start}
use s32ftp.Program.Dialled.{IsClientOf}
use s32ftp.Program.Ready.{IsDriverOf, BucketIsReady, start-IsReady}
use s32ftp.Tests.Configs.{same_text, no_env, read_file, fill}

-- A document that asks for the bucket to be created.
abbrev unmarshal : Str → Config → Option Config
unmarshal text c =
    some (record (fill c) { s3 = record (fill c).s3 { create_bucket_if_missing = true } })

abbrev loaded : Config
loaded = normalize same_text (record (fill default_config) {
  s3 = record (fill default_config).s3 { create_bucket_if_missing = true };
})

abbrev has_pem : Str → Bool
has_pem text = true

abbrev missing : S3Error
missing = record {
  no_such_key = false;
  not_found = true;
  api_code = none;
  server_fault = false;
  deadline_exceeded = false;
}

-- A service whose world is the buckets that there are.
abbrev closet : Service
closet = record {
  World = List Str;
  head_object = λ b k w. (err missing, w);
  get_object = λ b k r w. (err missing, w);
  list_objects = λ b r w. (err missing, w);
  put_object = λ b k u w. (err missing, w);
  copy_object = λ b k source w. (err missing, w);
  delete_object = λ b k w. (err missing, w);
  delete_objects = λ b keys w. (err missing, w);
  head_bucket = λ b w. (if member b w then ok tt else err missing, w);
  create_bucket = λ b w. (ok tt, b ∷ w);
}

abbrev has : List Str → Str → Bool
has w b = member b w

found :
    (c : Bool)
    → ◌≡◌ {A = Result S3Error (Unit {0})} (if c then ok tt else err missing) (ok tt)
    → c ≡ true
found true h = refl
found false h = absurd (cc)

closet-KeepsBuckets : KeepsBuckets closet has
unfolding member
closet-KeepsBuckets = record {
  head_ok = λ b w h. found (member b w) h;
  create_ok = λ b w h. rw (str_eq_refl b) refl;
}

ensure_bucket_lem_example :
    ((ensure_bucket closet (codes "b") []).0 ≡ ok tt
      → has (ensure_bucket closet (codes "b") []).1 (codes "b") ≡ true)
    × Ensured closet (codes "b") [] (closet.head_bucket (codes "b") [])
ensure_bucket_lem_example = ensure_bucket_lem closet has closet-KeepsBuckets (codes "b") []

is_there : (ensure_bucket closet (codes "b") []).0 ≡ ok tt
unfolding ensure_bucket member
is_there = refl

abbrev exact : Str → Str → Bool
exact s t = str_eq s t

abbrev no_file : Str → Bool
no_file path = false

abbrev to_file : LoggingConfig
to_file = record { level = codes "warn"; format = codes "json"; output = codes "/var/log/x" }

fails : new_logger same_text exact no_file to_file ≡ err (open_failed (codes "/var/log/x"))
unfolding new_logger
fails = refl

abbrev any_aws : Option ClientTls → Str → Option Credentials → Bool
any_aws tls region credentials = true

abbrev pair : Str → Str → Option Str
pair cert key = some cert

abbrev free_port : Driver Str → Bool
free_port driver = true

abbrev arguments : Arguments
arguments = record { config_path = codes "/etc/c.yaml"; show_version = false; hash_password = [] }

abbrev logger : Logger
logger = record { level = info; output = stdout; is_json = false }

abbrev client : Client
client = record {
  tls = none;
  credentials = none;
  region = codes "us-east-1";
  use_path_style = loaded.s3.force_path_style;
  base_endpoint = none;
  part_size = pos 8388608;
  concurrency = pos 4;
}

abbrev server : Running Str
server = record {
  cfg = loaded;
  logger = logger;
  client = client;
  driver = record { cfg = loaded; tls_config = none; clients = [] };
}

starts :
    start closet
      (load same_text no_env read_file unmarshal)
      (λ c. new_logger same_text exact no_file c.logging)
      (new_client true read_file has_pem (pos 5242880) any_aws)
      (new pair)
      free_port
      some
      (codes "dev")
      none
      arguments
      []
    ≡ (ok (running server), codes "b" ∷ [])
unfolding start load new_logger new_client new
starts = refl

start-IsReady_example :
    IsValid server.cfg
    × (load same_text no_env read_file unmarshal (codes "/etc/c.yaml") ≡ ok server.cfg)
    × (new_logger same_text exact no_file server.cfg.logging ≡ ok server.logger)
    × IsClientOf true read_file has_pem (pos 5242880) any_aws server.cfg.s3 server.client
    × IsDriverOf server.cfg server.driver
    × BucketIsReady closet has server.cfg [] (codes "b" ∷ [])
start-IsReady_example =
    start-IsReady closet has closet-KeepsBuckets same_text exact no_env read_file unmarshal no_file
      true has_pem (pos 5242880) any_aws pair free_port some (codes "dev") none arguments []
      (codes "b" ∷ []) server starts
