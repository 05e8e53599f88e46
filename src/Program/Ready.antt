-- ===== src/Program/Ready.antt =====
-- What a server of cmd/s32ftp/main.go that listens has been given.
use mathlib.Core.Path.{subst}
use Prim.Native.String.{String}
use s32ftp.Prelude.{
  ◌≡◌, ◌≢◌, refl, sym, ap, ◌∙◌, Bool, true, false, [], Option, none, if◌then◌else◌,
}
use s32ftp.Prelude.Int.{ℤ}
use s32ftp.Text.{Str}
use s32ftp.Errors.{Result, ok, err}
use s32ftp.Service.{Service}
use s32ftp.Config.{Config, tls_enabled}
use s32ftp.Config.Load.{load}
use s32ftp.Config.Load.Sound.{load-IsValid}
use s32ftp.Config.Validate.Sound.{IsValid}
use s32ftp.Logging.{new_logger}
use s32ftp.Backend.{BackendError, Credentials, ClientTls, new_client, ensure_bucket}
use s32ftp.Backend.Buckets.{KeepsBuckets, ensure_bucket_lem}
use s32ftp.Driver.{Driver, DriverError, TlsConfig, keep_tls, load_tls_config, new}
use s32ftp.Program.{Arguments, Running, running, start}
use s32ftp.Program.Start.{starts}
use s32ftp.Program.Dialled.{IsClientOf, dial-IsClientOf}

-- A driver for a configuration, with no client yet.
abbrev pub IsDriverOf : {Cert : Type 0} → Config → Driver Cert → Type 0
IsDriverOf c d = (d.cfg ≡ c) × (d.clients ≡ []) × (tls_enabled c.ftp ≡ true → d.tls_config ≢ none)

same_driver :
    {Cert : Type 0} (x d : Driver Cert)
    → ◌≡◌ {A = Result DriverError (Driver Cert)} (ok x) (ok d)
    → x ≡ d
same_driver x d h = cc

new-IsDriverOf :
    {Cert : Type 0} (load_pair : Str → Str → Option Cert) (c : Config) (d : Driver Cert)
    → new load_pair c ≡ ok d
    → IsDriverOf c d
unfolding new
new-IsDriverOf {Cert} load_pair c d h = pick (tls_enabled c.ftp) refl h
  where
    loaded : (r : Result DriverError (TlsConfig Cert)) → keep_tls c r ≡ ok d → IsDriverOf c d
    loaded (ok t) g = subst (IsDriverOf c) (same_driver _ d g) (refl, refl, λ on off. cc)
    loaded (err e) g = absurd (cc)

    pick :
        (b : Bool)
        → tls_enabled c.ftp ≡ b
        → (if b
            then keep_tls c (load_tls_config load_pair c.ftp.tls)
            else ok (record { cfg = c; tls_config = none; clients = [] }))
          ≡ ok d
        → IsDriverOf c d
    pick true e g = loaded _ g
    pick false e g = subst (IsDriverOf c) (same_driver _ d g) (refl, refl, λ on. absurd (cc))

module _ (S : Service) (has : S.World → Str → Bool) where
  -- What the start leaves of the bucket.
  abbrev pub BucketIsReady : Config → S.World → S.World → Type 0
  BucketIsReady c w v =
      (c.s3.create_bucket_if_missing ≡ true → has v c.s3.bucket ≡ true)
      × (c.s3.create_bucket_if_missing ≡ false → v ≡ w)

  bucket_ready :
      (K : KeepsBuckets S has) (c : Config) (w v : S.World)
      → (if c.s3.create_bucket_if_missing then ensure_bucket S c.s3.bucket w else (ok tt, w))
        ≡ (ok tt, v)
      → BucketIsReady c w v
  bucket_ready K c w v h = pick c.s3.create_bucket_if_missing h
    where
      pick :
          (b : Bool)
          → (if b then ensure_bucket S c.s3.bucket w else (ok tt, w)) ≡ (ok tt, v)
          → (b ≡ true → has v c.s3.bucket ≡ true) × (b ≡ false → v ≡ w)
      pick true e = (
        λ on.
            ap (λ (p : Result BackendError (Unit {0}) × S.World). has p.1 c.s3.bucket) (sym e)
            ∙ (ensure_bucket_lem S has K c.s3.bucket w).0 (ap (λ p. p.0) e),
        λ off. absurd (cc),
      )
      pick false e = (λ on. absurd (cc), λ off. sym (ap (λ p. p.1) e))

-- When the program comes to listen, Load has accepted its configuration, the logger is the one of
-- that, the uploader has the part size and the number of workers that it says (where the size in
-- bytes fits an int64), the client has static credentials exactly when there are keys, the driver has
-- no client yet, and certificates when TLS is enabled, and the bucket is there if it is to be created
-- and nothing has been changed otherwise.
pub start-IsReady :
    {Cert : Type 0} (S : Service) (has : S.World → Str → Bool) (K : KeepsBuckets S has)
    (unicode : Str → Str) (fold : Str → Str → Bool) (env : String → Option Str)
    (read_file : Str → Option Str) (unmarshal : Str → Config → Option Config)
    (can_open : Str → Bool) (is_transport : Bool) (has_certificates : Str → Bool) (min_part : ℤ)
    (load_aws : Option ClientTls → Str → Option Credentials → Bool)
    (load_pair : Str → Str → Option Cert) (can_listen : Driver Cert → Bool)
    (hash : Str → Option Str) (version : Str) (build : Option Str) (args : Arguments)
    (w v : S.World) (r : Running Cert)
    → start S
        (load unicode env read_file unmarshal)
        (λ c. new_logger unicode fold can_open c.logging)
        (new_client is_transport read_file has_certificates min_part load_aws)
        (new load_pair)
        can_listen
        hash
        version
        build
        args
        w
      ≡ (ok (running r), v)
    → IsValid r.cfg
      × (load unicode env read_file unmarshal args.config_path ≡ ok r.cfg)
      × (new_logger unicode fold can_open r.cfg.logging ≡ ok r.logger)
      × IsClientOf is_transport read_file has_certificates min_part load_aws r.cfg.s3 r.client
      × IsDriverOf r.cfg r.driver
      × BucketIsReady S has r.cfg w v
start-IsReady S has K unicode fold env read_file unmarshal can_open is_transport has_certificates
      min_part load_aws load_pair can_listen hash version build args w v r h =
    let (loaded, m) =
      starts S (load unicode env read_file unmarshal)
        (λ c. new_logger unicode fold can_open c.logging)
        (new_client is_transport read_file has_certificates min_part load_aws) (new load_pair)
        can_listen r v hash version build args w h in
    let valid = (load-IsValid unicode env read_file unmarshal args.config_path loaded).0 in
    (
      valid,
      loaded,
      m.logged,
      dial-IsClientOf is_transport read_file has_certificates min_part load_aws r.cfg.s3 r.client
          valid.s3 m.dialled,
      new-IsDriverOf load_pair r.cfg r.driver m.driven,
      bucket_ready S has K r.cfg w v m.bucket,
    )
