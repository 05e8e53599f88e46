-- ===== src/Program/Start.antt =====
-- What run of cmd/s32ftp/main.go has made when the server listens.
use mathlib.Core.Path.{subst}
use s32ftp.Prelude.{◌≡◌, refl, ap, ◌∙◌, Bool, true, false, not, Option, none, some, if◌then◌else◌}
use s32ftp.Text.{Str, is_nil}
use s32ftp.Errors.{Result, ok, err}
use s32ftp.Service.{Service}
use s32ftp.Config.{Config}
use s32ftp.Config.Env.{ConfigError}
use s32ftp.Logging.{Logger, LogError}
use s32ftp.Backend.{BackendError, Client, ClientOptions, ensure_bucket}
use s32ftp.Driver.{Driver, DriverError}
use s32ftp.Program.{
  options_of, Arguments, StartError, Running, Started, printed, running, listen, with_bucket,
  with_client, with_logger, with_config, hashed, start, resolved_version,
}

abbrev running_of : {Cert : Type 0} → Started Cert → Option (Running Cert)
running_of (printed text) = none
running_of (running r) = some r

-- What leads to a server that listens.
module _ {Cert : Type 0} (S : Service) (load_it : Str → Result ConfigError Config)
    (log_it : Config → Result LogError Logger) (dial : ClientOptions → Result BackendError Client)
    (drive : Config → Result DriverError (Driver Cert)) (can_listen : Driver Cert → Bool)
    (r : Running Cert) (v : S.World) where
  abbrev Runs : Result StartError (Started Cert) × S.World → Type 0
  Runs s = s ≡ (ok (running r), v)

  abbrev Leaves : Config → S.World → Type 0
  Leaves cfg w =
      (if cfg.s3.create_bucket_if_missing then ensure_bucket S cfg.s3.bucket w else (ok tt, w))
      ≡ (ok tt, v)

  pub record Made (cfg : Config) (x : Running Cert) (w : S.World) : Type 0 where
    pub same : cfg ≡ x.cfg
    pub logged : log_it x.cfg ≡ ok x.logger
    pub dialled : dial (options_of x.cfg.s3) ≡ ok x.client
    pub driven : drive x.cfg ≡ ok x.driver
    pub bucket : Leaves x.cfg w

  same_run : (x : Running Cert) (w : S.World) → Runs (ok (running x), w) → (x ≡ r) × (w ≡ v)
  same_run x w h = (cc, cc)

  listens :
      (cfg : Config) (logger : Logger) (client : Client) (w : S.World)
      (d : Result DriverError (Driver Cert))
      → Runs (listen S load_it log_it dial drive can_listen cfg logger client w d)
      → (driver : Driver Cert) × (d ≡ ok driver)
        × (record { cfg = cfg; logger = logger; client = client; driver = driver } ≡ r)
        × (w ≡ v)
  listens cfg logger client w (err e) h = absurd (cc)
  listens cfg logger client w (ok driver) h = pick (can_listen driver) h
    where
      pick :
          (c : Bool)
          → Runs (
              if c
              then (
                ok (
                    running
                      (record { cfg = cfg; logger = logger; client = client; driver = driver })),
                w,
              )
              else (err StartError.listen_failed, w))
          → (driver' : Driver Cert) × (◌≡◌ {A = Result DriverError (Driver Cert)}
              (ok driver)
              (ok driver'))
            × (record { cfg = cfg; logger = logger; client = client; driver = driver' } ≡ r)
            × (w ≡ v)
      pick true h = let (same, moved) = same_run _ w h in (driver, refl, same, moved)
      pick false h = absurd (cc)

  serves :
      (cfg : Config) (logger : Logger) (client : Client) (w : S.World)
      → log_it cfg ≡ ok logger
      → dial (options_of cfg.s3) ≡ ok client
      → (b : Result BackendError (Unit {0}) × S.World)
      → (if cfg.s3.create_bucket_if_missing then ensure_bucket S cfg.s3.bucket w else (ok tt, w))
        ≡ b
      → Runs (with_bucket S load_it log_it dial drive can_listen cfg logger client b)
      → Made cfg r w
  serves cfg logger client w l c (err x, u) e h = absurd (cc)
  serves cfg logger client w l c (ok x, u) e h =
      let (driver, d, same, moved) = listens cfg logger client u (drive cfg) h in
      subst (λ y. Made cfg y w) same
        (record {
          same = refl;
          logged = l;
          dialled = c;
          driven = d;
          bucket = e ∙ ap (λ y. (ok tt, y)) moved;
        })

  dials :
      (cfg : Config) (logger : Logger) (w : S.World)
      → log_it cfg ≡ ok logger
      → (c : Result BackendError Client) → dial (options_of cfg.s3) ≡ c
      → Runs (with_client S load_it log_it dial drive can_listen cfg logger w c)
      → Made cfg r w
  dials cfg logger w l (err x) e h = absurd (cc)
  dials cfg logger w l (ok client) e h = serves cfg logger client w l e _ refl h

  logs :
      (cfg : Config) (w : S.World) (l : Result LogError Logger)
      → log_it cfg ≡ l
      → Runs (with_logger S load_it log_it dial drive can_listen cfg w l)
      → Made cfg r w
  logs cfg w (err x) e h = absurd (cc)
  logs cfg w (ok logger) e h = dials cfg logger w e _ refl h

  loads :
      (path : Str) (w : S.World) (c : Result ConfigError Config)
      → load_it path ≡ c
      → Runs (with_config S load_it log_it dial drive can_listen w c)
      → (load_it path ≡ ok r.cfg) × Made r.cfg r w
  loads path w (err x) e h = absurd (cc)
  loads path w (ok cfg) e h =
      let m = logs cfg w _ refl h in (e ∙ ap ok m.same, subst (λ (c : Config). Made c r w) m.same m)

  pub starts :
      (hash : Str → Option Str) (version : Str) (build : Option Str) (args : Arguments)
      (w : S.World)
      → Runs (start S load_it log_it dial drive can_listen hash version build args w)
      → (load_it args.config_path ≡ ok r.cfg) × Made r.cfg r w
  unfolding start
  starts hash version build args w h = pick args.show_version (is_nil args.hash_password) h
    where
      no_server : (x : Option Str) → Runs (hashed S load_it log_it dial drive can_listen w x) → ⊥
      no_server none g = cc
      no_server (some text) g = cc

      pick :
          (a b : Bool)
          → Runs (
              if a
              then (ok (printed (resolved_version version build)), w)
              else if not b
              then hashed S load_it log_it dial drive can_listen w (hash args.hash_password)
              else with_config S load_it log_it dial drive can_listen w (load_it args.config_path))
          → (load_it args.config_path ≡ ok r.cfg) × Made r.cfg r w
      pick true b g = absurd (cc)
      pick false false g = absurd (no_server (hash args.hash_password) g)
      pick false true g = loads args.config_path w _ refl g
