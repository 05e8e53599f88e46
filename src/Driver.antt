-- ===== src/Driver.antt =====
-- internal/ftpdriver: the server's driver (driver.go) and its TLS settings (tls.go). The mutex
-- makes each method one step; the logger is left out.
pub mod Clients
pub mod Accounts
pub mod Settings
use s32ftp.Prelude.{
  ℕ, suc, Bool, true, false, ◌&&◌, ◌||◌, not, List, [], ◌∷◌, Option, none, some, ◌==◌,
  if◌then◌else◌, length,
}
use s32ftp.Prelude.Int.{ℤ, pos, ltb_ℤ}
use s32ftp.Text.{Str, codes, is_nil, str_eq, member}
use s32ftp.Errors.{Result, ok, err, ◌>>=◌}
use s32ftp.Config.{Config, User, Tls, lookup_user, check_password, tls_enabled}
use s32ftp.Fs.{Fs}

pub data DriverError : Type 0 where
  too_many_clients invalid_credentials tls_not_configured bad_key_pair : DriverError
  bad_min_version : Str → DriverError

-- parseTLSVersion.
unfoldable pub parse_tls_version : Str → Option ℕ
unfolding member
parse_tls_version v =
    if member v ([] ∷ codes "1.2" ∷ codes "1.2.0" ∷ codes "tls1.2" ∷ [])
    then some 0x0303
    else if member v (codes "1.0" ∷ codes "tls1.0" ∷ [])
    then some 0x0301
    else if member v (codes "1.1" ∷ codes "tls1.1" ∷ [])
    then some 0x0302
    else if member v (codes "1.3" ∷ codes "tls1.3" ∷ [])
    then some 0x0304
    else none

-- A certificate with the lowest version that is spoken: `tls.Config`.
pub record TlsConfig (Cert : Type 0) : Type 0 where
  pub certificate : Cert
  pub min_version : ℕ

abbrev pub with_version :
    {Cert : Type 0} → Cert → Str → Option ℕ → Result DriverError (TlsConfig Cert)
with_version cert text none = err (bad_min_version text)
with_version cert text (some v) = ok (record { certificate = cert; min_version = v })

abbrev pub with_cert :
    {Cert : Type 0} → Option Cert → Str → Option ℕ → Result DriverError (TlsConfig Cert)
with_cert none text v = err bad_key_pair
with_cert (some cert) text v = with_version cert text v

-- Driver.
pub record Driver (Cert : Type 0) : Type 0 where
  pub cfg : Config
  pub tls_config : Option (TlsConfig Cert)
  pub clients : List ℕ

abbrev pub keep_tls :
    {Cert : Type 0}
    → Config
    → Result DriverError (TlsConfig Cert)
    → Result DriverError (Driver Cert)
keep_tls cfg (err e) = err e
keep_tls cfg (ok t) = ok (record { cfg = cfg; tls_config = some t; clients = [] })

-- `load_pair` is `tls.LoadX509KeyPair`; none is an error.
module _ {Cert : Type 0} (load_pair : Str → Str → Option Cert) where
  -- loadTLSConfig.
  unfoldable pub load_tls_config : Tls → Result DriverError (TlsConfig Cert)
  unfolding parse_tls_version
  load_tls_config t =
      with_cert (load_pair t.cert_file t.key_file) t.min_version (parse_tls_version t.min_version)

  -- New.
  unfoldable pub new : Config → Result DriverError (Driver Cert)
  unfolding load_tls_config tls_enabled
  new cfg =
      if tls_enabled cfg.ftp
      then keep_tls cfg (load_tls_config cfg.ftp.tls)
      else ok (record { cfg = cfg; tls_config = none; clients = [] })

-- The keys of the map `clients`.
unfoldable pub tracked : ℕ → List ℕ → Bool
tracked i [] = false
tracked i (j ∷ clients) = i == j || tracked i clients

unfoldable pub untrack : ℕ → List ℕ → List ℕ
untrack i [] = []
untrack i (j ∷ clients) = let rest = untrack i clients in if i == j then rest else j ∷ rest

unfoldable pub track : ℕ → List ℕ → List ℕ
unfolding tracked
track i clients = if tracked i clients then clients else i ∷ clients

-- `max > 0 && len(d.clients) >= max`
unfoldable pub is_full : ℤ → List ℕ → Bool
is_full max clients = ltb_ℤ (pos 0) max && not (ltb_ℤ (pos (length clients)) max)

module _ {Cert : Type 0} where
  -- ClientConnected: the greeting or the refusal, and the driver.
  unfoldable pub client_connected : ℕ → Driver Cert → Result DriverError Str × Driver Cert
  unfolding is_full track
  client_connected id d =
      if is_full d.cfg.ftp.max_clients d.clients
      then (err too_many_clients, d)
      else (ok d.cfg.ftp.banner, record d { clients = track id d.clients })

  -- ClientDisconnected.
  unfoldable pub client_disconnected : ℕ → Driver Cert → Driver Cert
  unfolding untrack
  client_disconnected id d = record d { clients = untrack id d.clients }

  -- ActiveClients.
  unfoldable pub active_clients : Driver Cert → ℕ
  active_clients d = length d.clients

  -- GetTLSConfig.
  abbrev pub tls_or_error : Option (TlsConfig Cert) → Result DriverError (TlsConfig Cert)
  tls_or_error none = err tls_not_configured
  tls_or_error (some t) = ok t

  unfoldable pub get_tls_config : Driver Cert → Result DriverError (TlsConfig Cert)
  get_tls_config d = tls_or_error d.tls_config

abbrev pub or_own : Str → Str → Str
or_own own shared = if not (is_nil own) then own else shared

-- The view that AuthUser builds for an account.
unfoldable pub view_of : Config → User → Fs
view_of c u = record {
  bucket = or_own u.bucket c.s3.bucket;
  root_prefix = or_own u.root_prefix c.s3.root_prefix;
  dir_marker = c.s3.dir_marker;
  read_only = u.read_only;
}

module _ (matches_hash : Str → Str → Bool) where
  abbrev pub auth_account : Config → Str → Option User → Result DriverError Fs
  auth_account c pass none = err invalid_credentials
  auth_account c pass (some u) =
      if check_password matches_hash u pass then ok (view_of c u) else err invalid_credentials

  -- AuthUser.
  unfoldable pub auth_user : Config → Str → Str → Result DriverError Fs
  unfolding lookup_user check_password view_of
  auth_user c user pass = auth_account c pass (lookup_user c user)
