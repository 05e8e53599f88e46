-- ===== src/Config/Validate/Sound.antt =====
-- Config.Validate of internal/config/config.go accepts exactly the consistent documents.
use s32ftp.Prelude.{
  ℕ, ◌+◌, ◌≡◌, ◌≢◌, refl, ◌↔◌, ◌⊎◌, inl, inr, true, false, List, [], ◌∷◌, Option, none, All, Memᴰ,
  arith, Bool-cases,
}
use s32ftp.Prelude.Int.{pos, ◌≤ℤ◌}
use s32ftp.Text.{Str, str_eq, member, contains_char}
use s32ftp.Text.Laws.{str_eq_iff}
use s32ftp.Config.{Config, FtpConfig, S3Config, LoggingConfig, User, tls_enabled}
use s32ftp.Config.Numbers.{RangeError, PortRange, unset, range, invalid, parse_port_range}
use s32ftp.Config.Env.{ConfigError}
use s32ftp.Config.Validate.{
  modes, levels, formats, range_error, or_next, check_ftp, check_s3, check_users, has_user,
  check_logging, validate,
}

member→Memᴰ : (s : Str) (xs : List Str) → member s xs ≡ true → Memᴰ s xs
unfolding member
member→Memᴰ s [] h = absurd (cc)
member→Memᴰ s (x ∷ xs) h = elim (Bool-cases (str_eq s x)) [
  | inl e ↦ Memᴰ.head ((str_eq_iff s x).0 e)
  | inr e ↦ Memᴰ.tail (member→Memᴰ s xs (rw e at h))
]

Memᴰ→member : {s : Str} {xs : List Str} → Memᴰ s xs → member s xs ≡ true
unfolding member
Memᴰ→member {s} (Memᴰ.head {x} e) = rw ((str_eq_iff s x).1 e)
Memᴰ→member {s} (Memᴰ.tail {x} {xs} m) = ground (arith, Memᴰ→member m)

abbrev HasPassword : User → Type 0
HasPassword u = (u.password ≢ []) ⊎ (u.password_hash ≢ [])

abbrev Distinct : List User → Type 0
Distinct [] = Unit
Distinct (u ∷ users) = All (λ (v : User). v.username ≢ u.username) users × Distinct users

abbrev IsComplete : User → Type 0
IsComplete u = (u.username ≢ []) × HasPassword u

abbrev Fresh : List Str → List User → Type 0
Fresh seen users = All (λ (u : User). member u.username seen ≡ false) users

Fresh-cons :
    (name : Str) (seen : List Str) (users : List User)
    → Fresh (name ∷ seen) users ↔ (All (λ (v : User). v.username ≢ name) users × Fresh seen users)
unfolding member
Fresh-cons name seen [] = (λ h. (tt, tt), λ h. tt)
Fresh-cons name seen (u ∷ users) =
    ground (arith, Fresh-cons name seen users, str_eq_iff u.username name)

check_users_iff :
    (i : ℕ) (seen : List Str) (users : List User)
    → (check_users i seen users ≡ none) ↔ (All IsComplete users × Fresh seen users × Distinct users)
unfolding check_users
check_users_iff i seen [] = (λ h. (tt, tt, tt), λ h. refl)
check_users_iff i seen (u ∷ users) =
    ground
      (arith, check_users_iff (i + 1) (u.username ∷ seen) users, Fresh-cons u.username seen users)

-- What a consistent FTP section is.
pub record FtpIsValid (c : FtpConfig) : Type 0 where
  pub port_low : pos 0 ≤ℤ c.port
  pub port_high : c.port ≤ℤ pos 65535
  pub listen_ip : contains_char b':' c.listen_ip ≡ false
  pub tls_files : tls_enabled c ≡ true → (c.tls.cert_file ≢ []) × (c.tls.key_file ≢ [])
  pub tls_mode : Memᴰ c.tls.mode modes
  pub passive_range : (e : RangeError) → parse_port_range c.passive_port_range ≢ invalid e
  pub some_user : c.users ≢ []
  pub complete : All IsComplete c.users
  pub distinct : Distinct c.users

pub record S3IsValid (c : S3Config) : Type 0 where
  pub bucket : c.bucket ≢ []
  pub credentials : (c.access_key_id ≡ []) ↔ (c.secret_access_key ≡ [])
  pub part_size : pos 5 ≤ℤ c.part_size_mb
  pub concurrency : pos 1 ≤ℤ c.upload_concurrency

pub record LoggingIsValid (c : LoggingConfig) : Type 0 where
  pub level : Memᴰ c.level levels
  pub format : Memᴰ c.format formats

check_s3_iff : (c : S3Config) → (check_s3 c ≡ none) ↔ S3IsValid c
unfolding check_s3
check_s3_iff c = ground arith

range_error_iff : (r : PortRange) → (range_error r ≡ none) ↔ ((e : RangeError) → r ≢ invalid e)
range_error_iff unset = (λ h e q. cc, λ h. refl)
range_error_iff (range a b) = (λ h e q. cc, λ h. refl)
range_error_iff (invalid e) = (λ h. cc, λ h. absurd (h e refl))

record FtpChecks (c : FtpConfig) : Type 0 where
  low : pos 0 ≤ℤ c.port
  high : c.port ≤ℤ pos 65535
  ip : contains_char b':' c.listen_ip ≡ false
  files : tls_enabled c ≡ true → (c.tls.cert_file ≢ []) × (c.tls.key_file ≢ [])
  mode : member c.tls.mode modes ≡ true
  passive : range_error (parse_port_range c.passive_port_range) ≡ none

check_ftp→FtpChecks : (c : FtpConfig) → check_ftp c ≡ none → FtpChecks c
unfolding check_ftp
check_ftp→FtpChecks c h = ground arith

FtpChecks→check_ftp : (c : FtpConfig) → FtpChecks c → check_ftp c ≡ none
unfolding check_ftp
FtpChecks→check_ftp c v = ground arith

check_logging→LoggingIsValid : (c : LoggingConfig) → check_logging c ≡ none → LoggingIsValid c
unfolding check_logging
check_logging→LoggingIsValid c h =
    let m : (member c.level levels ≡ true) × (member c.format formats ≡ true) = ground arith in
    record { level = member→Memᴰ c.level levels m.0; format = member→Memᴰ c.format formats m.1 }

LoggingIsValid→check_logging : (c : LoggingConfig) → LoggingIsValid c → check_logging c ≡ none
unfolding check_logging
LoggingIsValid→check_logging c v = rw (Memᴰ→member v.level, Memᴰ→member v.format)

-- The documents that Validate is to accept.
pub record IsValid (c : Config) : Type 0 where
  pub ftp : FtpIsValid c.ftp
  pub s3 : S3IsValid c.s3
  pub logging : LoggingIsValid c.logging

or_next-none : {a b : Option ConfigError} → or_next a b ≡ none → (a ≡ none) × (b ≡ none)
or_next-none {a} {b} h = ground arith

some_user_of : (users : List User) → has_user users ≡ none → users ≢ []
some_user_of [] h e = absurd (cc)
some_user_of (u ∷ users) h e = absurd (cc)

validate→IsValid : (c : Config) → validate c ≡ none → IsValid c
unfolding validate
validate→IsValid c h =
    let (f, h1) = or_next-none h in
    let (s, h2) = or_next-none h1 in
    let (n, h3) = or_next-none h2 in
    let (u, l) = or_next-none h3 in
    let k = check_ftp→FtpChecks c.ftp f in
    let users = (check_users_iff 0 [] c.ftp.users).0 u in
    record {
      ftp = record {
        port_low = k.low;
        port_high = k.high;
        listen_ip = k.ip;
        tls_files = k.files;
        tls_mode = member→Memᴰ c.ftp.tls.mode modes k.mode;
        passive_range = (range_error_iff (parse_port_range c.ftp.passive_port_range)).0 k.passive;
        some_user = some_user_of c.ftp.users n;
        complete = users.0;
        distinct = users.2;
      };
      s3 = (check_s3_iff c.s3).0 s;
      logging = check_logging→LoggingIsValid c.logging l;
    }

IsValid→validate : (c : Config) → IsValid c → validate c ≡ none
unfolding validate
IsValid→validate c v =
    rw
      (
        FtpChecks→check_ftp c.ftp checks,
        (check_s3_iff c.s3).1 v.s3,
        have_user c.ftp.users v.ftp.some_user,
        (check_users_iff 0 [] c.ftp.users).1 (v.ftp.complete, fresh c.ftp.users, v.ftp.distinct),
      )
      (LoggingIsValid→check_logging c.logging v.logging)
  where
    checks : FtpChecks c.ftp
    checks = record {
      low = v.ftp.port_low;
      high = v.ftp.port_high;
      ip = v.ftp.listen_ip;
      files = v.ftp.tls_files;
      mode = Memᴰ→member v.ftp.tls_mode;
      passive = (range_error_iff (parse_port_range c.ftp.passive_port_range)).1 v.ftp.passive_range;
    }

    fresh : (users : List User) → Fresh [] users
    fresh [] = tt
    fresh (u ∷ users) = (unfold member in refl, fresh users)

    have_user : (users : List User) → users ≢ [] → has_user users ≡ none
    have_user [] h = absurd (h refl)
    have_user (u ∷ users) h = refl

-- Validate returns no error exactly when the document is consistent: the port is in range, the
-- listen address has no colon, the certificate files are there when TLS is enabled, the mode, the
-- log level and the log format are known, the passive port range can be parsed, there is a bucket,
-- the two access keys are both given or both empty, a part has at least 5 MB and an upload at least
-- one worker, there is a user, and every user has a name of its own and a password or a hash.
pub validate_iff : (c : Config) → (validate c ≡ none) ↔ IsValid c
validate_iff c = (validate→IsValid c, IsValid→validate c)
