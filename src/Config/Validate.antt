-- ===== src/Config/Validate.antt =====
-- Config.Validate of internal/config/config.go: the checks in their order, each with its error.
pub mod Sound
use s32ftp.Prelude.{
  ℕ, ◌+◌, Bool, true, false, ◌&&◌, ◌||◌, not, List, [], ◌∷◌, ◌++◌, Option, none, some,
  if◌then◌else◌,
}
use s32ftp.Prelude.Int.{ℤ, pos, ltb_ℤ}
use s32ftp.Text.{Str, codes, str_eq, is_nil, member, contains_char}
use s32ftp.Config.{
  Config, FtpConfig, S3Config, LoggingConfig, User, tls_enabled, mode_off, mode_explicit,
  mode_required, mode_implicit,
}
use s32ftp.Config.Numbers.{PortRange, unset, range, invalid, parse_port_range}
use s32ftp.Config.Env.{
  ConfigError, port_out_of_range, listen_ip_has_port, tls_needs_files, bad_tls_mode,
  bad_passive_range, no_bucket, half_credentials, small_part_size, small_concurrency, no_users,
  empty_username, duplicate_username, no_password, bad_level, bad_log_format,
}

abbrev pub modes : List Str
modes = mode_off ∷ mode_explicit ∷ mode_required ∷ mode_implicit ∷ []

abbrev pub levels : List Str
levels = [] ∷ codes "debug" ∷ codes "info" ∷ codes "warn" ∷ codes "warning" ∷ codes "error" ∷ []

abbrev pub formats : List Str
formats = [] ∷ codes "text" ∷ codes "json" ∷ []

abbrev pub range_error : PortRange → Option ConfigError
range_error unset = none
range_error (range start last) = none
range_error (invalid e) = some (bad_passive_range e)

-- `if a != nil { return a }`, and what follows.
abbrev pub or_next : Option ConfigError → Option ConfigError → Option ConfigError
or_next none rest = rest
or_next (some e) rest = some e

-- The checks of the FTP section.
unfoldable pub check_ftp : FtpConfig → Option ConfigError
unfolding tls_enabled contains_char member parse_port_range
check_ftp c =
    if ltb_ℤ c.port (pos 0) || ltb_ℤ (pos 65535) c.port
    then some (port_out_of_range c.port)
    else if not (is_nil c.listen_ip) && contains_char b':' c.listen_ip
    then some (listen_ip_has_port c.listen_ip)
    else if tls_enabled c && (is_nil c.tls.cert_file || is_nil c.tls.key_file)
    then some (tls_needs_files c.tls.mode)
    else if not (member c.tls.mode modes)
    then some (bad_tls_mode c.tls.mode)
    else range_error (parse_port_range c.passive_port_range)

-- `a != b` on Booleans.
abbrev pub differ : Bool → Bool → Bool
differ true b = not b
differ false b = b

-- The checks of the S3 section.
unfoldable pub check_s3 : S3Config → Option ConfigError
check_s3 c =
    if is_nil c.bucket
    then some no_bucket
    else if differ (is_nil c.access_key_id) (is_nil c.secret_access_key)
    then some half_credentials
    else if ltb_ℤ c.part_size_mb (pos 5)
    then some (small_part_size c.part_size_mb)
    else if ltb_ℤ c.upload_concurrency (pos 1)
    then some small_concurrency
    else none

-- The loop over the users; `seen` holds the names before.
unfoldable pub check_users : ℕ → List Str → List User → Option ConfigError
unfolding member
check_users i seen [] = none
check_users i seen (u ∷ users) =
    let rest = check_users (i + 1) (u.username ∷ seen) users in
    if is_nil u.username
    then some (empty_username i)
    else if member u.username seen
    then some (duplicate_username i u.username)
    else if is_nil u.password && is_nil u.password_hash
    then some (no_password i u.username)
    else rest

abbrev pub has_user : List User → Option ConfigError
has_user [] = some no_users
has_user (u ∷ users) = none

unfoldable pub check_logging : LoggingConfig → Option ConfigError
unfolding member
check_logging c =
    if not (member c.level levels)
    then some (bad_level c.level)
    else if not (member c.format formats)
    then some (bad_log_format c.format)
    else none

-- Config.Validate.
unfoldable pub validate : Config → Option ConfigError
unfolding check_ftp check_s3 check_users check_logging
validate c = or_next (check_ftp c.ftp) (
    or_next (check_s3 c.s3) (
      or_next (has_user c.ftp.users)
        (or_next (check_users 0 [] c.ftp.users) (check_logging c.logging))))
