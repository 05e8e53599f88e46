-- ===== src/Config/Normalize.antt =====
-- Config.normalize and NormalizePrefix of internal/config/config.go. `unicode` is `strings.ToLower` on
-- strings beyond ASCII.
pub mod Roots
use s32ftp.Prelude.{ℕ, zero, Bool, true, false, List, [], ◌∷◌, ◌++◌, map, if◌then◌else◌}
use s32ftp.Prelude.Int.{ℤ, pos, negsuc}
use s32ftp.Text.{Str, codes, is_nil, trim_space, trim_char, to_lower}
use s32ftp.Config.{Config, FtpConfig, S3Config, LoggingConfig, Tls, User, mode_off}

abbrev pub close_prefix : Str → Str
close_prefix [] = []
close_prefix (c ∷ p) = (c ∷ p) ++ (b'/' ∷ [])

-- NormalizePrefix.
unfoldable pub normalize_prefix : Str → Str
unfolding trim_space trim_char
normalize_prefix p = close_prefix (trim_char b'/' (trim_space p))

abbrev pub or_default : ℤ → ℤ → ℤ
or_default (pos zero) d = d
or_default n d = n

abbrev pub or_text : Str → Str → Str
or_text s d = if is_nil s then d else s

unfoldable pub normalize_user : User → User
unfolding trim_space normalize_prefix
normalize_user u = record u {
  username = trim_space u.username;
  root_prefix = normalize_prefix u.root_prefix;
}

module _ (unicode : Str → Str) where
  unfoldable pub normalize : Config → Config
  unfolding to_lower trim_space normalize_prefix normalize_user
  normalize c =
      let ftp = c.ftp in
      let s3 = c.s3 in
      let logging = c.logging in
      let tls = ftp.tls in
      record {
        ftp = record ftp {
          tls = record tls { mode = or_text (to_lower unicode (trim_space tls.mode)) mode_off };
          users = map normalize_user ftp.users;
        };
        s3 = record s3 {
          part_size_mb = or_default s3.part_size_mb (pos 8);
          upload_concurrency = or_default s3.upload_concurrency (pos 4);
          region = or_text s3.region (codes "us-east-1");
          root_prefix = normalize_prefix s3.root_prefix;
        };
        logging = record logging {
          level = to_lower unicode (trim_space logging.level);
          format = to_lower unicode (trim_space logging.format);
          output = trim_space logging.output;
        };
      }
