-- ===== src/Logging.antt =====
-- internal/logging/logging.go: the logger of a configuration. `unicode` and `unicode_fold` are what
-- `strings.ToLower` and `strings.EqualFold` do with strings that are not all ASCII, and `can_open`
-- tells whether the log file can be opened.
pub mod Levels
use s32ftp.Prelude.{
  Bool, true, false, ◌&&◌, not, List, [], ◌∷◌, Option, none, some, map, if◌then◌else◌,
}
use s32ftp.Text.{Str, codes, str_eq, is_ascii, lower, to_lower, trim_space, member}
use s32ftp.Errors.{Result, ok, err, ◌>>=◌}
use s32ftp.Config.{LoggingConfig}

-- `slog.Level`.
pub data Level : Type 0 where
  debug info warn error : Level

pub data Output : Type 0 where
  stdout stderr : Output
  log_file : Str → Output

-- The logger; a file is also the `io.Closer`.
pub record Logger : Type 0 where
  pub level : Level
  pub output : Output
  pub is_json : Bool

pub data LogError : Type 0 where
  invalid_level open_failed : Str → LogError

module _ (unicode : Str → Str) (unicode_fold : Str → Str → Bool) (can_open : Str → Bool) where
  abbrev pub equal_fold : Str → Str → Bool
  equal_fold s t =
      if is_ascii s && is_ascii t then str_eq (map lower s) (map lower t) else unicode_fold s t

  -- parseLevel.
  abbrev pub level_named : Str → Str → Result LogError Level
  level_named text name =
      if member name ([] ∷ codes "info" ∷ [])
      then ok info
      else if str_eq name (codes "debug")
      then ok debug
      else if member name (codes "warn" ∷ codes "warning" ∷ [])
      then ok warn
      else if str_eq name (codes "error")
      then ok error
      else err (invalid_level text)

  unfoldable pub parse_level : Str → Result LogError Level
  unfolding str_eq member to_lower trim_space
  parse_level level = level_named level (to_lower unicode (trim_space level))

  -- New.
  abbrev pub output_named : Str → Str → Result LogError Output
  output_named output name =
      if member name ([] ∷ codes "stdout" ∷ [])
      then ok stdout
      else if str_eq name (codes "stderr")
      then ok stderr
      else if can_open output
      then ok (log_file output)
      else err (open_failed output)

  abbrev pub logger_with : LoggingConfig → Level → Output → Logger
  logger_with cfg level output = record {
    level = level;
    output = output;
    is_json = equal_fold cfg.format (codes "json");
  }

  unfoldable pub new_logger : LoggingConfig → Result LogError Logger
  unfolding parse_level is_ascii
  new_logger cfg = do
    level ← parse_level cfg.level
    output ← output_named cfg.output (to_lower unicode (trim_space cfg.output))
    ok (logger_with cfg level output)
