-- ===== src/Config/Load.antt =====
-- Load of internal/config/config.go. `read_file` is `os.ReadFile`, and `unmarshal data c` is
-- `yaml.Unmarshal` into a document that holds `c`; none is an error.
pub mod Sound
use Prim.Native.String.{String}
use s32ftp.Prelude.{Option, none, some, List, [], ◌∷◌}
use s32ftp.Text.{Str}
use s32ftp.Errors.{Result, ok, err, ◌>>=◌}
use s32ftp.Config.{Config, default_config}
use s32ftp.Config.Normalize.{normalize}
use s32ftp.Config.Env.{ConfigError, read_failed, parse_failed, apply_env}
use s32ftp.Config.Validate.{validate}

abbrev pub or_fail : {A : Type 0} → ConfigError → Option A → Result ConfigError A
or_fail e none = err e
or_fail e (some a) = ok a

abbrev pub checked : Config → Option ConfigError → Result ConfigError Config
checked c none = ok c
checked c (some e) = err e

module _ (unicode : Str → Str) (env : String → Option Str) (read_file : Str → Option Str)
    (unmarshal : Str → Config → Option Config) where
  unfoldable pub read_config : Str → Result ConfigError Config
  unfolding default_config
  read_config [] = ok default_config
  read_config (c ∷ path) = do
    text ← or_fail (read_failed (c ∷ path)) (read_file (c ∷ path))
    or_fail (parse_failed (c ∷ path)) (unmarshal text default_config)

  unfoldable pub load : Str → Result ConfigError Config
  unfolding read_config normalize apply_env validate
  load path = do
    c ← read_config path
    d ← apply_env env (normalize unicode c)
    checked (normalize unicode d) (validate (normalize unicode d))
