-- ===== src/Config/Load/Sound.antt =====
-- What holds of every document that Load of internal/config/config.go returns.
use Prim.Native.String.{String}
use s32ftp.Prelude.{◌≡◌, refl, Option, none, some}
use s32ftp.Text.{Str}
use s32ftp.Errors.{Result, ok, err, ◌>>=◌}
use s32ftp.Config.{Config}
use s32ftp.Config.Normalize.{normalize}
use s32ftp.Config.Normalize.Roots.{RootsAreNormal, normalize-RootsAreNormal}
use s32ftp.Config.Env.{ConfigError, apply_env}
use s32ftp.Config.Validate.{validate}
use s32ftp.Config.Validate.Sound.{IsValid, validate_iff}
use s32ftp.Config.Load.{read_config, checked, load}

pub bind-eq-ok :
    {E A B : Type 0} (m : Result E A) (f : A → Result E B) {b : B}
    → (m >>= f) ≡ ok b
    → (a : A) × (m ≡ ok a) × (f a ≡ ok b)
bind-eq-ok (ok a) f h = (a, refl, h)
bind-eq-ok (err e) f h = absurd (cc)

checked-eq-ok : {c d : Config} (v : Option ConfigError) → checked c v ≡ ok d → (v ≡ none) × (c ≡ d)
checked-eq-ok none h = (refl, cc)
checked-eq-ok (some e) h = absurd (cc)

-- A document that Load returns is consistent, and its root prefix and those of its users are empty
-- or end in "/", whatever the file and the environment hold.
pub load-IsValid :
    (unicode : Str → Str) (env : String → Option Str) (read_file : Str → Option Str)
    (unmarshal : Str → Config → Option Config) (path : Str) {c : Config}
    → load unicode env read_file unmarshal path ≡ ok c
    → IsValid c × RootsAreNormal c
unfolding load
load-IsValid unicode env read_file unmarshal path {c} h =
    let (a, _, h1) = bind-eq-ok (read_config unicode env read_file unmarshal path) _ h in
    let (d, _, h2) = bind-eq-ok (apply_env env (normalize unicode a)) _ h1 in
    let (valid, same) = checked-eq-ok (validate (normalize unicode d)) h2 in
    rw (← same) ((validate_iff (normalize unicode d)).0 valid, normalize-RootsAreNormal unicode d)
