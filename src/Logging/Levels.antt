-- ===== src/Logging/Levels.antt =====
-- The levels of internal/logging/logging.go and of Validate in internal/config/config.go.
use mathlib.Core.Path.{subst}
use s32ftp.Prelude.{◌≡◌, refl, sym, arith, Bool, false, Memᴰ}
use s32ftp.Text.{Str, str_eq, member, trim_space, to_lower}
use s32ftp.Errors.{Result, ok, err, ◌>>=◌}
use s32ftp.Config.{LoggingConfig}
use s32ftp.Config.Validate.{levels}
use s32ftp.Config.Validate.Sound.{LoggingIsValid}
use s32ftp.Logging.{
  Level, debug, info, warn, error, Output, LogError, open_failed, output_named, parse_level,
  new_logger, logger_with,
}

module _ (unicode : Str → Str) (fold : Str → Str → Bool) (can_open : Str → Bool) where
  abbrev Known : Str → Type 0
  Known t = (l : Level) × (parse_level unicode fold can_open t ≡ ok l)

  level_is_found : (t : Str) → Memᴰ t levels → Known t
  unfolding parse_level to_lower trim_space str_eq member
  level_is_found t (Memᴰ.head e) = subst Known (sym e) (info, refl)
  level_is_found t (Memᴰ.tail (Memᴰ.head e)) = subst Known (sym e) (debug, refl)
  level_is_found t (Memᴰ.tail (Memᴰ.tail (Memᴰ.head e))) = subst Known (sym e) (info, refl)
  level_is_found t (Memᴰ.tail (Memᴰ.tail (Memᴰ.tail (Memᴰ.head e)))) =
      subst Known (sym e) (warn, refl)
  level_is_found t (Memᴰ.tail (Memᴰ.tail (Memᴰ.tail (Memᴰ.tail (Memᴰ.head e))))) =
      subst Known (sym e) (warn, refl)
  level_is_found t (Memᴰ.tail (Memᴰ.tail (Memᴰ.tail (Memᴰ.tail (Memᴰ.tail (Memᴰ.head e)))))) =
      subst Known (sym e) (error, refl)
  level_is_found t (Memᴰ.tail (Memᴰ.tail (Memᴰ.tail (Memᴰ.tail (Memᴰ.tail (Memᴰ.tail m)))))) =
      elim m [ ]

  output_lem :
      (text name : Str) (e : LogError)
      → output_named unicode fold can_open text name ≡ err e
      → (e ≡ open_failed text) × (can_open text ≡ false)
  output_lem text name e h = ground arith

  after_level :
      (c : LoggingConfig) (l : Level) (o : Result LogError Output) (e : LogError)
      → (o >>= λ output. ok (logger_with unicode fold can_open c l output)) ≡ err e
      → o ≡ err e
  after_level c l (ok output) e h = absurd (cc)
  after_level c l (err x) e h = cc

-- For a logging section that Validate accepts, New fails only when its log file cannot be opened.
pub new_logger_lem :
    (unicode : Str → Str) (fold : Str → Str → Bool) (can_open : Str → Bool) (c : LoggingConfig)
    (e : LogError)
    → LoggingIsValid c
    → new_logger unicode fold can_open c ≡ err e
    → (e ≡ open_failed c.output) × (can_open c.output ≡ false)
unfolding new_logger
new_logger_lem unicode fold can_open c e v h =
    let (l, known) = level_is_found unicode fold can_open c.level v.level in
    let after : (ok l >>= λ level.
    output_named unicode fold can_open c.output (to_lower unicode (trim_space c.output))
    >>= λ output. ok (logger_with unicode fold can_open c level output))
        ≡ err e =
      rw known at h in
    output_lem unicode fold can_open c.output (to_lower unicode (trim_space c.output)) e
      (after_level unicode fold can_open c l _ e after)
