-- ===== src/Driver/Settings.antt =====
-- GetSettings of internal/ftpdriver/driver.go. The listen address is kept as the pair of host and
-- port that `net.JoinHostPort` joins.
use s32ftp.Prelude.{
  ◌≡◌, ◌≢◌, refl, ap, ◌∙◌, ◌↔◌, ◌||◌, [], ◌∷◌, ◌++◌, ◌==◌, Bool, true, false, Option, none, some,
  arith, if◌then◌else◌,
}
use mathlib.Core.Option.{some-injective}
use s32ftp.Prelude.Int.{ℤ, pos, ◌≤ℤ◌, ltb_ℤ}
use s32ftp.Text.{Str, str_eq, trim_space, is_nil}
use s32ftp.Text.Laws.{str_eq_iff}
use s32ftp.Errors.{Result, ok, err}
use s32ftp.Config.{Config, FtpConfig, mode_required, mode_implicit}
use s32ftp.Config.Numbers.{
  RangeError, PortRange, bad_range, unset, range, invalid, make_range, range_of_parts, cut_dash,
  atoi, parse_port_range,
}
use s32ftp.Config.Validate.Sound.{IsValid}

pub data TlsRequirement : Type 0 where
  clear_or_encrypted mandatory_encryption implicit_encryption : TlsRequirement

pub data IpMatch : Type 0 where
  match_required match_disabled : IpMatch

pub record Settings : Type 0 where
  pub listen_addr : Str × ℤ
  pub banner : Str
  pub idle_timeout : ℤ
  pub connection_timeout : ℤ
  pub public_host : Str
  pub disable_active_mode : Bool
  pub disable_mfmt : Bool
  pub passive_ports : Option (ℤ × ℤ)
  pub pasv_connections_check : IpMatch
  pub active_connections_check : IpMatch
  pub tls_required : TlsRequirement

unfoldable pub requirement : Str → TlsRequirement
unfolding str_eq
requirement mode =
    if str_eq mode mode_implicit
    then implicit_encryption
    else if str_eq mode mode_required
    then mandatory_encryption
    else clear_or_encrypted

abbrev pub ip_match : Bool → IpMatch
ip_match disabled = if disabled then match_disabled else match_required

abbrev pub settings_with : FtpConfig → Option (ℤ × ℤ) → Settings
settings_with c ports = record {
  listen_addr = (c.listen_ip, c.port);
  banner = c.banner;
  idle_timeout = c.idle_timeout_seconds;
  connection_timeout = c.connection_timeout_seconds;
  public_host = c.public_host;
  disable_active_mode = c.disable_active_mode;
  disable_mfmt = true;
  passive_ports = ports;
  pasv_connections_check = ip_match c.disable_ip_match;
  active_connections_check = ip_match c.disable_ip_match;
  tls_required = requirement c.tls.mode;
}

abbrev pub settings_of : FtpConfig → PortRange → Result RangeError Settings
settings_of c (invalid e) = err e
settings_of c unset = ok (settings_with c none)
settings_of c (range start last) = ok (settings_with c (some (start, last)))

-- GetSettings.
unfoldable pub get_settings : Config → Result RangeError Settings
unfolding parse_port_range requirement
get_settings c = settings_of c.ftp (parse_port_range c.ftp.passive_port_range)

-- The trimmed text is two numbers with a dash between them, which lie in the range of ports.
pub record AreWritten (raw : Str) (start last : ℤ) : Type 0 where
  pub lower : Str
  pub upper : Str
  pub dashed : raw ≡ lower ++ b'-' ∷ upper
  pub first_number : atoi (trim_space lower) ≡ some start
  pub last_number : atoi (trim_space upper) ≡ some last
  pub positive : pos 1 ≤ℤ start
  pub in_order : start ≤ℤ last
  pub below : last ≤ℤ pos 65535

-- There are ports exactly when the configured text is not blank, and they are the two numbers in it.
abbrev pub PortsAreProper : Str → Option (ℤ × ℤ) → Type 0
PortsAreProper text none = trim_space text ≡ []
PortsAreProper text (some (start, last)) = AreWritten (trim_space text) start last

-- What a range is of a text.
abbrev InRange : Str → PortRange → Type 0
InRange raw (range start last) = AreWritten raw start last
InRange raw unset = raw ≡ []
InRange raw (invalid e) = Unit

cut_dash_lem :
    (s : Str) {parts : Str × Str} → cut_dash s ≡ some parts → s ≡ parts.0 ++ b'-' ∷ parts.1
unfolding cut_dash
cut_dash_lem [] h = absurd (cc)
cut_dash_lem (c ∷ s) {parts} h = pick (c == b'-') refl (cut_dash s) (λ ps e. cut_dash_lem s e) h
  where
    pick :
        (d : Bool)
        → (c == b'-') ≡ d
        → (o : Option (Str × Str)) → ((ps : Str × Str) → o ≡ some ps → s ≡ ps.0 ++ b'-' ∷ ps.1)
        → elim d as (λ _. Option (Str × Str)) [
          | true ↦ some ([], s)
          | false ↦ elim o [ none ↦ none | some parts ↦ some (c ∷ parts.0, parts.1) ]
        ]
          ≡ some parts
        → c ∷ s ≡ parts.0 ++ b'-' ∷ parts.1
    pick true e o g k =
        let same : c ≡ b'-' = ground arith in
        let cut : ([], s) ≡ parts = some-injective _ _ k in
        ap (λ x. x ∷ s) same ∙ ap (λ (p : Str × Str). p.0 ++ b'-' ∷ p.1) cut
    pick false e none g k = absurd (cc)
    pick false e (some ps) g k =
        let cut : (c ∷ ps.0, ps.1) ≡ parts = some-injective _ _ k in
        ap (λ x. c ∷ x) (g ps refl) ∙ ap (λ (p : Str × Str). p.0 ++ b'-' ∷ p.1) cut

make_range-InRange :
    (raw lower upper : Str) (a b : Option ℤ)
    → raw ≡ lower ++ b'-' ∷ upper
    → atoi (trim_space lower) ≡ a
    → atoi (trim_space upper) ≡ b
    → InRange raw (make_range a b)
make_range-InRange raw lower upper none b h p q = tt
make_range-InRange raw lower upper (some a) none h p q = tt
make_range-InRange raw lower upper (some a) (some b) h p q =
    pick (ltb_ℤ a (pos 1) || ltb_ℤ (pos 65535) b || ltb_ℤ b a) refl
  where
    pick :
        (bad : Bool)
        → (ltb_ℤ a (pos 1) || ltb_ℤ (pos 65535) b || ltb_ℤ b a) ≡ bad
        → InRange raw (if bad then invalid bad_range else range a b)
    pick true e = tt
    pick false e = record {
      lower = lower;
      upper = upper;
      dashed = h;
      first_number = p;
      last_number = q;
      positive = ground arith;
      in_order = ground arith;
      below = ground arith;
    }

range_of_parts-InRange :
    (raw : Str) (o : Option (Str × Str)) → cut_dash raw ≡ o → InRange raw (range_of_parts o)
range_of_parts-InRange raw none h = tt
range_of_parts-InRange raw (some parts) h =
    make_range-InRange raw parts.0 parts.1 _ _ (cut_dash_lem raw h) refl refl

if-InRange :
    (raw : Str) (r : PortRange) → InRange raw r → InRange raw (if is_nil raw then unset else r)
if-InRange [] r h = refl
if-InRange (c ∷ raw) r h = h

parse_port_range-InRange : (s : Str) → InRange (trim_space s) (parse_port_range s)
unfolding parse_port_range
parse_port_range-InRange s =
    if-InRange (trim_space s) (range_of_parts (cut_dash (trim_space s)))
      (range_of_parts-InRange (trim_space s) (cut_dash (trim_space s)) refl)

requirement_iff :
    (mode : Str)
    → ((requirement mode ≡ mandatory_encryption) ↔ (mode ≡ mode_required))
      × ((requirement mode ≡ implicit_encryption) ↔ (mode ≡ mode_implicit))
requirement_iff mode =
    unfold requirement in
    ground (arith, str_eq_iff mode mode_implicit, str_eq_iff mode mode_required)

-- What the settings of a document are to be.
pub record AreSettingsOf (c : Config) (s : Settings) : Type 0 where
  pub ports : PortsAreProper c.ftp.passive_port_range s.passive_ports
  pub mandatory : (s.tls_required ≡ mandatory_encryption) ↔ (c.ftp.tls.mode ≡ mode_required)
  pub implicit : (s.tls_required ≡ implicit_encryption) ↔ (c.ftp.tls.mode ≡ mode_implicit)

settings_of-AreSettingsOf :
    (c : Config) (r : PortRange)
    → InRange (trim_space c.ftp.passive_port_range) r
    → ((e : RangeError) → r ≢ invalid e)
    → (s : Settings) × (settings_of c.ftp r ≡ ok s) × AreSettingsOf c s
settings_of-AreSettingsOf c unset h v = (
  settings_with c.ftp none,
  refl,
  record {
    ports = h;
    mandatory = (requirement_iff c.ftp.tls.mode).0;
    implicit = (requirement_iff c.ftp.tls.mode).1;
  },
)
settings_of-AreSettingsOf c (range a b) h v = (
  settings_with c.ftp (some (a, b)),
  refl,
  record {
    ports = h;
    mandatory = (requirement_iff c.ftp.tls.mode).0;
    implicit = (requirement_iff c.ftp.tls.mode).1;
  },
)
settings_of-AreSettingsOf c (invalid e) h v = absurd (v e refl)

-- On a consistent document GetSettings returns settings: they have no passive ports only when the
-- configured range is blank, and else the two numbers that the range has around a dash, in 1 to 65535 and not in falling order; encryption is mandatory or implicit exactly when the
-- mode says so.
pub get_settings-AreSettingsOf :
    (c : Config) → IsValid c → (s : Settings) × (get_settings c ≡ ok s) × AreSettingsOf c s
get_settings-AreSettingsOf c v =
    unfold get_settings in
    settings_of-AreSettingsOf c (parse_port_range c.ftp.passive_port_range)
      (parse_port_range-InRange c.ftp.passive_port_range) v.ftp.passive_range
