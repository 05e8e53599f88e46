-- ===== src/Config/Numbers.antt =====
-- Numbers and Booleans in text: `strconv.Atoi` and `strconv.ParseBool`, and the port range of
-- internal/config/config.go.
use s32ftp.Prelude.{
  ℕ, zero, suc, ◌+◌, ◌-◌, ◌*◌, ◌^◌, Bool, true, false, ◌&&◌, ◌||◌, List, [], ◌∷◌, Option, none,
  some, leb, ltb, ◌==◌, if◌then◌else◌,
}
use s32ftp.Prelude.Int.{ℤ, pos, negsuc, ltb_ℤ}
use s32ftp.Text.{Str, codes, is_nil, member, trim_space}

abbrev pub is_digit : ℕ → Bool
is_digit c = leb b'0' c && leb c b'9'

-- The value of a string of digits behind the value `n` of those before it.
unfoldable pub digits_from : ℕ → Str → Option ℕ
digits_from n [] = some n
digits_from n (c ∷ s) =
    let rest = digits_from (n * 10 + (c - b'0')) s in if is_digit c then rest else none

abbrev pub digits_of : Str → Option ℕ
digits_of [] = none
digits_of (c ∷ s) = digits_from 0 (c ∷ s)

-- An `int` has 64 bits.
abbrev pub to_int : Bool → Option ℕ → Option ℤ
to_int negative none = none
to_int true (some zero) = some (pos 0)
to_int true (some (suc n)) = if ltb n (2 ^ 63) then some (negsuc n) else none
to_int false (some n) = if ltb n (2 ^ 63) then some (pos n) else none

unfoldable pub atoi : Str → Option ℤ
unfolding digits_from
atoi [] = none
atoi (c ∷ s) =
    if c == b'-'
    then to_int true (digits_of s)
    else if c == b'+'
    then to_int false (digits_of s)
    else to_int false (digits_of (c ∷ s))

abbrev pub true_words : List Str
true_words = codes "1" ∷ codes "t" ∷ codes "T" ∷ codes "TRUE" ∷ codes "true" ∷ codes "True" ∷ []

abbrev pub false_words : List Str
false_words = codes "0" ∷ codes "f" ∷ codes "F" ∷ codes "FALSE" ∷ codes "false" ∷ codes "False" ∷ []

unfoldable pub parse_bool : Str → Option Bool
unfolding member
parse_bool s =
    if member s true_words then some true else if member s false_words then some false else none

-- `strings.SplitN(raw, "-", 2)`: the parts before and behind the first dash.
unfoldable pub cut_dash : Str → Option (Str × Str)
cut_dash [] = none
cut_dash (c ∷ s) =
    let rest = cut_dash s in
    elim (c == b'-') [
      | true ↦ some ([], s)
      | false ↦ elim rest [ none ↦ none | some parts ↦ some (c ∷ parts.0, parts.1) ]
    ]

pub data RangeError : Type 0 where
  bad_format bad_start bad_end bad_range : RangeError

pub data PortRange : Type 0 where
  unset : PortRange
  range : ℤ → ℤ → PortRange
  invalid : RangeError → PortRange

abbrev pub make_range : Option ℤ → Option ℤ → PortRange
make_range none last = invalid bad_start
make_range (some start) none = invalid bad_end
make_range (some start) (some last) =
    if ltb_ℤ start (pos 1) || ltb_ℤ (pos 65535) last || ltb_ℤ last start
    then invalid bad_range
    else range start last

abbrev pub range_of_parts : Option (Str × Str) → PortRange
range_of_parts none = invalid bad_format
range_of_parts (some parts) = make_range (atoi (trim_space parts.0)) (atoi (trim_space parts.1))

-- FTPConfig.ParsePassivePortRange.
unfoldable pub parse_port_range : Str → PortRange
unfolding trim_space cut_dash atoi
parse_port_range text =
    let raw = trim_space text in if is_nil raw then unset else range_of_parts (cut_dash raw)
