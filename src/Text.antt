-- ===== src/Text.antt =====
-- Go strings as lists of their bytes, and the functions of package `strings` that the source calls.
-- The order of strings is that of their bytes, as for `<` in Go, and white space beyond ASCII is
-- recognised by its UTF-8 encoding.
pub mod Laws
use Prim.Native.Char.{code}
use Prim.Native.String.{String}
use s32ftp.Prelude.{
  ℕ, zero, suc, ◌+◌, Bool, true, false, ◌&&◌, ◌||◌, List, [], ◌∷◌, ◌++◌, reverse, Option, none,
  some, ltb, leb, ◌==◌, if◌then◌else◌, map,
}

abbrev pub Str : Type 0
Str = List ℕ

-- The bytes of an ASCII literal.
abbrev pub codes : String → Str
codes String.[] = []
codes (String.◌∷◌ c s) = code c ∷ codes s

unfoldable pub str_eq : Str → Str → Bool
str_eq [] [] = true
str_eq (x ∷ xs) (y ∷ ys) = x == y && str_eq xs ys
str_eq _ _ = false

-- `a < b` on strings.
unfoldable pub str_lt : Str → Str → Bool
str_lt [] [] = false
str_lt [] (y ∷ ys) = true
str_lt (x ∷ xs) [] = false
str_lt (x ∷ xs) (y ∷ ys) =
    let rest = str_lt xs ys in if ltb x y then true else if x == y then rest else false

abbrev pub is_nil : Str → Bool
is_nil [] = true
is_nil (_ ∷ _) = false

-- `strings.HasPrefix(s, p)`, as `has_prefix p s`.
unfoldable pub has_prefix : Str → Str → Bool
has_prefix [] s = true
has_prefix (x ∷ p) [] = false
has_prefix (x ∷ p) (y ∷ s) = x == y && has_prefix p s

-- `strings.TrimPrefix(s, p)`, as `trim_prefix p s`.
unfoldable pub strip_prefix : Str → Str → Option Str
strip_prefix [] s = some s
strip_prefix (x ∷ p) [] = none
strip_prefix (x ∷ p) (y ∷ s) = let rest = strip_prefix p s in if x == y then rest else none

abbrev pub or_else : Option Str → Str → Str
or_else none s = s
or_else (some t) s = t

unfoldable pub trim_prefix : Str → Str → Str
unfolding strip_prefix
trim_prefix p s = or_else (strip_prefix p s) s

-- `strings.HasSuffix` and `strings.TrimSuffix` at a suffix of one character.
unfoldable pub ends_with : ℕ → Str → Bool
ends_with c [] = false
ends_with c (x ∷ []) = x == c
ends_with c (x ∷ y ∷ s) = ends_with c (y ∷ s)

unfoldable pub trim_last : ℕ → Str → Str
trim_last c [] = []
trim_last c (x ∷ []) = if x == c then [] else x ∷ []
trim_last c (x ∷ y ∷ s) = x ∷ trim_last c (y ∷ s)

-- `strings.Contains` at a string of one character.
unfoldable pub contains_char : ℕ → Str → Bool
contains_char c [] = false
contains_char c (x ∷ s) = x == c || contains_char c s

-- The encodings of the code points at which `unicode.IsSpace` holds, by their length in bytes.
unfoldable pub is_space : ℕ → Bool
is_space a = (leb 9 a && leb a 13) || a == 32

unfoldable pub is_space2 : ℕ → ℕ → Bool
is_space2 a b = a == 0xC2 && (b == 0x85 || b == 0xA0)

unfoldable pub is_space3 : ℕ → ℕ → ℕ → Bool
is_space3 a b c =
    (a == 0xE1 && b == 0x9A && c == 0x80)
    || (a == 0xE2 && b == 0x80 && leb 0x80 c && leb c 0x8A)
    || (a == 0xE2 && b == 0x80 && (c == 0xA8 || c == 0xA9 || c == 0xAF))
    || (a == 0xE2 && b == 0x81 && c == 0x9F)
    || (a == 0xE3 && b == 0x80 && c == 0x80)

-- The length of the white space character at the front of a string, and at the front of a
-- reversed one; 0 if there is none.
unfoldable pub lead : Str → ℕ
unfolding is_space is_space2 is_space3
lead [] = 0
lead (a ∷ []) = if is_space a then 1 else 0
lead (a ∷ b ∷ []) = if is_space a then 1 else if is_space2 a b then 2 else 0
lead (a ∷ b ∷ c ∷ s) =
    if is_space a then 1 else if is_space2 a b then 2 else if is_space3 a b c then 3 else 0

unfoldable pub trail : Str → ℕ
unfolding is_space is_space2 is_space3
trail [] = 0
trail (a ∷ []) = if is_space a then 1 else 0
trail (a ∷ b ∷ []) = if is_space a then 1 else if is_space2 b a then 2 else 0
trail (a ∷ b ∷ c ∷ s) =
    if is_space a then 1 else if is_space2 b a then 2 else if is_space3 c b a then 3 else 0

-- Drops characters from the front while `width` finds one; `k` bytes of the last one are left.
unfoldable pub drop_spaces : (Str → ℕ) → ℕ → Str → Str
drop_spaces width k [] = []
drop_spaces width (suc k) (x ∷ s) = drop_spaces width k s
drop_spaces width zero (x ∷ s) = elim (width (x ∷ s)) [
  | zero ↦ x ∷ s
  | suc k ↦ drop_spaces width k s
]

-- `strings.TrimSpace`.
unfoldable pub trim_space : Str → Str
unfolding lead trail drop_spaces
trim_space s = reverse (drop_spaces trail 0 (reverse (drop_spaces lead 0 s)))

unfoldable pub drop_char : ℕ → Str → Str
drop_char c [] = []
drop_char c (x ∷ s) = let rest = drop_char c s in if x == c then rest else x ∷ s

-- `strings.Trim(s, string(c))`, at an ASCII character.
unfoldable pub trim_char : ℕ → Str → Str
unfolding drop_char
trim_char c s = reverse (drop_char c (reverse (drop_char c s)))

-- `strings.Split(s, string(c))`: the character before the head of a list that is never empty.
abbrev pub onto_head : ℕ → List Str → List Str
onto_head x [] = (x ∷ []) ∷ []
onto_head x (s ∷ rest) = (x ∷ s) ∷ rest

unfoldable pub split : ℕ → Str → List Str
split c [] = [] ∷ []
split c (x ∷ s) = let rest = split c s in if x == c then [] ∷ rest else onto_head x rest

-- `strings.Join(segments, string(c))`.
unfoldable pub join : ℕ → List Str → Str
join c [] = []
join c (s ∷ []) = s
join c (s ∷ t ∷ rest) = s ++ (c ∷ join c (t ∷ rest))

unfoldable pub is_ascii : Str → Bool
is_ascii [] = true
is_ascii (c ∷ s) = ltb c 128 && is_ascii s

abbrev pub lower : ℕ → ℕ
lower c = if leb b'A' c && leb c b'Z' then c + 32 else c

-- `strings.ToLower`. `unicode` is what it does with a string that is not all ASCII.
unfoldable pub to_lower : (Str → Str) → Str → Str
unfolding is_ascii
to_lower unicode s = if is_ascii s then map lower s else unicode s

-- Membership of a string in a list of strings.
unfoldable pub member : Str → List Str → Bool
unfolding str_eq
member s [] = false
member s (t ∷ rest) = str_eq s t || member s rest
