-- ===== src/Keys/Source.antt =====
-- Reading the header copySource of internal/s3fs/path.go: a service splits it at the first slash and
-- takes the percent escapes out.
use s32ftp.Prelude.{
  ℕ, ◌+◌, ◌-◌, ◌≢◌, ◌*◌, ◌/◌, ◌%◌, ◌<◌, ◌≡◌, refl, sym, ap, ◌∙◌, true, false, List, [], ◌∷◌, ◌++◌,
  map, append_assoc, append-nil, All, arith, ltb, ◌==◌, if◌then◌else◌, Bool-cases, inl, inr, ==_iff,
}
use s32ftp.Text.{Str, split, onto_head, join}
use s32ftp.Keys.{slash, is_unreserved, hex_digit, escape_byte, path_escape, copy_source}

abbrev pub IsText : Str → Type 0
IsText s = All (λ c. c < 256) s

-- The value of a hexadecimal digit.
unfoldable pub unhex : ℕ → ℕ
unhex c = if ltb c 58 then c - b'0' else c - 55

-- The text without its percent escapes.
unfoldable pub unescape : Str → Str
unfolding unhex
unescape [] = []
unescape (c ∷ []) = c ∷ []
unescape (c ∷ d ∷ []) = c ∷ d ∷ []
unescape (c ∷ h ∷ l ∷ s) =
    let escaped = unescape s in
    let plain = unescape (h ∷ l ∷ s) in
    if c == b'%' then (unhex h * 16 + unhex l) ∷ escaped else c ∷ plain

-- The parts before and behind the first slash.
abbrev pub before_slash : ℕ → Str × Str → Str × Str
before_slash c (s, t) = (c ∷ s, t)

unfoldable pub cut_slash : Str → Str × Str
cut_slash [] = ([], [])
cut_slash (c ∷ s) = let rest = cut_slash s in if c == slash then ([], s) else before_slash c rest

unfoldable pub read_source : Str → Str × Str
unfolding unescape cut_slash
read_source source = let (bucket, key) = cut_slash source in (unescape bucket, unescape key)

unhex-hex_digit : (n : ℕ) → n < 16 → unhex (hex_digit n) ≡ n
unfolding unhex
unhex-hex_digit n h = ground arith

unescape_plain : (c : ℕ) (s : Str) → (c == b'%') ≡ false → unescape (c ∷ s) ≡ c ∷ unescape s
unfolding unescape
unescape_plain c [] h = refl
unescape_plain c (d ∷ []) h = refl
unescape_plain c (d ∷ e ∷ s) h = rw h refl

unreserved_plain : (c : ℕ) → is_unreserved c ≡ true → (c == b'%') ≡ false
unfolding is_unreserved
unreserved_plain c h = ground arith

unescape-escape_byte : (c : ℕ) (s : Str) → c < 256 → unescape (escape_byte c ++ s) ≡ c ∷ unescape s
unfolding escape_byte
unescape-escape_byte c s h = elim (Bool-cases (is_unreserved c)) [
  | inl e ↦ rw e (unescape_plain c s (unreserved_plain c e))
  | inr e ↦
      rw e
        (escaped (unhex-hex_digit (c / 16) (omega arith)) (unhex-hex_digit (c % 16) (omega arith)))
]
  where
    escaped :
        unhex (hex_digit (c / 16)) ≡ c / 16
        → unhex (hex_digit (c % 16)) ≡ c % 16
        → unescape (b'%' ∷ hex_digit (c / 16) ∷ hex_digit (c % 16) ∷ s) ≡ c ∷ unescape s
    escaped hi lo =
        let value : unhex (hex_digit (c / 16)) * 16 + unhex (hex_digit (c % 16)) ≡ c =
          ap (λ x. x * 16 + unhex (hex_digit (c % 16))) hi
          ∙ ap (λ x. c / 16 * 16 + x) lo
          ∙ omega arith in
        unfold unescape in ap (λ x. x ∷ unescape s) value

unescape-path_escape : (s t : Str) → IsText s → unescape (path_escape s ++ t) ≡ s ++ unescape t
unfolding path_escape
unescape-path_escape [] t h = refl
unescape-path_escape (c ∷ s) t h =
    ap unescape (append_assoc (escape_byte c) (path_escape s) t)
    ∙ unescape-escape_byte c (path_escape s ++ t) h.0
    ∙ ap (◌∷◌ c) (unescape-path_escape s t h.1)

-- The escaped key of copySource, a byte at a time.
abbrev escape_key : Str → Str
escape_key key = join slash (map path_escape (split slash key))

escaped_at : (c : ℕ) → Str
escaped_at c = if c == slash then slash ∷ [] else escape_byte c

onto_first :
    (c : ℕ) (segs : List Str)
    → segs ≢ []
    → join slash (map path_escape (onto_head c segs))
      ≡ escape_byte c ++ join slash (map path_escape segs)
unfolding join path_escape
onto_first c [] h = absurd (h refl)
onto_first c (s ∷ []) h = refl
onto_first c (s ∷ t ∷ rest) h = append_assoc (escape_byte c) (path_escape s) _

new_first :
    (segs : List Str)
    → segs ≢ []
    → join slash (map path_escape ([] ∷ segs)) ≡ slash ∷ join slash (map path_escape segs)
unfolding join path_escape
new_first [] h = absurd (h refl)
new_first (s ∷ rest) h = refl

split_some : (s : Str) → split slash s ≢ []
unfolding split
split_some [] e = cc
split_some (c ∷ s) e = ground (arith, split_some s)

unescape-escape_key : (key : Str) → IsText key → unescape (escape_key key) ≡ key
unfolding split
unescape-escape_key [] h = unfold join in unfold path_escape in unfold unescape in refl
unescape-escape_key (c ∷ key) h = elim (Bool-cases (c == slash)) [
  | inl e ↦ rw e (
      ap unescape (new_first _ (split_some key))
      ∙ unescape_plain slash _ refl
      ∙ ap (◌∷◌ slash) (unescape-escape_key key h.1)
      ∙ ap (λ x. x ∷ key) (sym ((==_iff c slash).0 e)))
  | inr e ↦ rw e (
      ap unescape (onto_first c _ (split_some key))
      ∙ unescape-escape_byte c _ h.0
      ∙ ap (◌∷◌ c) (unescape-escape_key key h.1))
]

cut_slash-cons :
    (c : ℕ) (s : Str) → (c == slash) ≡ false → cut_slash (c ∷ s) ≡ before_slash c (cut_slash s)
unfolding cut_slash
cut_slash-cons c s h = rw h refl

no_slash_hex : (n : ℕ) → (hex_digit n == slash) ≡ false
no_slash_hex n = ground arith

cut_slash-escape_byte :
    (c : ℕ) (s : Str) {a b : Str}
    → cut_slash s ≡ (a, b)
    → cut_slash (escape_byte c ++ s) ≡ (escape_byte c ++ a, b)
unfolding escape_byte
cut_slash-escape_byte c s h = elim (Bool-cases (is_unreserved c)) [
  | inl e ↦ rw e (cut_slash-cons c s (unfold is_unreserved in ground arith) ∙ ap (before_slash c) h)
  | inr e ↦ rw e (
      cut_slash-cons _ _ refl
      ∙ ap (before_slash b'%') (
          cut_slash-cons _ _ (no_slash_hex (c / 16))
          ∙ ap (before_slash (hex_digit (c / 16))) (
              cut_slash-cons _ _ (no_slash_hex (c % 16))
              ∙ ap (before_slash (hex_digit (c % 16))) h)))
]

cut_slash-path_escape : (s t : Str) → cut_slash (path_escape s ++ (slash ∷ t)) ≡ (path_escape s, t)
unfolding path_escape
cut_slash-path_escape [] t = unfold cut_slash in refl
cut_slash-path_escape (c ∷ s) t =
    ap cut_slash (append_assoc (escape_byte c) (path_escape s) (slash ∷ t))
    ∙ cut_slash-escape_byte c _ (cut_slash-path_escape s t)

-- The CopySource header of a bucket and a key that are strings of bytes gives them back: a service
-- that splits it at its first slash and takes the percent escapes out reads that bucket and that
-- key, whatever characters they have.
pub read_source-copy_source :
    (bucket key : Str)
    → IsText bucket
    → IsText key
    → read_source (copy_source bucket key) ≡ (bucket, key)
unfolding read_source copy_source
read_source-copy_source bucket key h k = rw (cut_slash-path_escape bucket (escape_key key)) (
    ap (λ b. (b, unescape (escape_key key)))
      (ap unescape (sym (append-nil (path_escape bucket)))
        ∙ unescape-path_escape bucket [] h
        ∙ append-nil bucket)
    ∙ ap (λ x. (bucket, x)) (unescape-escape_key key k))
