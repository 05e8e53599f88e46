-- ===== src/Keys/Segments.antt =====
-- Splitting at slashes and joining again: internal/s3fs/path.go works on the elements of a path.
use s32ftp.Prelude.{
  ℕ, ◌≡◌, refl, ap, ◌∙◌, inl, inr, Bool, true, false, not, ◌&&◌, List, [], ◌∷◌, ◌++◌, arith, ◌==◌,
  ==_refl, Bool-cases, All,
}
use s32ftp.Text.{Str, str_eq, is_nil, contains_char, split, onto_head, join}
use s32ftp.Keys.{slash, dot, dot_dot}

-- An element that stays as it is when a path is cleaned: not empty, not "." or "..", no slash.
unfoldable pub is_element : Str → Bool
is_element s =
    not (is_nil s) && not (str_eq s dot) && not (str_eq s dot_dot) && not (contains_char slash s)

abbrev pub AllElements : List Str → Type 0
AllElements segs = All (λ s. is_element s ≡ true) segs

abbrev pub HaveNo : ℕ → List Str → Type 0
HaveNo c segs = All (λ s. contains_char c s ≡ false) segs

HaveNo-onto_head :
    (c x : ℕ) (segs : List Str) → x == c ≡ false → HaveNo c segs → HaveNo c (onto_head x segs)
unfolding contains_char
HaveNo-onto_head c x [] h k = ground arith
HaveNo-onto_head c x (s ∷ rest) h k = ground arith

pub split-HaveNo : (c : ℕ) (p : Str) → HaveNo c (split c p)
unfolding split contains_char
split-HaveNo c [] = (refl, tt)
split-HaveNo c (x ∷ p) = elim (Bool-cases (x == c)) [
  | inl e ↦ rw e (refl, split-HaveNo c p)
  | inr e ↦ rw e (HaveNo-onto_head c x (split c p) e (split-HaveNo c p))
]

pub split-append :
    (c : ℕ) (s p : Str) → contains_char c s ≡ false → split c (s ++ (c ∷ p)) ≡ s ∷ split c p
unfolding split contains_char
split-append c [] p h = rw ==_refl
split-append c (x ∷ s) p h = ground (arith, split-append c s p)

pub split-single : (c : ℕ) (s : Str) → contains_char c s ≡ false → split c s ≡ s ∷ []
unfolding split contains_char
split-single c [] h = refl
split-single c (x ∷ s) h = ground (arith, split-single c s)

-- Elements without the separator come back from their join.
pub split-join :
    (c : ℕ) (s : Str) (rest : List Str)
    → HaveNo c (s ∷ rest)
    → split c (join c (s ∷ rest)) ≡ s ∷ rest
unfolding join
split-join c s [] h = split-single c s h.0
split-join c s (t ∷ rest) h = split-append c s _ h.0 ∙ ap (◌∷◌ s) (split-join c t rest h.1)

pub elements-HaveNo : (segs : List Str) → AllElements segs → HaveNo slash segs
unfolding is_element
elements-HaveNo [] h = tt
elements-HaveNo (s ∷ rest) h = (ground arith, elements-HaveNo rest h.1)
