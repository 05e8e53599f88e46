-- ===== src/Config/Normalize/Roots.antt =====
-- The shape of what NormalizePrefix of internal/config/config.go returns.
use mathlib.Core.List.{reverse-append, reverse-reverse}
use s32ftp.Prelude.{
  ℕ, ◌≡◌, refl, sym, ap, ◌∙◌, inl, inr, Bool, false, List, [], ◌∷◌, ◌++◌, reverse, map, All, arith,
  ◌==◌, Bool-cases,
}
use s32ftp.Text.{Str, trim_space, drop_char, trim_char}
use s32ftp.Text.Laws.{ends_with-concat}
use s32ftp.Keys.{slash}
use s32ftp.Keys.Root.{IsRootPrefix}
use s32ftp.Config.{Config, User}
use s32ftp.Config.Normalize.{close_prefix, normalize_prefix, normalize_user, normalize}

-- Whether a string begins with a character.
abbrev pub starts_with : ℕ → Str → Bool
starts_with c [] = false
starts_with c (x ∷ s) = x == c

drop_char_start : (c : ℕ) (s : Str) → starts_with c (drop_char c s) ≡ false
unfolding drop_char
drop_char_start c [] = refl
drop_char_start c (x ∷ s) = ground (arith, drop_char_start c s)

-- What is dropped stands in front of what is left.
drop_char_split : (c : ℕ) (s : Str) → (k : Str) × (s ≡ k ++ drop_char c s)
unfolding drop_char
drop_char_split c [] = ([], refl)
drop_char_split c (x ∷ s) = elim (Bool-cases (x == c)) [
  | inl e ↦ let (k, h) = drop_char_split c s in (x ∷ k, rw e (ap (◌∷◌ x) h))
  | inr e ↦ ([], rw e)
]

starts_with_front : (c : ℕ) (a b : Str) → starts_with c (a ++ b) ≡ false → starts_with c a ≡ false
starts_with_front c [] b h = refl
starts_with_front c (x ∷ a) b h = h

-- A string that is trimmed does not begin with the character.
trim_char_start : (c : ℕ) (s : Str) → starts_with c (trim_char c s) ≡ false
unfolding trim_char
trim_char_start c s =
    let t : Str = drop_char c s in
    let (k, h) = drop_char_split c (reverse t) in
    let whole : t ≡ reverse (drop_char c (reverse t)) ++ reverse k =
      sym (reverse-reverse t) ∙ ap reverse h ∙ reverse-append k _ in
    starts_with_front c _ (reverse k) (rw whole at (drop_char_start c s))

-- NormalizePrefix returns the empty string, or one that ends in "/" and does not begin with "/".
pub normalize_prefix_shape :
    (p : Str) → IsRootPrefix (normalize_prefix p) × (starts_with slash (normalize_prefix p) ≡ false)
unfolding normalize_prefix
normalize_prefix_shape p =
    shape (trim_char slash (trim_space p)) (trim_char_start slash (trim_space p))
  where
    shape :
        (t : Str)
        → starts_with slash t ≡ false
        → IsRootPrefix (close_prefix t) × (starts_with slash (close_prefix t) ≡ false)
    shape [] h = (inl refl, refl)
    shape (x ∷ t) h = (inr (ends_with-concat slash (x ∷ t)), h)

unfoldable pub RootsAreNormal : Config → Type 0
RootsAreNormal c =
    IsRootPrefix c.s3.root_prefix × All (λ (u : User). IsRootPrefix u.root_prefix) c.ftp.users

pub normalize-RootsAreNormal :
    (unicode : Str → Str) (c : Config) → RootsAreNormal (normalize unicode c)
unfolding normalize RootsAreNormal
normalize-RootsAreNormal unicode c =
    ((normalize_prefix_shape c.s3.root_prefix).0, users c.ftp.users)
  where
    users :
        (us : List User) → All (λ (u : User). IsRootPrefix u.root_prefix) (map normalize_user us)
    users [] = tt
    users (u ∷ us) = (unfold normalize_user in (normalize_prefix_shape u.root_prefix).0, users us)
