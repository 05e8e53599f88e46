-- ===== src/Text/Laws.antt =====
-- Laws of the string functions.
use s32ftp.Prelude.{ℕ, ◌≡◌, refl, ap, ◌↔◌, true, false, [], ◌∷◌, ◌++◌, some, arith, ==_refl}
use s32ftp.Text.{
  Str, str_eq, has_prefix, strip_prefix, trim_prefix, ends_with, trim_last, contains_char,
}

pub str_eq_iff : (a b : Str) → (str_eq a b ≡ true) ↔ (a ≡ b)
unfolding str_eq
str_eq_iff (x ∷ a) (y ∷ b) = ground (arith, str_eq_iff a b)
str_eq_iff _ _ = ground arith

pub str_eq_refl : (a : Str) → str_eq a a ≡ true
str_eq_refl a = (str_eq_iff a a).1 refl

-- A string has a prefix when it is that prefix with something behind it.
pub has_prefix-append : (p s : Str) → has_prefix p (p ++ s) ≡ true
unfolding has_prefix
has_prefix-append [] s = refl
has_prefix-append (x ∷ p) s = ground (arith, has_prefix-append p s)

pub has_prefix-eq : (p s : Str) → has_prefix p s ≡ true → s ≡ p ++ trim_prefix p s
unfolding has_prefix trim_prefix
has_prefix-eq [] s h = refl
has_prefix-eq (x ∷ p) [] h = cc
has_prefix-eq (x ∷ p) (y ∷ s) h = ground (arith, has_prefix-eq p s, strip_prefix-IsSome p s)
  where
    strip_prefix-IsSome :
        (p s : Str) → has_prefix p s ≡ true → (t : Str) × (strip_prefix p s ≡ some t)
    strip_prefix-IsSome [] s h = (s, refl)
    strip_prefix-IsSome (x ∷ p) [] h = cc
    strip_prefix-IsSome (x ∷ p) (y ∷ s) h = ground (arith, strip_prefix-IsSome p s)

strip_prefix-append : (p s : Str) → strip_prefix p (p ++ s) ≡ some s
unfolding strip_prefix
strip_prefix-append [] s = refl
strip_prefix-append (x ∷ p) s = rw ==_refl (strip_prefix-append p s)

pub trim_prefix-append : (p s : Str) → trim_prefix p (p ++ s) ≡ s
unfolding trim_prefix
trim_prefix-append p s = rw (strip_prefix-append p s)

pub has_prefix_trans :
    (p q s : Str) → has_prefix p q ≡ true → has_prefix q s ≡ true → has_prefix p s ≡ true
unfolding has_prefix
has_prefix_trans [] q s h k = refl
has_prefix_trans (x ∷ p) [] s h k = cc
has_prefix_trans (x ∷ p) (y ∷ q) [] h k = cc
has_prefix_trans (x ∷ p) (y ∷ q) (z ∷ s) h k = ground (arith, has_prefix_trans p q s)

pub ends_with-concat : (c : ℕ) (s : Str) → ends_with c (s ++ c ∷ []) ≡ true
unfolding ends_with
ends_with-concat c [] = ==_refl c
ends_with-concat c (x ∷ []) = ==_refl c
ends_with-concat c (x ∷ y ∷ s) = ends_with-concat c (y ∷ s)

pub trim_last-concat : (c : ℕ) (s : Str) → trim_last c (s ++ c ∷ []) ≡ s
unfolding trim_last
trim_last-concat c [] = rw (==_refl c)
trim_last-concat c (x ∷ []) = rw (==_refl c)
trim_last-concat c (x ∷ y ∷ s) = ap (◌∷◌ x) (trim_last-concat c (y ∷ s))

pub has_prefix-append_both : (r p s : Str) → has_prefix (r ++ p) (r ++ s) ≡ has_prefix p s
unfolding has_prefix
has_prefix-append_both [] p s = refl
has_prefix-append_both (x ∷ r) p s = rw ==_refl (has_prefix-append_both r p s)

pub append_cancel : (r p s : Str) → r ++ p ≡ r ++ s → p ≡ s
append_cancel [] p s h = h
append_cancel (x ∷ r) p s h = append_cancel r p s (cc)

pub ends_with-append :
    (c : ℕ) (r : Str) (x : ℕ) (s : Str) → ends_with c (r ++ (x ∷ s)) ≡ ends_with c (x ∷ s)
unfolding ends_with
ends_with-append c [] x s = refl
ends_with-append c (y ∷ []) x s = refl
ends_with-append c (y ∷ z ∷ r) x s = ends_with-append c (z ∷ r) x s

pub ends_with_of_absent : (c : ℕ) (s : Str) → contains_char c s ≡ false → ends_with c s ≡ false
unfolding ends_with contains_char
ends_with_of_absent c [] h = refl
ends_with_of_absent c (x ∷ []) h = ground arith
ends_with_of_absent c (x ∷ y ∷ s) h = ends_with_of_absent c (y ∷ s) (ground arith)

pub trim_last-append :
    (c : ℕ) (r : Str) (x : ℕ) (s : Str) → trim_last c (r ++ (x ∷ s)) ≡ r ++ trim_last c (x ∷ s)
unfolding trim_last
trim_last-append c [] x s = refl
trim_last-append c (y ∷ []) x s = refl
trim_last-append c (y ∷ z ∷ r) x s = ap (◌∷◌ y) (trim_last-append c (z ∷ r) x s)

pub trim_last_of_absent : (c : ℕ) (s : Str) → ends_with c s ≡ false → trim_last c s ≡ s
unfolding trim_last ends_with
trim_last_of_absent c [] h = refl
trim_last_of_absent c (x ∷ []) h = ground arith
trim_last_of_absent c (x ∷ y ∷ s) h = ap (◌∷◌ x) (trim_last_of_absent c (y ∷ s) h)

pub append_cons_ne : (r : Str) (x : ℕ) (s : Str) → str_eq (r ++ (x ∷ s)) r ≡ false
unfolding str_eq
append_cons_ne [] x s = refl
append_cons_ne (y ∷ r) x s = ground (arith, append_cons_ne r x s)
