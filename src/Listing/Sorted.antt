-- ===== src/Listing/Sorted.antt =====
-- The order of what ReadDir of internal/s3fs/dir.go returns.
use mathlib.Core.Path.{subst}
use s32ftp.Prelude.{
  ℕ, ◌<◌, ◌≡◌, refl, sym, ap, ◌∙◌, ◌⊎◌, inl, inr, Bool, ◌==◌, not, ◌&&◌, if◌then◌else◌, true, false,
  List, ltb, [], ◌∷◌, ◌++◌, arith, All, Bool-cases,
}
use s32ftp.Text.{Str, str_eq, str_lt, member}
use s32ftp.Text.Laws.{str_eq_iff}
use s32ftp.Info.{FileInfo}
use s32ftp.Listing.{names_of, add_info, comes_before, insert_info, sort_infos}

str_lt_trans : (a b c : Str) → str_lt a b ≡ true → str_lt b c ≡ true → str_lt a c ≡ true
unfolding str_lt
str_lt_trans [] [] c h k = absurd (cc)
str_lt_trans [] (y ∷ b) [] h k = absurd (cc)
str_lt_trans [] (y ∷ b) (z ∷ c) h k = refl
str_lt_trans (x ∷ a) [] c h k = absurd (cc)
str_lt_trans (x ∷ a) (y ∷ b) [] h k = absurd (cc)
str_lt_trans (x ∷ a) (y ∷ b) (z ∷ c) h k = ground (arith, str_lt_trans a b c)

str_lt_total : (a b : Str) → str_lt a b ≡ false → str_eq b a ≡ false → str_lt b a ≡ true
unfolding str_lt str_eq
str_lt_total [] [] h k = absurd (cc)
str_lt_total [] (y ∷ b) h k = absurd (cc)
str_lt_total (x ∷ a) [] h k = refl
str_lt_total (x ∷ a) (y ∷ b) h k = ground (arith, str_lt_total a b)

comes_before_trans :
    (a b c : FileInfo) → comes_before a b ≡ true → comes_before b c ≡ true → comes_before a c ≡ true
unfolding comes_before
comes_before_trans a b c h k = ground (arith, str_lt_trans a.name b.name c.name)

comes_before_total :
    (a b : FileInfo)
    → comes_before a b ≡ false
    → str_eq b.name a.name ≡ false
    → comes_before b a ≡ true
unfolding comes_before
comes_before_total a b h k = ground (arith, str_lt_total a.name b.name)

-- The name of `a` differs from that of `b`.
abbrev Apart : FileInfo → FileInfo → Type 0
Apart a b = str_eq a.name b.name ≡ false

Apart-sym : (a b : FileInfo) → Apart a b → Apart b a
Apart-sym a b h = ground (arith, str_eq_iff a.name b.name, str_eq_iff b.name a.name)

-- Every info comes before those that follow it.
abbrev IsSorted : List FileInfo → Type 0
IsSorted [] = Unit
IsSorted (a ∷ infos) = All (λ b. comes_before a b ≡ true) infos × IsSorted infos

-- The first name goes on where the second one ends, or has a smaller byte at the first difference.
abbrev pub IsLess : Str → Str → Type 0
IsLess s t =
    ((x : ℕ) × (rest : Str) × (t ≡ s ++ x ∷ rest))
    ⊎ ((common : Str) × (x y : ℕ) × (s_rest t_rest : Str) × (s ≡ common ++ x ∷ s_rest)
        × (t ≡ common ++ y ∷ t_rest)
        × (x < y))

-- A directory before a file, and the smaller name first where both are of one kind.
abbrev pub IsBefore : FileInfo → FileInfo → Type 0
IsBefore a b =
    ((a.is_dir ≡ true) × (b.is_dir ≡ false)) ⊎ ((a.is_dir ≡ b.is_dir) × IsLess a.name b.name)

abbrev pub IsOrdered : List FileInfo → Type 0
IsOrdered [] = Unit
IsOrdered (a ∷ infos) = All (IsBefore a) infos × IsOrdered infos

IsLess-cons : (c : ℕ) (s t : Str) → IsLess s t → IsLess (c ∷ s) (c ∷ t)
IsLess-cons c s t (inl (x, rest, e)) = inl (x, rest, ap (λ r. c ∷ r) e)
IsLess-cons c s t (inr (common, x, y, u, v, p, q, h)) =
    inr (c ∷ common, x, y, u, v, ap (λ r. c ∷ r) p, ap (λ r. c ∷ r) q, h)

first_byte :
    (x y : ℕ) (rest : Bool)
    → (if ltb x y then true else if x == y then rest else false) ≡ true
    → (x < y) ⊎ ((x ≡ y) × (rest ≡ true))
first_byte x y rest h = ground arith

str_lt-IsLess : (s t : Str) → str_lt s t ≡ true → IsLess s t
unfolding str_lt
str_lt-IsLess [] [] h = absurd (cc)
str_lt-IsLess [] (y ∷ t) h = inl (y, t, refl)
str_lt-IsLess (x ∷ s) [] h = absurd (cc)
str_lt-IsLess (x ∷ s) (y ∷ t) h = elim (first_byte x y (str_lt s t) h) [
  | inl less ↦ inr ([], x, y, s, t, refl, refl, less)
  | inr (same, rest) ↦
      subst (λ z. IsLess (x ∷ s) (z ∷ t)) same (IsLess-cons x s t (str_lt-IsLess s t rest))
]

comes_before-IsBefore : (a b : FileInfo) → comes_before a b ≡ true → IsBefore a b
unfolding comes_before
comes_before-IsBefore a b h = pick a.is_dir b.is_dir refl refl h
  where
    pick :
        (c d : Bool)
        → a.is_dir ≡ c
        → b.is_dir ≡ d
        → (if c && not d then true else if not c && d then false else str_lt a.name b.name) ≡ true
        → IsBefore a b
    pick true false p q k = inl (p, q)
    pick true true p q k = inr (p ∙ sym q, str_lt-IsLess a.name b.name k)
    pick false true p q k = absurd (cc)
    pick false false p q k = inr (p ∙ sym q, str_lt-IsLess a.name b.name k)

-- No two infos have one name.
abbrev pub IsUnique : List FileInfo → Type 0
IsUnique [] = Unit
IsUnique (a ∷ infos) = All (Apart a) infos × IsUnique infos

All-map :
    {P Q : FileInfo → Type 0} (infos : List FileInfo)
    → ((b : FileInfo) → P b → Q b)
    → All P infos
    → All Q infos
All-map [] f h = tt
All-map (b ∷ infos) f h = (f b h.0, All-map infos f h.1)

All-insert_info :
    (P : FileInfo → Type 0) (a : FileInfo) (infos : List FileInfo)
    → P a
    → All P infos
    → All P (insert_info a infos)
unfolding insert_info
All-insert_info P a [] p h = (p, tt)
All-insert_info P a (b ∷ infos) p h = elim (Bool-cases (comes_before b a)) [
  | inl e ↦ rw e (h.0, All-insert_info P a infos p h.1)
  | inr e ↦ rw e (p, h)
]

insert_info-IsSorted :
    (a : FileInfo) (infos : List FileInfo)
    → All (Apart a) infos
    → IsSorted infos
    → IsSorted (insert_info a infos)
unfolding insert_info
insert_info-IsSorted a [] n h = (tt, tt)
insert_info-IsSorted a (b ∷ infos) n h = elim (Bool-cases (comes_before b a)) [
  | inl e ↦ rw e (All-insert_info _ a infos e h.0, insert_info-IsSorted a infos n.1 h.1)
  | inr e ↦
      let first = comes_before_total b a e n.0 in
      rw e ((first, All-map infos (λ c k. comes_before_trans a b c first k) h.0), h)
]

insert_info-IsUnique :
    (a : FileInfo) (infos : List FileInfo)
    → All (Apart a) infos
    → IsUnique infos
    → IsUnique (insert_info a infos)
unfolding insert_info
insert_info-IsUnique a [] n h = (tt, tt)
insert_info-IsUnique a (b ∷ infos) n h = elim (Bool-cases (comes_before b a)) [
  | inl e ↦
      rw e (All-insert_info _ a infos (Apart-sym a b n.0) h.0, insert_info-IsUnique a infos n.1 h.1)
  | inr e ↦ rw e (n, h)
]

pub All-sort_infos :
    (P : FileInfo → Type 0) (infos : List FileInfo) → All P infos → All P (sort_infos infos)
unfolding sort_infos
All-sort_infos P [] h = tt
All-sort_infos P (a ∷ infos) h =
    All-insert_info P a (sort_infos infos) h.0 (All-sort_infos P infos h.1)

sort_infos-IsSorted :
    (infos : List FileInfo)
    → IsUnique infos
    → IsSorted (sort_infos infos) × IsUnique (sort_infos infos)
unfolding sort_infos
sort_infos-IsSorted [] h = (tt, tt)
sort_infos-IsSorted (a ∷ infos) h =
    let (o, u) = sort_infos-IsSorted infos h.1 in
    let n = All-sort_infos _ infos h.0 in
    (insert_info-IsSorted a (sort_infos infos) n o, insert_info-IsUnique a (sort_infos infos) n u)

IsSorted-IsOrdered : (infos : List FileInfo) → IsSorted infos → IsOrdered infos
IsSorted-IsOrdered [] h = tt
IsSorted-IsOrdered (a ∷ infos) h =
    (All-map infos (comes_before-IsBefore a) h.0, IsSorted-IsOrdered infos h.1)

pub sort_infos-IsOrdered :
    (infos : List FileInfo)
    → IsUnique infos
    → IsOrdered (sort_infos infos) × IsUnique (sort_infos infos)
sort_infos-IsOrdered infos h =
    let (o, u) = sort_infos-IsSorted infos h in (IsSorted-IsOrdered (sort_infos infos) o, u)

member-Apart :
    (i : FileInfo) (infos : List FileInfo)
    → member i.name (names_of infos) ≡ false
    → All (λ b. Apart b i) infos
unfolding member
member-Apart i [] h = tt
member-Apart i (b ∷ infos) h = (
  ground (arith, str_eq_iff i.name b.name, str_eq_iff b.name i.name),
  member-Apart i infos (ground arith),
)

IsUnique-append :
    (i : FileInfo) (infos : List FileInfo)
    → All (λ b. Apart b i) infos
    → IsUnique infos
    → IsUnique (infos ++ (i ∷ []))
IsUnique-append i [] n h = (tt, tt)
IsUnique-append i (b ∷ infos) n h = (last infos n.0 h.0, IsUnique-append i infos n.1 h.1)
  where
    last : (cs : List FileInfo) → Apart b i → All (Apart b) cs → All (Apart b) (cs ++ (i ∷ []))
    last [] p q = (p, tt)
    last (c ∷ cs) p q = (q.0, last cs p q.1)

pub add_info-IsUnique :
    (i : FileInfo) (infos : List FileInfo) → IsUnique infos → IsUnique (add_info i infos)
unfolding add_info
add_info-IsUnique i infos h = elim (Bool-cases (member i.name (names_of infos))) [
  | inl e ↦ rw e h
  | inr e ↦ rw e (IsUnique-append i infos (member-Apart i infos e) h)
]
