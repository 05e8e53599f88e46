-- ===== src/Keys/Root.antt =====
-- Keys under a root prefix: joinRoot, dirKey and relativeName of internal/s3fs/path.go.
use s32ftp.Prelude.{
  ℕ, ◌≡◌, refl, sym, ap, ◌∙◌, ◌↔◌, ◌⊎◌, inl, inr, Bool, true, false, ◌&&◌, ◌||◌, List, [], ◌∷◌,
  ◌++◌, arith, if◌then◌else◌, append-nil, append_assoc,
}
use s32ftp.Text.{Str, str_eq, is_nil, has_prefix, trim_prefix, contains_char, join, ends_with}
use s32ftp.Text.Laws.{
  str_eq_iff, has_prefix-append, has_prefix-append_both, trim_prefix-append, append_cancel,
  ends_with-append, ends_with_of_absent, trim_last-append, trim_last_of_absent, trim_last-concat,
  append_cons_ne,
}
use s32ftp.Keys.{slash, root_path, clean_ftp_path, join_root, dir_key, relative_name}
use s32ftp.Keys.Segments.{is_element, AllElements, HaveNo, elements-HaveNo}
use s32ftp.Keys.Clean.{clean_ftp_path-IsClean}

-- The elements of the cleaned path.
abbrev pub elements_of : Str → List Str
elements_of p = (clean_ftp_path-IsClean p).elements

-- The condition that NewFS states of a root prefix: empty, or terminated by "/".
abbrev pub IsRootPrefix : Str → Type 0
IsRootPrefix r = (r ≡ []) ⊎ (ends_with slash r ≡ true)

join_root_at :
    (root j : Str)
    → (if str_eq (slash ∷ j) root_path then root else root ++ trim_prefix root_path (slash ∷ j))
      ≡ root ++ j
unfolding str_eq trim_prefix
join_root_at root [] = sym (append-nil root)
join_root_at root (x ∷ j) = refl

-- The key of a path is the root prefix followed by the elements of the cleaned path, joined by "/".
pub join_root_lem : (root p : Str) → join_root root p ≡ root ++ join slash (elements_of p)
unfolding join_root
join_root_lem root p =
    rw (clean_ftp_path-IsClean p).spelled (join_root_at root (join slash (elements_of p)))

-- Under one root prefix, two paths have the same key exactly when they clean to the same path.
pub join_root-injective :
    (root p q : Str) → (join_root root p ≡ join_root root q) ↔ (clean_ftp_path p ≡ clean_ftp_path q)
join_root-injective root p q = (same_path, same_key)
  where
    same_path : join_root root p ≡ join_root root q → clean_ftp_path p ≡ clean_ftp_path q
    same_path e =
        (clean_ftp_path-IsClean p).spelled
        ∙ ap (◌∷◌ slash)
            (append_cancel root _ _ (sym (join_root_lem root p) ∙ e ∙ join_root_lem root q))
        ∙ sym (clean_ftp_path-IsClean q).spelled

    same_key : clean_ftp_path p ≡ clean_ftp_path q → join_root root p ≡ join_root root q
    same_key e = unfold join_root in rw e

-- The elements of a directory, each with "/" behind it.
unfoldable pub spell_dir : List Str → Str
spell_dir [] = []
spell_dir (s ∷ rest) = s ++ (slash ∷ spell_dir rest)

join-spell_dir :
    (s : Str) (rest : List Str) → join slash (s ∷ rest) ++ slash ∷ [] ≡ spell_dir (s ∷ rest)
unfolding join spell_dir
join-spell_dir s [] = refl
join-spell_dir s (t ∷ rest) =
    append_assoc s (slash ∷ join slash (t ∷ rest)) (slash ∷ [])
    ∙ ap (λ x. s ++ slash ∷ x) (join-spell_dir t rest)

-- A joined list of elements is not empty and does not end in "/".
pub join_open :
    (r : Str) (s : Str) (rest : List Str)
    → AllElements (s ∷ rest)
    → (is_nil (r ++ join slash (s ∷ rest)) ≡ false)
      × (ends_with slash (r ++ join slash (s ∷ rest)) ≡ false)
unfolding join is_element
join_open r [] rest h = cc h.0
join_open [] (x ∷ s) [] h = (refl, ends_with_of_absent slash (x ∷ s) (ground arith))
join_open (y ∷ r) (x ∷ s) [] h =
    (refl, ends_with-append slash (y ∷ r) x s ∙ ends_with_of_absent slash (x ∷ s) (ground arith))
join_open r (x ∷ s) (t ∷ rest) h =
    rw (regroup r (x ∷ s) (join slash (t ∷ rest)))
      (join_open ((r ++ (x ∷ s)) ++ (slash ∷ [])) t rest h.1)
  where
    regroup : (a b j : Str) → a ++ (b ++ (slash ∷ j)) ≡ ((a ++ b) ++ (slash ∷ [])) ++ j
    regroup a b j = simp append_assoc

dir_key_at :
    (root : Str) (segs : List Str)
    → IsRootPrefix root
    → AllElements segs
    → (if is_nil (root ++ join slash segs) || ends_with slash (root ++ join slash segs)
        then root ++ join slash segs
        else (root ++ join slash segs) ++ (slash ∷ []))
      ≡ root ++ spell_dir segs
unfolding join spell_dir
dir_key_at root [] (inl e) h = rw e
dir_key_at root [] (inr e) h = rw (append-nil, e) (at_nil root)
  where
    at_nil : (r : Str) → (if is_nil r || true then r else r ++ (slash ∷ [])) ≡ r
    at_nil [] = refl
    at_nil (x ∷ r) = refl
dir_key_at root (s ∷ rest) w h =
    rw ((join_open root s rest h).0, (join_open root s rest h).1)
      (append_assoc root (join slash (s ∷ rest)) (slash ∷ [])
        ∙ ap (λ x. root ++ x) (join-spell_dir s rest))

-- The directory key of a path is the root prefix followed by each element with "/" behind it, so
-- it is empty or ends in "/", when the root prefix is empty or ends in "/".
pub dir_key_lem :
    (root p : Str) → IsRootPrefix root → dir_key root p ≡ root ++ spell_dir (elements_of p)
unfolding dir_key
dir_key_lem root p w =
    rw (join_root_lem root p) (dir_key_at root (elements_of p) w (clean_ftp_path-IsClean p).proper)

has_prefix-open :
    (s t x y : Str)
    → contains_char slash s ≡ false
    → contains_char slash t ≡ false
    → has_prefix (s ++ (slash ∷ x)) (t ++ (slash ∷ y)) ≡ str_eq s t && has_prefix x y
unfolding has_prefix contains_char str_eq
has_prefix-open [] [] x y h k = refl
has_prefix-open [] (b ∷ t) x y h k = ground arith
has_prefix-open (a ∷ s) [] x y h k = ground arith
has_prefix-open (a ∷ s) (b ∷ t) x y h k = ground (arith, has_prefix-open s t x y)

-- `below` lies in the directory `above` or is that directory.
abbrev pub IsBelow : List Str → List Str → Type 0
IsBelow above below = (rest : List Str) × (below ≡ above ++ rest)

has_prefix-nil : (s x : Str) → has_prefix (s ++ (slash ∷ x)) [] ≡ false
unfolding has_prefix
has_prefix-nil [] x = refl
has_prefix-nil (a ∷ s) x = refl

&&-eq-true : (a b : Bool) → ((a && b) ≡ true) → (a ≡ true) × (b ≡ true)
&&-eq-true true true h = (refl, refl)
&&-eq-true true false h = cc
&&-eq-true false b h = cc

has_prefix-spell_dir :
    (a b : List Str)
    → HaveNo slash a
    → HaveNo slash b
    → (has_prefix (spell_dir a) (spell_dir b) ≡ true) ↔ IsBelow a b
unfolding spell_dir
has_prefix-spell_dir [] b h k = (λ _. (b, refl), λ _. unfold has_prefix in refl)
has_prefix-spell_dir (s ∷ a) [] h k = rw has_prefix-nil (λ e. cc, λ below. cc (below.1))
has_prefix-spell_dir (s ∷ a) (t ∷ b) h k =
    rw (has_prefix-open s t (spell_dir a) (spell_dir b) h.0 k.0)
      (forth (has_prefix-spell_dir a b h.1 k.1), back (has_prefix-spell_dir a b h.1 k.1))
  where
    forth :
        ((has_prefix (spell_dir a) (spell_dir b) ≡ true) ↔ IsBelow a b)
        → (str_eq s t && has_prefix (spell_dir a) (spell_dir b)) ≡ true
        → IsBelow (s ∷ a) (t ∷ b)
    forth ih e =
        let both = &&-eq-true (str_eq s t) _ e in
        let (rest, r) = ih.0 both.1 in (rest, cc ((str_eq_iff s t).0 both.0))

    back :
        ((has_prefix (spell_dir a) (spell_dir b) ≡ true) ↔ IsBelow a b)
        → IsBelow (s ∷ a) (t ∷ b)
        → (str_eq s t && has_prefix (spell_dir a) (spell_dir b)) ≡ true
    back ih (rest, r) = rw ((str_eq_iff s t).1 (cc), ih.1 (rest, cc)) refl

-- The directory key of one path begins with that of another exactly when the first path lies in
-- the second or is the same, for a root prefix that is empty or ends in "/".
pub dir_key-IsBelow :
    (root p q : Str)
    → IsRootPrefix root
    → (has_prefix (dir_key root p) (dir_key root q) ≡ true)
      ↔ IsBelow (elements_of p) (elements_of q)
dir_key-IsBelow root p q w =
    rw (dir_key_lem root p w, dir_key_lem root q w, has_prefix-append_both root)
      (has_prefix-spell_dir (elements_of p) (elements_of q) (no_slash p) (no_slash q))
  where
    no_slash : (x : Str) → HaveNo slash (elements_of x)
    no_slash x = elements-HaveNo (elements_of x) (clean_ftp_path-IsClean x).proper

-- Both keys of a path begin with the root prefix.
pub keys_in_root :
    (root p : Str)
    → (has_prefix root (join_root root p) ≡ true) × (has_prefix root (dir_key root p) ≡ true)
unfolding dir_key
keys_in_root root p =
    rw (join_root_lem root p)
      (has_prefix-append root j, closed (is_nil (root ++ j) || ends_with slash (root ++ j)))
  where
    j : Str
    j = join slash (elements_of p)

    closed :
        (b : Bool) → has_prefix root (if b then root ++ j else (root ++ j) ++ (slash ∷ [])) ≡ true
    closed true = has_prefix-append root j
    closed false = rw (append_assoc root j (slash ∷ [])) (has_prefix-append root _)

-- relativeName gives back the name that was put behind the prefix, of a file or of a directory.
pub relative_name-append :
    (prefix : Str) (x : ℕ) (name : Str)
    → contains_char slash (x ∷ name) ≡ false
    → (relative_name prefix (prefix ++ (x ∷ name)) ≡ x ∷ name)
      × (relative_name prefix (prefix ++ (x ∷ name) ++ (slash ∷ [])) ≡ x ∷ name)
unfolding relative_name
relative_name-append prefix x name h = (
  rw (
    append_cons_ne,
    trim_last-append,
    trim_last_of_absent slash (x ∷ name) (ends_with_of_absent slash (x ∷ name) h),
    trim_prefix-append,
  ),
  rw (
    append_assoc prefix (x ∷ name) (slash ∷ []),
    append_cons_ne,
    trim_last-append,
    trim_last-concat slash (x ∷ name),
    trim_prefix-append,
  ),
)
