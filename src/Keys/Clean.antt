-- ===== src/Keys/Clean.antt =====
-- What CleanFTPPath of internal/s3fs/path.go returns.
use mathlib.Core.List.{reverse-cons}
use s32ftp.Prelude.{
  All-append, ◌≡◌, refl, sym, ◌∙◌, ◌⊎◌, inl, inr, true, false, List, [], ◌∷◌, ◌++◌, reverse, arith,
  ◌==◌, Bool-cases, append-nil, append_assoc,
}
use s32ftp.Text.{Str, is_nil, has_prefix, contains_char, split, join, trim_space}
use s32ftp.Keys.{slash, root_path, push_element, resolve, clean_path, ensure_slash, clean_ftp_path}
use s32ftp.Keys.Segments.{
  is_element, AllElements, HaveNo, split-HaveNo, split-join, elements-HaveNo,
}

All-reverse : (xs : List Str) → AllElements xs → AllElements (reverse xs)
All-reverse [] h = tt
All-reverse (x ∷ xs) h =
    rw (reverse-cons x xs) (All-append _ (reverse xs) (x ∷ []) (All-reverse xs h.1) (h.0, tt))

push_element-elements :
    (s : Str) (stack : List Str)
    → contains_char slash s ≡ false
    → AllElements stack
    → AllElements (push_element true s stack)
unfolding push_element is_element
push_element-elements s [] n h = ground arith
push_element-elements s (t ∷ stack) n h = ground arith

resolve-elements :
    (segs stack : List Str)
    → HaveNo slash segs
    → AllElements stack
    → AllElements (resolve true stack segs)
unfolding resolve
resolve-elements [] stack n h = All-reverse stack h
resolve-elements (s ∷ rest) stack n h =
    resolve-elements rest (push_element true s stack) n.1 (push_element-elements s stack n.0 h)

push_element_of_element :
    (s : Str) (stack : List Str) → is_element s ≡ true → push_element true s stack ≡ s ∷ stack
unfolding push_element is_element
push_element_of_element s stack h = ground arith

-- Elements that need no cleaning are kept in order.
resolve_of_elements :
    (segs stack : List Str) → AllElements segs → resolve true stack segs ≡ reverse stack ++ segs
unfolding resolve
resolve_of_elements [] stack h = sym (append-nil (reverse stack))
resolve_of_elements (s ∷ rest) stack h = rw (push_element_of_element s stack h.0) (
    resolve_of_elements rest (s ∷ stack) h.1
    ∙ rw (reverse-cons s stack) (append_assoc (reverse stack) (s ∷ []) rest))

-- A rooted path of elements that stay as they are.
pub record IsClean (p : Str) : Type 0 where
  pub elements : List Str
  pub proper : AllElements elements
  pub spelled : p ≡ slash ∷ join slash elements

clean_path_rooted :
    (p : Str)
    → clean_path (slash ∷ p) ≡ slash ∷ join slash (resolve true [] (split slash (slash ∷ p)))
unfolding clean_path
clean_path_rooted p = refl

clean_path-IsClean : (p : Str) → IsClean (clean_path (slash ∷ p))
clean_path-IsClean p = record {
  elements = resolve true [] (split slash (slash ∷ p));
  proper = resolve-elements (split slash (slash ∷ p)) [] (split-HaveNo slash (slash ∷ p)) tt;
  spelled = clean_path_rooted p;
}

-- The rooted spelling of a text.
rooted_tail : (t : Str) → (q : Str) × (ensure_slash t ≡ slash ∷ q)
unfolding has_prefix
rooted_tail [] = ([], refl)
rooted_tail (x ∷ t) = elim (Bool-cases (slash == x)) [
  | inl e ↦ (t, ground arith)
  | inr e ↦ (x ∷ t, ground arith)
]

root_path-IsClean : IsClean root_path
unfolding join
root_path-IsClean = record { elements = []; proper = tt; spelled = refl }

clean_ftp_path_cases :
    (p : Str)
    → (clean_ftp_path p ≡ root_path)
      ⊎ ((q : Str) × (ensure_slash (trim_space p) ≡ slash ∷ q)
          × (clean_ftp_path p ≡ clean_path (slash ∷ q)))
unfolding clean_ftp_path
clean_ftp_path_cases p = elim (Bool-cases (is_nil (trim_space p))) [
  | inl e ↦ inl (rw e)
  | inr e ↦ let (q, r) = rooted_tail (trim_space p) in inr (q, r, rw (e, r, clean_path_rooted q))
]

-- CleanFTPPath returns "/" followed by elements joined by "/", and each element is not empty, is
-- not "." or "..", and has no slash: no path climbs above the root.
pub clean_ftp_path-IsClean : (p : Str) → IsClean (clean_ftp_path p)
clean_ftp_path-IsClean p = elim (clean_ftp_path_cases p) [
  | inl e ↦ rw e root_path-IsClean
  | inr (q, _, e) ↦ rw e (clean_path-IsClean q)
]

split-slash : (p : Str) → split slash (slash ∷ p) ≡ [] ∷ split slash p
unfolding split
split-slash p = refl

resolve-nil : (segs : List Str) → resolve true [] ([] ∷ segs) ≡ resolve true [] segs
unfolding resolve
resolve-nil segs = refl

resolve-split-join :
    (segs : List Str)
    → AllElements segs
    → resolve true [] (split slash (slash ∷ join slash segs)) ≡ segs
resolve-split-join [] h = unfold split join resolve in refl
resolve-split-join (s ∷ rest) h =
    rw (split-slash, resolve-nil, split-join slash s rest (elements-HaveNo (s ∷ rest) h))
      (resolve_of_elements (s ∷ rest) [] h)

clean_ftp_path-join :
    (segs : List Str)
    → AllElements segs
    → trim_space (slash ∷ join slash segs) ≡ slash ∷ join slash segs
    → clean_ftp_path (slash ∷ join slash segs) ≡ slash ∷ join slash segs
unfolding clean_ftp_path
clean_ftp_path-join segs h t =
    rw (t, clean_path_rooted (join slash segs), resolve-split-join segs h)

-- A path that CleanFTPPath returned is returned again, provided that no white space stands at its
-- end. (It stands there after the cleaning of "/a /.", say.)
pub clean_ftp_path_idem :
    (p : Str)
    → trim_space (clean_ftp_path p) ≡ clean_ftp_path p
    → clean_ftp_path (clean_ftp_path p) ≡ clean_ftp_path p
clean_ftp_path_idem p t =
    let c = clean_ftp_path-IsClean p in
    rw c.spelled (clean_ftp_path-join c.elements c.proper (rw c.spelled at t))
