-- ===== src/Service/Memory/Folders.antt =====
-- How the service that keeps its objects in a list folds keys at the delimiter.
use s32ftp.Prelude.{
  ◌≡◌, refl, sym, ap, ◌∙◌, ◌⊎◌, inl, inr, Bool, true, false, ◌||◌, List, [], ◌∷◌, ◌++◌, Option,
  none, some, All, arith, Bool-cases, append_assoc,
}
use s32ftp.Text.{Str, str_eq, trim_prefix, contains_char, member, split}
use s32ftp.Text.Laws.{str_eq_iff, str_eq_refl}
use s32ftp.Keys.{slash}
use s32ftp.Service.{Entry}
use s32ftp.Service.Lawful.{HasPrefixes}
use s32ftp.Service.Thorough.{is_listed}
use s32ftp.Service.Delimited.{IsFolder}
use s32ftp.Dir.AllKeys.{or_cases, or_true}
use s32ftp.Service.Memory.{folded, add_prefix, keep_entry, fold_entries, fold_prefixes}
use s32ftp.Service.Memory.Cuts.{Cut, shown, hidden, Cut-entry, folded_file, folded_folder}

listed_kept :
    (k : Str) (x : Option Str) (o : Entry) (es : List Entry)
    → is_listed k es ≡ true
    → is_listed k (keep_entry x o es) ≡ true
unfolding is_listed
listed_kept k none o es h = rw h (pick (str_eq k o.key))
  where
    pick : (b : Bool) → (b || true) ≡ true
    pick true = refl
    pick false = refl
listed_kept k (some c) o es h = h

member-add_prefix :
    (c : Str) (x : Option Str) (ps : List Str)
    → member c ps ≡ true
    → member c (add_prefix x ps) ≡ true
unfolding member
member-add_prefix c none ps h = h
member-add_prefix c (some d) ps h = ground arith

added_prefix : (c : Str) (ps : List Str) → member c (add_prefix (some c) ps) ≡ true
unfolding member
added_prefix c ps = ground (arith, str_eq_refl c)

pub file_shown :
    (p n : Str) (es : List Entry)
    → contains_char slash n ≡ false
    → is_listed (p ++ n) es ≡ true
    → is_listed (p ++ n) (fold_entries p es) ≡ true
unfolding fold_entries is_listed
file_shown p n [] plain h = h
file_shown p n (o ∷ es) plain h = elim (Bool-cases (str_eq (p ++ n) o.key)) [
  | inl e ↦
      rw
        (ap (λ k. folded p (split slash (trim_prefix p k))) (sym ((str_eq_iff (p ++ n) o.key).0 e))
          ∙ folded_file p n plain)
        (rw e refl)
  | inr e ↦
      listed_kept (p ++ n) (folded p (split slash (trim_prefix p o.key))) o (fold_entries p es)
        (file_shown p n es plain (rw e at h))
]

pub folder_shown :
    (p n s : Str) (es : List Entry)
    → contains_char slash n ≡ false
    → is_listed ((p ++ n) ++ (slash ∷ s)) es ≡ true
    → member ((p ++ n) ++ (slash ∷ [])) (fold_prefixes p es) ≡ true
unfolding fold_prefixes is_listed
folder_shown p n s [] plain h = cc h
folder_shown p n s (o ∷ es) plain h = elim (Bool-cases (str_eq ((p ++ n) ++ (slash ∷ s)) o.key)) [
  | inl e ↦
      rw
        (ap (λ k. folded p (split slash (trim_prefix p k))) (sym ((str_eq_iff _ o.key).0 e))
          ∙ folded_folder p n s plain)
        (added_prefix ((p ++ n) ++ (slash ∷ [])) (fold_prefixes p es))
  | inr e ↦
      member-add_prefix _ (folded p (split slash (trim_prefix p o.key))) (fold_prefixes p es)
        (folder_shown p n s es plain (rw e at h))
]

pub shown-is_listed :
    (k p : Str) (es : List Entry) → is_listed k (fold_entries p es) ≡ true → is_listed k es ≡ true
unfolding fold_entries is_listed
shown-is_listed k p [] h = h
shown-is_listed k p (o ∷ es) h =
    pick (folded p (split slash (trim_prefix p o.key))) (shown-is_listed k p es) h
  where
    pick :
        (x : Option Str)
        → (is_listed k (fold_entries p es) ≡ true → is_listed k es ≡ true)
        → is_listed k (keep_entry x o (fold_entries p es)) ≡ true
        → (str_eq k o.key || is_listed k es) ≡ true
    pick none ih g = elim (or_cases (str_eq k o.key) (is_listed k (fold_entries p es)) g) [
      | inl e ↦ rw e refl
      | inr e ↦ rw (ih e) (or_true _)
    ]
    pick (some c) ih g = rw (ih g) (or_true _)

prefix_cases :
    (c d : Str) (ps : List Str)
    → member c (add_prefix (some d) ps) ≡ true
    → (c ≡ d) ⊎ (member c ps ≡ true)
unfolding member
prefix_cases c d ps h = elim (Bool-cases (member d ps)) [
  | inl e ↦ inr (rw e at h)
  | inr e ↦ elim (or_cases (str_eq c d) (member c ps) (rw e at h)) [
    | inl same ↦ inl ((str_eq_iff c d).0 same)
    | inr rest ↦ inr rest
  ]
]

-- Behind a folder that is shown there is a key.
pub folder-is_listed :
    (p n : Str) (es : List Entry)
    → HasPrefixes p es
    → member ((p ++ n) ++ (slash ∷ [])) (fold_prefixes p es) ≡ true
    → (s : Str) × (is_listed ((p ++ n) ++ (slash ∷ s)) es ≡ true)
unfolding fold_prefixes is_listed member
folder-is_listed p n [] h m = absurd (cc)
folder-is_listed p n (o ∷ es) h m = pick (Cut-entry p o h.0) (folder-is_listed p n es h.1)
  where
    later :
        ((s : Str) × (is_listed ((p ++ n) ++ (slash ∷ s)) es ≡ true))
        → (s : Str) × ((str_eq ((p ++ n) ++ (slash ∷ s)) o.key
              || is_listed ((p ++ n) ++ (slash ∷ s)) es)
            ≡ true)
    later (s, l) = (s, rw l (or_true _))

    here :
        (n' s : Str)
        → o.key ≡ (p ++ n') ++ (slash ∷ s)
        → (p ++ n) ++ (slash ∷ []) ≡ (p ++ n') ++ (slash ∷ [])
        → (p ++ n) ++ (slash ∷ s) ≡ o.key
    here n' s e same =
        sym (append_assoc (p ++ n) (slash ∷ []) s)
        ∙ ap (λ c. c ++ s) same
        ∙ append_assoc (p ++ n') (slash ∷ []) s
        ∙ sym e

    pick :
        Cut p o
        → (member ((p ++ n) ++ (slash ∷ [])) (fold_prefixes p es) ≡ true
            → (s : Str) × (is_listed ((p ++ n) ++ (slash ∷ s)) es ≡ true))
        → (s : Str) × ((str_eq ((p ++ n) ++ (slash ∷ s)) o.key
              || is_listed ((p ++ n) ++ (slash ∷ s)) es)
            ≡ true)
    pick (shown e) ih = later (ih (rw e at m))
    pick (hidden n' s e plain f) ih = elim (prefix_cases _ _ (fold_prefixes p es) (rw f at m)) [
      | inl same ↦ (s, rw ((str_eq_iff _ o.key).1 (here n' s e same)) refl)
      | inr rest ↦ later (ih rest)
    ]

pub fold_prefixes-IsFolder :
    (p : Str) (es : List Entry) → HasPrefixes p es → All (IsFolder p) (fold_prefixes p es)
unfolding fold_prefixes
fold_prefixes-IsFolder p [] h = tt
fold_prefixes-IsFolder p (o ∷ es) h = pick (Cut-entry p o h.0) (fold_prefixes-IsFolder p es h.1)
  where
    pick :
        Cut p o
        → All (IsFolder p) (fold_prefixes p es)
        → All
            (IsFolder p)
            (add_prefix (folded p (split slash (trim_prefix p o.key))) (fold_prefixes p es))
    pick (shown e) ih = rw e ih
    pick (hidden n s e plain f) ih =
        rw f (elim (Bool-cases (member ((p ++ n) ++ (slash ∷ [])) (fold_prefixes p es))) [
          | inl m ↦ rw m ih
          | inr m ↦ rw m ((n, refl, plain), ih)
        ])
