-- ===== src/Service/Memory/Cuts.antt =====
-- Where the service that keeps its objects in a list cuts a key: behind the first slash after the prefix.
use s32ftp.Prelude.{
  ◌≡◌, refl, sym, ap, ◌∙◌, ◌⊎◌, inl, inr, Bool, true, false, List, [], ◌∷◌, ◌++◌, none, some, arith,
  ◌==◌, if◌then◌else◌, Bool-cases, append_assoc,
}
use s32ftp.Text.{Str, has_prefix, trim_prefix, contains_char, split, onto_head}
use s32ftp.Text.Laws.{has_prefix-eq, trim_prefix-append}
use s32ftp.Keys.{slash}
use s32ftp.Keys.Segments.{split-append, split-single}
use s32ftp.Service.{Entry}
use s32ftp.Service.Memory.{folded}

-- A string has no slash, or a part before its first slash.
cut :
    (t : Str)
    → (contains_char slash t ≡ false)
      ⊎ ((n : Str) × (s : Str) × (t ≡ n ++ (slash ∷ s)) × (contains_char slash n ≡ false))
unfolding contains_char
cut [] = inl refl
cut (c ∷ t) = elim (Bool-cases (c == slash)) [
  | inl e ↦ inr ([], t, ground arith, refl)
  | inr e ↦ elim (cut t) [
    | inl plain ↦ inl (ground arith)
    | inr (n, s, h, plain) ↦ inr (c ∷ n, s, ap (λ r. c ∷ r) h, ground arith)
  ]
]

pub folded_file :
    (p n : Str)
    → contains_char slash n ≡ false
    → folded p (split slash (trim_prefix p (p ++ n))) ≡ none
unfolding folded
folded_file p n plain = rw (trim_prefix-append p n, split-single slash n plain) refl

folded_more : (p n s : Str) → folded p (n ∷ split slash s) ≡ some ((p ++ n) ++ (slash ∷ []))
unfolding folded split
folded_more p n [] = refl
folded_more p n (c ∷ s) = pick (c == slash) (split slash s)
  where
    pick :
        (b : Bool) (rest : List Str)
        → folded p (n ∷ (if b then [] ∷ rest else onto_head c rest))
          ≡ some ((p ++ n) ++ (slash ∷ []))
    pick true rest = refl
    pick false [] = refl
    pick false (t ∷ rest) = refl

pub folded_folder :
    (p n s : Str)
    → contains_char slash n ≡ false
    → folded p (split slash (trim_prefix p ((p ++ n) ++ (slash ∷ s))))
      ≡ some ((p ++ n) ++ (slash ∷ []))
folded_folder p n s plain =
    rw
      (
        append_assoc p n (slash ∷ s),
        trim_prefix-append p (n ++ (slash ∷ s)),
        split-append slash n s plain,
      )
      (folded_more p n s)

-- An entry that is shown, or folded into a common prefix.
pub data Cut (p : Str) : Entry → Type 0 where
  shown : {o : Entry} → folded p (split slash (trim_prefix p o.key)) ≡ none → Cut p o
  hidden :
      {o : Entry} (n s : Str)
      → o.key ≡ (p ++ n) ++ (slash ∷ s)
      → contains_char slash n ≡ false
      → folded p (split slash (trim_prefix p o.key)) ≡ some ((p ++ n) ++ (slash ∷ []))
      → Cut p o

pub Cut-entry : (p : Str) (o : Entry) → has_prefix p o.key ≡ true → Cut p o
Cut-entry p o h = elim (cut (trim_prefix p o.key)) [
  | inl plain ↦ shown (
      ap (λ k. folded p (split slash (trim_prefix p k))) (has_prefix-eq p o.key h)
      ∙ folded_file p (trim_prefix p o.key) plain)
  | inr (n, s, e, plain) ↦
      let whole : o.key ≡ (p ++ n) ++ (slash ∷ s) =
        has_prefix-eq p o.key h ∙ ap (λ r. p ++ r) e ∙ sym (append_assoc p n (slash ∷ s)) in
      hidden n s whole plain
        (ap (λ k. folded p (split slash (trim_prefix p k))) whole ∙ folded_folder p n s plain)
]
