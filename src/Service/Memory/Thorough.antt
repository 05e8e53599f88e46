-- ===== src/Service/Memory/Thorough.antt =====
-- The service that keeps its objects in a list lists, copies and deletes as `Service.Thorough` says.
use mathlib.Core.Path.{subst}
use s32ftp.Prelude.{
  All, ℕ, zero, suc, ◌+◌, ◌≤◌, ◌<◌, min, ◌≡◌, ◌≢◌, refl, sym, ap, ◌∙◌, ◌⊎◌, inl, inr, true, false,
  ◌||◌, List, [], ◌∷◌, Option, none, some, arith, length, take, drop, drop-drop, Bool-cases,
}
use s32ftp.Text.{Str, str_eq, has_prefix, member}
use s32ftp.Text.Laws.{str_eq_iff, str_eq_refl}
use s32ftp.Keys.{copy_source}
use s32ftp.Keys.Source.{IsText, read_source-copy_source}
use s32ftp.Errors.{ok}
use s32ftp.Service.{Entry, Page, Reply}
use s32ftp.Service.Lawful.{Object, hits}
use s32ftp.Service.Thorough.{is_listed, listing, IsThorough}
use s32ftp.Service.Memory.{
  Cell, Store, find, find_source, without, without_all, matching, page_of, zeros, start_of, copy_to,
  memory,
}
use s32ftp.Service.Memory.Laws.{find-without_self, find-without}
use s32ftp.Service.Memory.Transfers.{find-put_self}

pub matching_first :
    (b p k : Str) (w : Store) {o : Object}
    → find w b k ≡ some o
    → has_prefix p k ≡ true
    → is_listed k (matching b p w) ≡ true
unfolding matching find is_listed
matching_first b p k [] h g = cc
matching_first b p k (c ∷ w) {o} h g = ground (
  arith,
  λ (h : find w b k ≡ some o). matching_first b p k w h g,
  str_eq_iff c.key k,
  str_eq_refl k,
)

pub matching_only :
    (b p k : Str) (w : Store)
    → is_listed k (matching b p w) ≡ true
    → (o : Object) × (find w b k ≡ some o)
unfolding matching find is_listed
matching_only b p k [] h = absurd (cc)
matching_only b p k (c ∷ w) h = elim (Bool-cases (hits c.bucket c.key b k)) [
  | inl e ↦ rw e (c.object, refl)
  | inr e ↦ rw e (matching_only b p k w (ground (arith, str_eq_iff k c.key, str_eq_refl k)))
]

pub listed_split :
    (n : ℕ) (k : Str) (es : List Entry)
    → is_listed k es ≡ true
    → (is_listed k (take n es) ≡ true) ⊎ ((n < length es) × (is_listed k (drop n es) ≡ true))
unfolding is_listed
listed_split zero k [] h = absurd (cc)
listed_split zero k (e ∷ es) h = inr (omega arith, h)
listed_split (suc n) k [] h = absurd (cc)
listed_split (suc n) k (e ∷ es) h = ground (arith, listed_split n k es)

pub listed-take :
    (n : ℕ) (k : Str) (es : List Entry) → is_listed k (take n es) ≡ true → is_listed k es ≡ true
unfolding is_listed
listed-take zero k es h = absurd (cc)
listed-take (suc n) k [] h = absurd (cc)
listed-take (suc n) k (e ∷ es) h = ground (arith, listed-take n k es)

pub listed-drop :
    (n : ℕ) (k : Str) (es : List Entry) → is_listed k (drop n es) ≡ true → is_listed k es ≡ true
unfolding is_listed
listed-drop zero k es h = h
listed-drop (suc n) k [] h = h
listed-drop (suc n) k (e ∷ es) h = ground (arith, listed-drop n k es)

pub length-zeros : (n : ℕ) → length (zeros n) ≡ n
unfolding zeros
length-zeros zero = refl
length-zeros (suc n) = omega (arith, length-zeros n)

take_some : (n : ℕ) (k : Str) (es : List Entry) → 1 ≤ n → is_listed k es ≡ true → take n es ≢ []
unfolding is_listed
take_some zero k es h l e = absurd (omega arith)
take_some (suc n) k [] h l e = absurd (cc)
take_some (suc n) k (x ∷ es) h l e = absurd (cc)

without_all_gone :
    (b : Str) (keys : List Str) (k : Str) (w : Store)
    → (find w b k ≡ none) ⊎ (member k keys ≡ true)
    → find (without_all b keys w) b k ≡ none
unfolding without_all member
without_all_gone b [] k w (inl h) = h
without_all_gone b [] k w (inr h) = absurd (cc)
without_all_gone b (x ∷ keys) k w h = elim (Bool-cases (str_eq k x)) [
  | inl e ↦ without_all_gone b keys k (without b x w) (
      inl
        (ap (λ y. find (without b y w) b k) (sym ((str_eq_iff k x).0 e)) ∙ find-without_self w b k))
  | inr e ↦ without_all_gone b keys k (without b x w) (still e h)
]
  where
    other : str_eq k x ≡ false → hits b x b k ≡ false
    other e = ground (arith, str_eq_iff k x, str_eq_iff x k)

    still :
        str_eq k x ≡ false
        → (find w b k ≡ none) ⊎ ((str_eq k x || member k keys) ≡ true)
        → (find (without b x w) b k ≡ none) ⊎ (member k keys ≡ true)
    still e (inl h) = inl (find-without w b x b k (other e) ∙ h)
    still e (inr h) = inr (rw e at h)

module _ (limit : ℕ) (b p : Str) (token : Option Str) (w : Store) where
  abbrev page : Page
  page = page_of limit b (listing p none token) w

  abbrev rest : List Entry
  rest = drop (start_of token) (matching b p w)

  page_goes_on :
      (k : Str)
      → is_listed k rest ≡ true
      → (is_listed k page.contents ≡ true)
        ⊎ ((page.is_truncated ≡ true)
            × (is_listed k (drop (start_of page.next_token) (matching b p w)) ≡ true))
  unfolding page_of
  page_goes_on k h = elim (listed_split limit k rest h) [
    | inl here ↦ inl here
    | inr (more, there) ↦ inr (
      ground arith,
      ap (λ n. is_listed k (drop n (matching b p w))) (length-zeros (start_of token + limit))
          ∙ ap (is_listed k) (sym (drop-drop limit (start_of token) (matching b p w)))
          ∙ there,
    )
  ]

  page_only : (k : Str) → is_listed k page.contents ≡ true → (o : Object) × (find w b k ≡ some o)
  unfolding page_of
  page_only k h =
      matching_only b p k w
        (listed-drop (start_of token) k (matching b p w) (listed-take limit k rest h))

pub same_page : (x y : Page) → ◌≡◌ {A = Reply Page} (ok x) (ok y) → x ≡ y
same_page x y h = cc

find_source_lem :
    (b k : Str) (w : Store) → IsText b → IsText k → find_source (copy_source b k) w ≡ find w b k
unfolding find_source
find_source_lem b k w t t' =
    ap (λ (x : Str × Str). find w x.0 x.1) (read_source-copy_source b k t t')

copied :
    (b k b' k' : Str) (w : Store) (found : Option Object)
    → find w b' k' ≡ found
    → (copy_to b k found w).0 ≡ ok tt
    → (o o' : Object) × (find w b' k' ≡ some o)
      × (find (copy_to b k found w).1 b k ≡ some o')
      × (o'.body ≡ o.body)
copied b k b' k' w none e h = absurd (cc)
copied b k b' k' w (some o) e h = (o, o, e, find-put_self w b k o, refl)

-- A page holds a key at least.
pub memory-IsThorough : (limit : ℕ) → IsThorough (memory (suc limit)) find
memory-IsThorough limit = record {
  Pending = λ b p token w k. is_listed k (drop (start_of token) (matching b p w)) ≡ true;
  first = λ b p k w h g. matching_first b p k w h g;
  goes_on = λ b p k token w h g.
      subst
        (λ x.
          (is_listed k x.contents ≡ true)
          ⊎ ((x.is_truncated ≡ true)
              × (is_listed k (drop (start_of x.next_token) (matching b p w)) ≡ true)))
        (same_page _ _ h) (page_goes_on (suc limit) b p token w k g);
  only = λ b p k token w h g.
      page_only (suc limit) b p token w k
        (ap (λ (x : Page). is_listed k x.contents) (same_page _ _ h) ∙ g);
  shows = λ b p k n w h l there pre e.
      take_some (min n (suc limit)) k (matching b p w) (omega arith)
        (matching_first b p k w there pre)
        (unfold page_of in (ap (λ (x : Page). x.contents) (same_page _ _ h) ∙ e));
  copy_ok = λ b k b' k' w t t' h. copied b k b' k' w _ (sym (find_source_lem b' k' w t t')) h;
  delete_many_ok = λ b keys w k h i j. without_all_gone b keys k w (inr i);
}

-- Where the keys of all objects are strings of bytes.
pub find-IsText :
    (w : Store) (b k : Str) {o : Object}
    → All (λ (c : Cell). IsText c.key) w
    → find w b k ≡ some o
    → IsText k
unfolding find
find-IsText [] b k t h = absurd (cc)
find-IsText (c ∷ w) b k t h = elim (Bool-cases (hits c.bucket c.key b k)) [
  | inl e ↦ subst IsText ((str_eq_iff c.key k).0 (ground arith)) t.0
  | inr e ↦ find-IsText w b k t.1 (rw e at h)
]
