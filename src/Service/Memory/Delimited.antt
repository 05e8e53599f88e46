-- ===== src/Service/Memory/Delimited.antt =====
-- The service that keeps its objects in a list lists by folders as `Service.Delimited` says.
use mathlib.Core.Path.{subst}
use s32ftp.Prelude.{
  All-take, All-drop, ℕ, ◌+◌, ◌<◌, ◌≡◌, sym, ap, ◌∙◌, ◌⊎◌, inl, inr, true, false, List, ◌∷◌, ◌++◌,
  Option, some, All, arith, length, take, drop, drop-drop,
}
use s32ftp.Text.{Str, contains_char}
use s32ftp.Text.Laws.{has_prefix-append, has_prefix_trans}
use s32ftp.Keys.{slash}
use s32ftp.Service.{Entry, Page}
use s32ftp.Service.Lawful.{Object, HasPrefixes}
use s32ftp.Service.Thorough.{is_listed}
use s32ftp.Service.Delimited.{
  Item, file_item, dir_item, name_of, Stands, is_shown, by_folder, IsFolder, IsDelimiting,
}
use s32ftp.Service.Memory.{Store, find, matching, page_of, start_of, memory}
use s32ftp.Service.Memory.Laws.{matching-HasPrefixes}
use s32ftp.Service.Memory.Thorough.{
  matching_first, matching_only, listed_split, listed-take, listed-drop, length-zeros, same_page,
}
use s32ftp.Service.Memory.Folders.{
  file_shown, folder_shown, shown-is_listed, folder-is_listed, fold_prefixes-IsFolder,
}

-- An item that some of the entries show.
abbrev IsIn : Str → Item → List Entry → Type 0
IsIn p (file_item n) es = is_listed (p ++ n) es ≡ true
IsIn p (dir_item n) es = (s : Str) × (is_listed ((p ++ n) ++ (slash ∷ s)) es ≡ true)

IsIn-split :
    (n : ℕ) (p : Str) (x : Item) (es : List Entry)
    → IsIn p x es
    → IsIn p x (take n es) ⊎ ((n < length es) × IsIn p x (drop n es))
IsIn-split n p (file_item m) es h = listed_split n (p ++ m) es h
IsIn-split n p (dir_item m) es (s, h) = elim (listed_split n ((p ++ m) ++ (slash ∷ s)) es h) [
  | inl a ↦ inl (s, a)
  | inr (more, b) ↦ inr (more, (s, b))
]

module _ (limit : ℕ) (b p : Str) (token : Option Str) (w : Store) where
  abbrev page : Page
  page = page_of limit b (by_folder p token) w

  abbrev rest : List Entry
  rest = drop (start_of token) (matching b p w)

  rest-HasPrefixes : HasPrefixes p (take limit rest)
  rest-HasPrefixes =
      All-take _ limit rest
        (All-drop _ (start_of token) (matching b p w) (matching-HasPrefixes b p w))

  item_shown :
      (x : Item)
      → contains_char slash (name_of x) ≡ false
      → IsIn p x (take limit rest)
      → is_shown p x page ≡ true
  unfolding page_of
  item_shown (file_item n) plain h = file_shown p n (take limit rest) plain h
  item_shown (dir_item n) plain (s, h) = folder_shown p n s (take limit rest) plain h

  page_carries_on :
      (x : Item)
      → contains_char slash (name_of x) ≡ false
      → IsIn p x rest
      → (is_shown p x page ≡ true)
        ⊎ ((page.is_truncated ≡ true) × IsIn p x (drop (start_of page.next_token) (matching b p w)))
  unfolding page_of
  page_carries_on x plain h = elim (IsIn-split limit p x rest h) [
    | inl here ↦ inl (item_shown x plain here)
    | inr (more, there) ↦ inr (
      ground arith,
      subst (IsIn p x)
          (drop-drop limit (start_of token) (matching b p w)
            ∙ ap (λ n. drop n (matching b p w)) (sym (length-zeros (start_of token + limit))))
          there,
    )
  ]

  is_there : (k : Str) → is_listed k (take limit rest) ≡ true → (o : Object) × (find w b k ≡ some o)
  is_there k h =
      matching_only b p k w
        (listed-drop (start_of token) k (matching b p w) (listed-take limit k rest h))

  page_only_items : (n : ℕ) (x : Item) → is_shown p x page ≡ true → Stands (memory n) find b p w x
  unfolding page_of
  page_only_items i (file_item n) h =
      is_there (p ++ n) (shown-is_listed (p ++ n) p (take limit rest) h)
  page_only_items i (dir_item n) h =
      let (s, l) = folder-is_listed p n (take limit rest) rest-HasPrefixes h in
      let (o, there) = is_there ((p ++ n) ++ (slash ∷ s)) l in (s, o, there)

  page_folders : All (IsFolder p) page.common_prefixes
  unfolding page_of
  page_folders = fold_prefixes-IsFolder p (take limit rest) rest-HasPrefixes

begins-IsIn :
    (n : ℕ) (b p : Str) (w : Store) (x : Item)
    → Stands (memory n) find b p w x
    → IsIn p x (matching b p w)
begins-IsIn i b p w (file_item n) (o, there) =
    matching_first b p (p ++ n) w there (has_prefix-append p n)
begins-IsIn i b p w (dir_item n) (s, o, there) = (
  s,
  matching_first b p ((p ++ n) ++ (slash ∷ s)) w there (
      has_prefix_trans p (p ++ n) _ (has_prefix-append p n)
        (has_prefix-append (p ++ n) (slash ∷ s))),
)

pub memory-IsDelimiting : (limit : ℕ) → IsDelimiting (memory limit) find
memory-IsDelimiting limit = record {
  Later = λ b p token w x. IsIn p x (drop (start_of token) (matching b p w));
  begins = λ b p w x plain h. begins-IsIn limit b p w x h;
  carries_on = λ b p token w x h plain l.
      subst
        (λ (y : Page).
          (is_shown p x y ≡ true)
          ⊎ ((y.is_truncated ≡ true) × IsIn p x (drop (start_of y.next_token) (matching b p w))))
        (same_page _ _ h) (page_carries_on limit b p token w x plain l);
  only_items = λ b p token w x h m.
      page_only_items limit b p token w limit x (ap (is_shown p x) (same_page _ _ h) ∙ m);
  folders = λ b p token w h.
      subst (λ (y : Page). All (IsFolder p) y.common_prefixes) (same_page _ _ h)
        (page_folders limit b p token w);
}
