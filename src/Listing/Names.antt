-- ===== src/Listing/Names.antt =====
-- Which names the loops of ReadDir in internal/s3fs/dir.go find on a page.
use mathlib.Core.Path.{subst}
use s32ftp.Prelude.{
  ℕ, ◌≡◌, refl, sym, ap, ◌∙◌, ◌⊎◌, inl, inr, Bool, true, false, ◌||◌, List, [], ◌∷◌, ◌++◌, arith,
  if◌then◌else◌, Bool-cases,
}
use s32ftp.Text.{Str, str_eq, is_nil, ends_with, contains_char, member}
use s32ftp.Text.Laws.{
  str_eq_iff, str_eq_refl, append_cons_ne, ends_with-append, ends_with_of_absent,
}
use s32ftp.Keys.{slash, relative_name}
use s32ftp.Keys.Root.{relative_name-append}
use s32ftp.Info.{FileInfo, new_dir_info, new_file_info, size_of, time_of}
use s32ftp.Service.{Entry, Page}
use s32ftp.Service.Thorough.{is_listed}
use s32ftp.Dir.AllKeys.{member-append, or_cases}
use s32ftp.Listing.{
  names_of, add_info, add_prefixes, add_object, add_objects, add_page, insert_info, sort_infos,
  comes_before,
}

names-append : (xs ys : List FileInfo) → names_of (xs ++ ys) ≡ names_of xs ++ names_of ys
names-append [] ys = refl
names-append (x ∷ xs) ys = ap (λ l. x.name ∷ l) (names-append xs ys)

-- After `add` the names are those before and the new one.
names-add_info :
    (n : Str) (i : FileInfo) (infos : List FileInfo)
    → member n (names_of (add_info i infos)) ≡ (str_eq n i.name || member n (names_of infos))
unfolding add_info member
names-add_info n i infos = elim (Bool-cases (member i.name (names_of infos))) [
  | inl e ↦ rw e (ground (arith, λ (h : str_eq n i.name ≡ true). again h e))
  | inr e ↦ rw e (
      ap (member n) (names-append infos (i ∷ []))
      ∙ member-append n (names_of infos) (i.name ∷ [])
      ∙ ground arith)
]
  where
    again :
        str_eq n i.name ≡ true
        → member i.name (names_of infos) ≡ true
        → member n (names_of infos) ≡ true
    again h e = ap (λ x. member x (names_of infos)) ((str_eq_iff n i.name).0 h) ∙ e

names-insert_info :
    (n : Str) (a : FileInfo) (infos : List FileInfo)
    → member n (names_of (insert_info a infos)) ≡ (str_eq n a.name || member n (names_of infos))
unfolding insert_info member
names-insert_info n a [] = refl
names-insert_info n a (b ∷ infos) = elim (Bool-cases (comes_before b a)) [
  | inl e ↦ rw e (ground (arith, names-insert_info n a infos))
  | inr e ↦ rw e refl
]

pub names-sort_infos :
    (n : Str) (infos : List FileInfo)
    → member n (names_of (sort_infos infos)) ≡ member n (names_of infos)
unfolding sort_infos member
names-sort_infos n [] = refl
names-sort_infos n (a ∷ infos) =
    names-insert_info n a (sort_infos infos)
    ∙ ap (λ r. str_eq n a.name || r) (names-sort_infos n infos)

module _ (prefix : Str) (x : ℕ) (n : Str) (plain : contains_char slash (x ∷ n) ≡ false) where
  abbrev Has : List FileInfo → Type 0
  Has infos = member (x ∷ n) (names_of infos) ≡ true

  kept_name :
      (b : Bool) (i : FileInfo) (infos : List FileInfo)
      → Has infos
      → Has (if b then infos else add_info i infos)
  kept_name true i infos h = h
  kept_name false i infos h = names-add_info (x ∷ n) i infos ∙ ground (arith, h)

  new_name : (i : FileInfo) (infos : List FileInfo) → i.name ≡ x ∷ n → Has (add_info i infos)
  new_name i infos e = names-add_info (x ∷ n) i infos ∙ rw e (rw (str_eq_refl (x ∷ n)) refl)

  found_dir :
      (infos : List FileInfo) (entry : Str)
      → entry ≡ x ∷ n
      → Has (if is_nil entry then infos else add_info (new_dir_info entry) infos)
  unfolding new_dir_info
  found_dir infos entry e =
      subst (λ r. Has (if is_nil r then infos else add_info (new_dir_info r) infos)) (sym e)
        (new_name (new_dir_info (x ∷ n)) infos refl)

  abbrev folder : Str
  folder = (prefix ++ (x ∷ n)) ++ (slash ∷ [])

  add_prefixes-Has :
      (ps : List Str) (infos : List FileInfo)
      → Has infos ⊎ (member folder ps ≡ true)
      → Has (add_prefixes prefix ps infos)
  unfolding add_prefixes member
  add_prefixes-Has [] infos (inl h) = h
  add_prefixes-Has [] infos (inr h) = absurd (cc)
  add_prefixes-Has (c ∷ ps) infos (inl h) = add_prefixes-Has ps _ (inl (kept_name _ _ infos h))
  add_prefixes-Has (c ∷ ps) infos (inr h) = add_prefixes-Has ps _ (step (or_cases _ _ h))
    where
      step :
          (str_eq folder c ≡ true) ⊎ (member folder ps ≡ true)
          → Has (
              if is_nil (relative_name prefix c)
              then infos
              else add_info (new_dir_info (relative_name prefix c)) infos)
            ⊎ (member folder ps ≡ true)
      step (inl e) = inl (
          found_dir infos (relative_name prefix c) (
            ap (relative_name prefix) (sym ((str_eq_iff folder c).0 e))
            ∙ (relative_name-append prefix x n plain).1))
      step (inr e) = inr e

  found_entry :
      (infos : List FileInfo) (skip : Bool) (entry : Str) (size time : ℕ)
      → skip ≡ false
      → entry ≡ x ∷ n
      → Has (
          if skip
          then infos
          else if is_nil entry || contains_char slash entry
          then infos
          else add_info (new_file_info entry size time) infos)
  unfolding new_file_info
  found_entry infos skip entry size time e h =
      rw (e, h, plain) (new_name (new_file_info (x ∷ n) size time) infos refl)

  found_file :
      (infos : List FileInfo) (o : Entry)
      → o.key ≡ prefix ++ (x ∷ n)
      → Has (add_object prefix o infos)
  unfolding add_object
  found_file infos o e =
      found_entry infos (str_eq o.key prefix || ends_with slash o.key) (relative_name prefix o.key)
        _ _
        (rw
          (
            e,
            append_cons_ne prefix x n,
            ends_with-append slash prefix x n,
            ends_with_of_absent slash (x ∷ n) plain,
          )
          refl)
        (ap (relative_name prefix) e ∙ (relative_name-append prefix x n plain).0)

  kept_object : (infos : List FileInfo) (o : Entry) → Has infos → Has (add_object prefix o infos)
  unfolding add_object
  kept_object infos o h = pick (str_eq o.key prefix || ends_with slash o.key)
    where
      pick :
          (b : Bool)
          → Has (
              if b
              then infos
              else if is_nil (relative_name prefix o.key)
                  || contains_char slash (relative_name prefix o.key)
              then infos
              else add_info
                  (new_file_info
                    (relative_name prefix o.key)
                    (size_of o.size)
                    (time_of o.last_modified))
                  infos)
      pick true = h
      pick false = kept_name _ _ infos h

  add_objects-Has :
      (os : List Entry) (infos : List FileInfo)
      → Has infos ⊎ (is_listed (prefix ++ (x ∷ n)) os ≡ true)
      → Has (add_objects prefix os infos)
  unfolding add_objects is_listed
  add_objects-Has [] infos (inl h) = h
  add_objects-Has [] infos (inr h) = absurd (cc)
  add_objects-Has (o ∷ os) infos (inl h) = add_objects-Has os _ (inl (kept_object infos o h))
  add_objects-Has (o ∷ os) infos (inr h) = add_objects-Has os _ (step (or_cases _ _ h))
    where
      step :
          (str_eq (prefix ++ (x ∷ n)) o.key ≡ true) ⊎ (is_listed (prefix ++ (x ∷ n)) os ≡ true)
          → Has (add_object prefix o infos) ⊎ (is_listed (prefix ++ (x ∷ n)) os ≡ true)
      step (inl e) = inl (found_file infos o (sym ((str_eq_iff (prefix ++ (x ∷ n)) o.key).0 e)))
      step (inr e) = inr e

  -- A page adds the names of the folders and the objects that it shows, and keeps those before.
  pub add_page-Has :
      (page : Page) (infos : List FileInfo)
      → Has infos
        ⊎ ((member folder page.common_prefixes ≡ true)
            ⊎ (is_listed (prefix ++ (x ∷ n)) page.contents ≡ true))
      → Has (add_page prefix page infos)
  add_page-Has page infos (inl h) =
      add_objects-Has page.contents _ (inl (add_prefixes-Has page.common_prefixes infos (inl h)))
  add_page-Has page infos (inr (inl h)) =
      add_objects-Has page.contents _ (inl (add_prefixes-Has page.common_prefixes infos (inr h)))
  add_page-Has page infos (inr (inr h)) = add_objects-Has page.contents _ (inr h)
