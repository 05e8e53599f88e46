-- ===== src/Listing/Found.antt =====
-- What the entries that ReadDir of internal/s3fs/dir.go finds on a page stand for.
use mathlib.Core.Path.{subst}
use s32ftp.Prelude.{
  All-append, ℕ, ◌≡◌, refl, sym, ap, ◌∙◌, inl, inr, Bool, true, false, ◌||◌, List, [], ◌∷◌, ◌++◌,
  All, if◌then◌else◌, Bool-cases, append-nil,
}
use s32ftp.Text.{Str, str_eq, is_nil, trim_prefix, ends_with, contains_char, member}
use s32ftp.Text.Laws.{
  str_eq_refl, has_prefix-eq, trim_last_of_absent, trim_last-concat, trim_prefix-append,
  append_cons_ne,
}
use s32ftp.Keys.{slash, relative_name}
use s32ftp.Keys.Root.{relative_name-append}
use s32ftp.Info.{FileInfo, new_dir_info, new_file_info, size_of, time_of}
use s32ftp.Service.{Entry, Page}
use s32ftp.Service.Lawful.{HasPrefixes}
use s32ftp.Service.Thorough.{is_listed}
use s32ftp.Service.Delimited.{IsFolder}
use s32ftp.Dir.AllKeys.{or_true}
use s32ftp.Listing.{names_of, add_info, add_prefixes, add_object, add_objects, add_page}

module _ (P : FileInfo → Type 0) where
  All-add_info :
      (i : FileInfo) (infos : List FileInfo) → All P infos → P i → All P (add_info i infos)
  unfolding add_info
  All-add_info i infos h p = elim (Bool-cases (member i.name (names_of infos))) [
    | inl e ↦ rw e h
    | inr e ↦ rw e (All-append P infos (i ∷ []) h (p, tt))
  ]

  module _ (prefix : Str) where
    -- A folder with this name, and an object with this rest of its key.
    abbrev pub FolderIs : Str → Type 0
    FolderIs c =
        (n : Str) × (c ≡ (prefix ++ n) ++ (slash ∷ []))
        × (contains_char slash n ≡ false)
        × P (new_dir_info n)

    abbrev pub EntryIs : Entry → Type 0
    EntryIs o =
        (m : Str) × (o.key ≡ prefix ++ m)
        × P (new_file_info m (size_of o.size) (time_of o.last_modified))

    no_name : relative_name prefix ((prefix ++ []) ++ (slash ∷ [])) ≡ []
    unfolding relative_name
    no_name =
        rw (append-nil prefix, append_cons_ne prefix slash [], trim_last-concat slash prefix)
          (ap (trim_prefix prefix) (sym (append-nil prefix)) ∙ trim_prefix-append prefix [])

    folder-All :
        (c : Str) (infos : List FileInfo)
        → FolderIs c
        → All P infos
        → All P (
            if is_nil (relative_name prefix c)
            then infos
            else add_info (new_dir_info (relative_name prefix c)) infos)
    folder-All c infos ([], e, plain, p) h = rw (ap (relative_name prefix) e ∙ no_name) h
    folder-All c infos (x ∷ n, e, plain, p) h =
        rw (ap (relative_name prefix) e ∙ (relative_name-append prefix x n plain).1)
          (All-add_info (new_dir_info (x ∷ n)) infos h p)

    add_prefixes-All :
        (ps : List Str) (infos : List FileInfo)
        → All FolderIs ps
        → All P infos
        → All P (add_prefixes prefix ps infos)
    unfolding add_prefixes
    add_prefixes-All [] infos f h = h
    add_prefixes-All (c ∷ ps) infos f h = add_prefixes-All ps _ f.1 (folder-All c infos f.0 h)

    plain_name :
        (k m : Str)
        → k ≡ prefix ++ m
        → str_eq k prefix ≡ false
        → ends_with slash k ≡ false
        → relative_name prefix k ≡ m
    unfolding relative_name
    plain_name k m e other unclosed =
        rw (other, trim_last_of_absent slash k unclosed)
          (ap (trim_prefix prefix) e ∙ trim_prefix-append prefix m)

    entry-All :
        (b : Bool) (entry : Str) (infos : List FileInfo) (size time : ℕ)
        → P (new_file_info entry size time)
        → All P infos
        → All P (if b then infos else add_info (new_file_info entry size time) infos)
    entry-All true entry infos size time p h = h
    entry-All false entry infos size time p h =
        All-add_info (new_file_info entry size time) infos h p

    add_object-All :
        (o : Entry) (infos : List FileInfo)
        → EntryIs o
        → All P infos
        → All P (add_object prefix o infos)
    unfolding add_object
    add_object-All o infos (m, e, p) h =
        pick (str_eq o.key prefix) (ends_with slash o.key) refl refl
      where
        pick :
            (same closed : Bool)
            → str_eq o.key prefix ≡ same
            → ends_with slash o.key ≡ closed
            → All P (
                if same || closed
                then infos
                else if is_nil (relative_name prefix o.key)
                    || contains_char slash (relative_name prefix o.key)
                then infos
                else add_info
                    (new_file_info
                      (relative_name prefix o.key)
                      (size_of o.size)
                      (time_of o.last_modified))
                    infos)
        pick true closed s c = h
        pick false true s c = h
        pick false false s c =
            entry-All _ _ infos _ _
              (subst (λ n. P (new_file_info n (size_of o.size) (time_of o.last_modified)))
                (sym (plain_name o.key m e s c)) p)
              h

    add_objects-All :
        (os : List Entry) (infos : List FileInfo)
        → All EntryIs os
        → All P infos
        → All P (add_objects prefix os infos)
    unfolding add_objects
    add_objects-All [] infos f h = h
    add_objects-All (o ∷ os) infos f h = add_objects-All os _ f.1 (add_object-All o infos f.0 h)

    pub add_page-All :
        (page : Page) (infos : List FileInfo)
        → All FolderIs page.common_prefixes
        → All EntryIs page.contents
        → All P infos
        → All P (add_page prefix page infos)
    add_page-All page infos f g h =
        add_objects-All page.contents _ g (add_prefixes-All page.common_prefixes infos f h)

    -- From what holds of each key and folder that a page shows.
    pub entries_are :
        (os : List Entry)
        → HasPrefixes prefix os
        → ((m : Str) (size time : ℕ)
            → is_listed (prefix ++ m) os ≡ true
            → P (new_file_info m size time))
        → All EntryIs os
    unfolding is_listed
    entries_are [] h f = tt
    entries_are (o ∷ os) h f = (
      (
        trim_prefix prefix o.key,
        has_prefix-eq prefix o.key h.0,
        f (trim_prefix prefix o.key) _ _
            (rw (sym (has_prefix-eq prefix o.key h.0), str_eq_refl o.key) refl),
      ),
      entries_are os h.1 (λ m size time l. f m size time (rw l (or_true _))),
    )

    pub folders_are :
        (ps : List Str)
        → All (IsFolder prefix) ps
        → ((n : Str) → member ((prefix ++ n) ++ (slash ∷ [])) ps ≡ true → P (new_dir_info n))
        → All FolderIs ps
    unfolding member
    folders_are [] h f = tt
    folders_are (c ∷ ps) ((n, e, plain), h) f = (
      (n, e, plain, f n (rw (sym e, str_eq_refl c) refl)),
      folders_are ps h (λ m l. f m (rw l (or_true _))),
    )
