-- ===== src/Listing/Complete.antt =====
-- The entries that ReadDir of internal/s3fs/dir.go returns, and the objects below the directory.
use mathlib.Core.Path.{subst}
use s32ftp.Prelude.{
  ℕ, zero, suc, ◌≡◌, refl, sym, ap, ◌∙◌, inl, inr, Bool, true, false, List, [], ◌∷◌, Option, none,
  All,
}
use s32ftp.Text.{Str, is_nil, contains_char, member}
use s32ftp.Keys.{slash, clean_ftp_path}
use s32ftp.Errors.{ok}
use s32ftp.Action.{Act, ret, throw, call}
use s32ftp.Action.Rules.{Good, called, ok_pair, >>=-eq-ok}
use s32ftp.Info.{FileInfo, new_dir_info, new_file_info}
use s32ftp.Service.{Service, Page}
use s32ftp.Service.Lawful.{View, IsConfined, HasPrefixes}
use s32ftp.Service.Faithful.{IsFaithful}
use s32ftp.Service.Delimited.{
  Item, file_item, dir_item, name_of, Stands, is_shown, by_folder, IsDelimiting,
}
use s32ftp.Fs.{Fs, key_dir, stat}
use s32ftp.Fs.Stats.{stat_same}
use s32ftp.Dir.AllKeys.{Same}
use s32ftp.Listing.{names_of, add_page, delimited, read_pages, read_dir, sort_infos}
use s32ftp.Listing.Sorted.{All-sort_infos}
use s32ftp.Listing.Names.{names-sort_infos, add_page-Has}
use s32ftp.Listing.Found.{add_page-All, entries_are, folders_are}

abbrev pub item_at : Bool → Str → Item
item_at true n = dir_item n
item_at false n = file_item n

-- What an info stands for.
abbrev pub item_of : FileInfo → Item
item_of i = item_at i.is_dir i.name

-- A name that an entry of a directory can have.
abbrev pub IsName : Str → Type 0
IsName n = (is_nil n ≡ false) × (contains_char slash n ≡ false)

module _ (S : Service) (at : View S) where
  Stands-Same :
      (b p : Str) (v w : S.World) (x : Item)
      → Same S at v w
      → Stands S at b p v x
      → Stands S at b p w x
  Stands-Same b p v w (file_item n) same (o, there) = (o, sym (same b _) ∙ there)
  Stands-Same b p v w (dir_item n) same (s, o, there) = (s, o, sym (same b _) ∙ there)

  -- A listing of what stands directly below a prefix.
  pub record ShowsAll (b prefix : Str) (w : S.World) (infos : List FileInfo) : Type 0 where
    pub complete :
        (x : Item)
        → IsName (name_of x)
        → Stands S at b prefix w x
        → member (name_of x) (names_of infos) ≡ true
    pub sound : All (λ i. Stands S at b prefix w (item_of i)) infos

module _ (S : Service) (at : View S) (C : IsConfined S at) (L : IsDelimiting S at) (f : Fs)
    (prefix : Str) (start : S.World) where
  abbrev P : FileInfo → Type 0
  P i = Stands S at f.bucket prefix start (item_of i)

  module _ (token : Option Str) (w u : S.World) (page : Page) (same : Same S at w start)
      (h : call (S.list_objects f.bucket (delimited prefix token)) w ≡ (ok page, u)) where
    shown : (S.list_objects f.bucket (by_folder prefix token) w).0 ≡ ok page
    shown = (called (S.list_objects f.bucket (delimited prefix token)) w u page h).0

    page-Same : Same S at u w
    page-Same b k =
        ap (λ x. at x b k)
          (sym (called (S.list_objects f.bucket (delimited prefix token)) w u page h).1)
        ∙ C.list_frame _ _ w b k

    page_sound : (infos : List FileInfo) → All P infos → All P (add_page prefix page infos)
    unfolding new_file_info new_dir_info
    page_sound infos h =
        add_page-All P prefix page infos
          (folders_are P prefix page.common_prefixes (L.folders f.bucket prefix token w shown)
            (λ n m.
              Stands-Same S at f.bucket prefix w start (dir_item n) same
                (L.only_items f.bucket prefix token w (dir_item n) shown m)))
          (entries_are P prefix page.contents
            (subst (λ r. Good (λ (p : Page). HasPrefixes prefix p.contents) r) shown
              (C.list_prefix f.bucket (by_folder prefix token) w))
            (λ m size time l.
              Stands-Same S at f.bucket prefix w start (file_item m) same
                (L.only_items f.bucket prefix token w (file_item m) shown l)))
          h

    page_old :
        (n : Str) (infos : List FileInfo)
        → IsName n
        → member n (names_of infos) ≡ true
        → member n (names_of (add_page prefix page infos)) ≡ true
    page_old [] infos i m = absurd (cc i.0)
    page_old (c ∷ n) infos i m = add_page-Has prefix c n i.1 page infos (inl m)

    on_page :
        (x : Item) (infos : List FileInfo)
        → IsName (name_of x)
        → is_shown prefix x page ≡ true
        → member (name_of x) (names_of (add_page prefix page infos)) ≡ true
    on_page (file_item []) infos i m = absurd (cc i.0)
    on_page (dir_item []) infos i m = absurd (cc i.0)
    on_page (file_item (c ∷ n)) infos i m = add_page-Has prefix c n i.1 page infos (inr (inr m))
    on_page (dir_item (c ∷ n)) infos i m = add_page-Has prefix c n i.1 page infos (inr (inl m))

  -- What the loop returns from a page on.
  record IsReadFrom (token : Option Str) (w : S.World) (found infos : List FileInfo) : Type 0 where
    old : (n : Str) → IsName n → member n (names_of found) ≡ true → member n (names_of infos) ≡ true
    complete :
        (x : Item)
        → IsName (name_of x)
        → L.Later f.bucket prefix token w x
        → member (name_of x) (names_of infos) ≡ true
    sound : All P infos

  page_read :
      (token : Option Str) (w u : S.World) (page : Page) (found infos : List FileInfo)
      → Same S at w start
      → call (S.list_objects f.bucket (delimited prefix token)) w ≡ (ok page, u)
      → ((n : Str)
          → IsName n
          → member n (names_of (add_page prefix page found)) ≡ true
          → member n (names_of infos) ≡ true)
      → ((x : Item)
          → IsName (name_of x)
          → page.is_truncated ≡ true
          → L.Later f.bucket prefix page.next_token u x
          → member (name_of x) (names_of infos) ≡ true)
      → All P infos
      → IsReadFrom token w found infos
  page_read token w u page found infos same h keeps more s = record {
    old = λ n i m. keeps n i (page_old token w u page same h n found i m);
    complete = λ x i l.
        elim (L.carries_on f.bucket prefix token w x (shown token w u page same h) i.1 l) [
          | inl here ↦ keeps (name_of x) i (on_page token w u page same h x found i here)
          | inr (t, later) ↦ more x i t (
              subst (λ z. L.Later f.bucket prefix page.next_token z x)
                (called (S.list_objects f.bucket (delimited prefix token)) w u page h).1 later)
        ];
    sound = s;
  }

  read_pages-IsReadFrom :
      (fuel : ℕ) (token : Option Str) (found infos : List FileInfo) (w v : S.World)
      → Same S at w start
      → All P found
      → read_pages S fuel f prefix token found w ≡ (ok infos, v)
      → IsReadFrom token w found infos
  unfolding read_pages throw ret
  read_pages-IsReadFrom zero token found infos w v same s h = absurd (cc)
  read_pages-IsReadFrom (suc fuel) token found infos w v same s h =
      let (page, u, e, g) =
        >>=-eq-ok (call (S.list_objects f.bucket (delimited prefix token))) _ w h in
      let below : All P (add_page prefix page found) = page_sound token w u page same e found s in
      step page u e below page.is_truncated refl
        (read_pages-IsReadFrom fuel page.next_token (add_page prefix page found) infos u v
          (λ b k. page-Same token w u page same e b k ∙ same b k) below)
        g
    where
      step :
          (page : Page) (u : S.World)
          → call (S.list_objects f.bucket (delimited prefix token)) w ≡ (ok page, u)
          → All P (add_page prefix page found)
          → (t : Bool) → page.is_truncated ≡ t
          → (read_pages S fuel f prefix page.next_token (add_page prefix page found) u
                ≡ (ok infos, v)
              → IsReadFrom page.next_token u (add_page prefix page found) infos)
          → elim t as (λ _. Act S.World (List FileInfo)) [
            | true ↦ read_pages S fuel f prefix page.next_token (add_page prefix page found)
            | false ↦ ret (add_page prefix page found)
          ]
              u
            ≡ (ok infos, v)
          → IsReadFrom token w found infos
      step page u e below true t rest g =
          let r = rest g in
          page_read token w u page found infos same e r.old (λ x i _ later. r.complete x i later)
            r.sound
      step page u e below false t rest g =
          let all = (ok_pair g).0 in
          page_read token w u page found infos same e
            (λ n i m. ap (λ l. member n (names_of l)) (sym all) ∙ m) (λ x i more. absurd (cc))
            (subst (All P) all below)

-- When ReadDir of a path reports no error, its entries are those of the directory: each name without
-- a slash at which there is an object, or below which there is one, is the name of an entry, on
-- whichever page the service showed it; an entry for a directory has an object below it, and one for
-- a file has the object.
pub read_dir-ShowsAll :
    (S : Service) (at : View S) (C : IsConfined S at) (F : IsFaithful S at) (L : IsDelimiting S at)
    (f : Fs) (fuel : ℕ) (name : Str) (w v : S.World) (infos : List FileInfo)
    → read_dir S fuel f name w ≡ (ok infos, v)
    → ShowsAll S at f.bucket (key_dir f (clean_ftp_path name)) w infos
unfolding read_dir ret
read_dir-ShowsAll S at C F L f fuel name w v infos h =
    let clean = clean_ftp_path name in
    let (info, u, asked, g) = >>=-eq-ok (stat S f clean) _ w h in
    let (found, x, listed, last) =
      >>=-eq-ok (read_pages S fuel f (key_dir f clean) none []) _ u g in
    let sorted : sort_infos found ≡ infos = (ok_pair last).0 in
    let same : Same S at u w =
      subst (λ z. Same S at z w) (ap (λ r. r.1) asked) (stat_same S at C F f clean w) in
    let r =
      read_pages-IsReadFrom S at C L f (key_dir f clean) w fuel none [] found u x same tt listed in
    record {
      complete = λ y i there.
          ap (λ l. member (name_of y) (names_of l)) (sym sorted)
          ∙ names-sort_infos (name_of y) found
          ∙ r.complete y i (
              L.begins f.bucket (key_dir f clean) u y i.1
                (Stands-Same S at f.bucket (key_dir f clean) w u y (λ b k. sym (same b k)) there));
      sound = subst (All _) sorted (All-sort_infos _ found r.sound);
    }
