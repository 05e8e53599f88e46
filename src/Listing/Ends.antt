-- ===== src/Listing/Ends.antt =====
-- The loop of ReadDir in internal/s3fs/dir.go on a service that ends its listing.
use s32ftp.Prelude.{ℕ, zero, suc, ◌≤◌, ◌≡◌, ◌∙◌, true, false, List, [], ◌∷◌, Option, none, arith}
use s32ftp.Text.{Str}
use s32ftp.Errors.{ok}
use s32ftp.Keys.{clean_ftp_path}
use s32ftp.Action.{ret}
use s32ftp.Action.Rules.{>>=-eq}
use s32ftp.Info.{FileInfo}
use s32ftp.Service.{Service, Page}
use s32ftp.Fs.{Fs, stat, key_dir}
use s32ftp.Listing.{add_page, delimited, read_pages, read_dir, sort_infos}
use s32ftp.Listing.Sorted.{IsUnique, sort_infos-IsOrdered}
use s32ftp.Listing.Pages.{IsListing, add_page-IsUnique}
use s32ftp.Service.Lawful.{View, IsConfined}
use s32ftp.Service.Faithful.{IsFaithful}
use s32ftp.Service.Delimited.{IsDelimiting}
use s32ftp.Listing.Complete.{ShowsAll, read_dir-ShowsAll}
use s32ftp.Dir.Loops.{call->>=, choose_true, choose_false}

abbrev pub add_pages : Str → List Page → List FileInfo → List FileInfo
add_pages prefix [] infos = infos
add_pages prefix (page ∷ pages) infos = add_pages prefix pages (add_page prefix page infos)

add_pages-IsUnique :
    (prefix : Str) (pages : List Page) (infos : List FileInfo)
    → IsUnique infos
    → IsUnique (add_pages prefix pages infos)
add_pages-IsUnique prefix [] infos h = h
add_pages-IsUnique prefix (page ∷ pages) infos h =
    add_pages-IsUnique prefix pages _ (add_page-IsUnique prefix page infos h)

module _ (S : Service) (f : Fs) where
  -- The pages of a listing of the directory `prefix`, from a world and a token, and the world
  -- after the last.
  pub data Sent (prefix : Str) : S.World → Option Str → ℕ → List Page → S.World → Type 0 where
    last_sent :
        {w v : S.World} {token : Option Str} (page : Page)
        → S.list_objects f.bucket (delimited prefix token) w ≡ (ok page, v)
        → page.is_truncated ≡ false
        → Sent prefix w token 1 (page ∷ []) v
    next_sent :
        {w v u : S.World} {token : Option Str} (page : Page) {n : ℕ} {pages : List Page}
        → S.list_objects f.bucket (delimited prefix token) w ≡ (ok page, v)
        → page.is_truncated ≡ true
        → Sent prefix v page.next_token n pages u
        → Sent prefix w token (suc n) (page ∷ pages) u

  read_pages_lem :
      (prefix : Str) (fuel : ℕ) {n : ℕ} {w u : S.World} {token : Option Str} (infos : List FileInfo)
      {pages : List Page}
      → Sent prefix w token n pages u
      → n ≤ fuel
      → read_pages S fuel f prefix token infos w ≡ (ok (add_pages prefix pages infos), u)
  unfolding read_pages ret
  read_pages_lem prefix zero infos (last_sent page e t) h = absurd (omega arith)
  read_pages_lem prefix zero infos (next_sent page e t l) h = absurd (omega arith)
  read_pages_lem prefix (suc fuel) infos (last_sent page e t) h =
      call->>= S f _ _ e ∙ choose_false S f _ _ _ t
  read_pages_lem prefix (suc fuel) infos (next_sent page e t l) h =
      call->>= S f _ _ e
      ∙ choose_true S f _ _ _ t
      ∙ read_pages_lem prefix fuel (add_page prefix page infos) l (omega arith)

  read_dir_pages :
      (name : Str) (fuel n : ℕ) (w v u : S.World) (info : FileInfo) (pages : List Page)
      → stat S f (clean_ftp_path name) w ≡ (ok info, v)
      → Sent (key_dir f (clean_ftp_path name)) v none n pages u
      → n ≤ fuel
      → (read_dir S fuel f name w
          ≡ (ok (sort_infos (add_pages (key_dir f (clean_ftp_path name)) pages [])), u))
        × IsListing (sort_infos (add_pages (key_dir f (clean_ftp_path name)) pages []))
  unfolding read_dir ret
  read_dir_pages name fuel n w v u info pages s l h = (
    >>=-eq _ _ s ∙ >>=-eq _ _ (read_pages_lem _ fuel [] l h),
    sort_infos-IsOrdered _ (add_pages-IsUnique (key_dir f (clean_ftp_path name)) pages [] tt),
  )

-- When Stat finds the directory and the service ends its listing after some pages, ReadDir with that much
-- fuel or more returns a listing: directories before files and each of them in the order of the bytes of
-- the names, no name twice, an entry for each name without a slash at which there is an object or below
-- which there is one, a file for an object, and a directory for one below.
pub read_dir_lem :
    (S : Service) (at : View S) (C : IsConfined S at) (F : IsFaithful S at) (L : IsDelimiting S at)
    (f : Fs) (name : Str) (fuel n : ℕ) (w v u : S.World) (info : FileInfo) (pages : List Page)
    → stat S f (clean_ftp_path name) w ≡ (ok info, v)
    → Sent S f (key_dir f (clean_ftp_path name)) v none n pages u
    → n ≤ fuel
    → (infos : List FileInfo) × (read_dir S fuel f name w ≡ (ok infos, u))
      × IsListing infos
      × ShowsAll S at f.bucket (key_dir f (clean_ftp_path name)) w infos
read_dir_lem S at C F L f name fuel n w v u info pages s l h =
    let (returned, listing) = read_dir_pages S f name fuel n w v u info pages s l h in
    (_, returned, listing, read_dir-ShowsAll S at C F L f fuel name w u _ returned)
