-- ===== src/Isolation/Reads.antt =====
-- The reading operations of internal/s3fs keep whatever the reading calls of the service keep.
use s32ftp.Prelude.{ℕ, zero, suc, Bool, true, false, not, List, Option}
use s32ftp.Text.{Str}
use s32ftp.Errors.{S3Error, Result, ok, err, is_not_found}
use s32ftp.Action.{Act, ret, call, attempt}
use s32ftp.Action.Rules
use s32ftp.Action.Rules.{Good, Any, Keeps, any_rules}
use s32ftp.Service.{Service, Head, Page, ListRequest}
use s32ftp.Info.{FileInfo}
use s32ftp.Fs
use s32ftp.Fs.{Fs, key, key_dir, list_request, nonempty}
use s32ftp.Listing

module _ (S : Service) (Inv : S.World → Type 0)
    (head_inv : (b k : Str) (w : S.World) → Inv w → Inv (S.head_object b k w).1)
    (list_inv : (b : Str) (r : ListRequest) (w : S.World) → Inv w → Inv (S.list_objects b r w).1)
    (f : Fs) where
  head-Keeps : (k : Str) → Keeps Inv Any (attempt (S.head_object f.bucket k))
  head-Keeps k = Rules.attempt-Any Inv (S.head_object f.bucket k) (λ w i. head_inv f.bucket k w i)

  look-Keeps : (r : ListRequest) → Keeps Inv Any (attempt (S.list_objects f.bucket r))
  look-Keeps r = Rules.attempt-Any Inv (S.list_objects f.bucket r) (λ w i. list_inv f.bucket r w i)

  pub list-Any : (r : ListRequest) → Keeps Inv Any (call (S.list_objects f.bucket r))
  list-Any r = Rules.call-Any Inv (S.list_objects f.bucket r) (λ w i. list_inv f.bucket r w i)

  -- The operations, from the inside out.
  pub stat_dir-Keeps : (clean : Str) → Keeps Inv Any (Fs.stat_dir S f clean)
  unfolding Fs.stat_dir
  stat_dir-Keeps clean = Rules.bind-Any Inv (look-Keeps _) answer
    where
      answer : (reply : Result S3Error Page) → Keeps Inv Any (Fs.stat_listed S clean reply)
      answer (ok page) = search any_rules
      answer (err e) = search any_rules

  pub stat_key-Keeps : (clean : Str) → Keeps Inv Any (Fs.stat_key S f clean)
  unfolding Fs.stat_key
  stat_key-Keeps clean = Rules.bind-Any Inv (head-Keeps _) answer
    where
      answer : (reply : Result S3Error Head) → Keeps Inv Any (Fs.stat_headed S f clean reply)
      answer (ok head) = search any_rules
      answer (err e) =
          Rules.if_Any Inv (not (is_not_found e)) (search any_rules) (stat_dir-Keeps clean)

  pub stat-Keeps : (name : Str) → Keeps Inv Any (Fs.stat S f name)
  unfolding Fs.stat
  stat-Keeps name = search (any_rules, stat_key-Keeps)

  pub head_of-Keeps : (k : Str) → Keeps Inv Any (Fs.head_of S f k)
  unfolding Fs.head_of
  head_of-Keeps k = Rules.bind-Any Inv (head-Keeps k) answer
    where
      answer : (reply : Result S3Error Head) → Keeps Inv Any (Fs.found_head S reply)
      answer (ok head) = search any_rules
      answer (err e) = search any_rules

  pub head_size-Keeps : (k : Str) → Keeps Inv Any (Fs.head_size S f k)
  unfolding Fs.head_size
  head_size-Keeps k = search (any_rules, head_of-Keeps)

  pub prefix_has_objects-Keeps : (prefix : Str) → Keeps Inv Any (Fs.prefix_has_objects S f prefix)
  unfolding Fs.prefix_has_objects
  prefix_has_objects-Keeps prefix = search (any_rules, list-Any)

  pub read_pages-Keeps :
      (fuel : ℕ) (prefix : Str) (token : Option Str) (infos : List FileInfo)
      → Keeps Inv Any (Listing.read_pages S fuel f prefix token infos)
  unfolding Listing.read_pages
  read_pages-Keeps zero prefix token infos = search any_rules
  read_pages-Keeps (suc fuel) prefix token infos = Rules.bind-Any Inv (list-Any _) λ page.
      last page page.is_truncated
        (read_pages-Keeps fuel prefix page.next_token (Listing.add_page prefix page infos))
    where
      last :
          (page : Page) (more : Bool) {m : Act S.World (List FileInfo)}
          → Keeps Inv Any m
          → Keeps Inv Any
              (elim more [ true ↦ m | false ↦ ret (Listing.add_page prefix page infos) ])
      last page true h = h
      last page false h = search any_rules

  pub read_dir-Keeps : (fuel : ℕ) (name : Str) → Keeps Inv Any (Listing.read_dir S fuel f name)
  unfolding Listing.read_dir
  read_dir-Keeps fuel name = search (any_rules, stat-Keeps, read_pages-Keeps)
