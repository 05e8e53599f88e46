-- ===== src/Service/Willing.antt =====
-- A service that does what it is asked: no call fails but a HEAD of an object that is not there, when
-- requests to delete have one to a thousand keys, and every listing ends.
use s32ftp.Prelude.{ℕ, ◌≤◌, length, ◌≡◌, ◌⊎◌, true, List, none}
use s32ftp.Text.{Str}
use s32ftp.Errors.{S3Error, ok, err, is_not_found}
use s32ftp.Service.{Service, Head, Page, ListRequest}
use s32ftp.Fs.{Fs}
use s32ftp.Dir.Loops.{Listed}

pub record IsWilling (S : Service) : Type 0 where
  pub heads :
      (b k : Str) (w : S.World)
      → ((head : Head) × ((S.head_object b k w).0 ≡ ok head))
        ⊎ ((e : S3Error) × ((S.head_object b k w).0 ≡ err e) × (is_not_found e ≡ true))
  pub lists :
      (b : Str) (r : ListRequest) (w : S.World)
      → (page : Page) × ((S.list_objects b r w).0 ≡ ok page)
  pub deletes : (b k : Str) (w : S.World) → (S.delete_object b k w).0 ≡ ok tt
  pub deletes_many :
      (b : Str) (keys : List Str) (w : S.World)
      → 1 ≤ length keys
      → length keys ≤ 1000
      → (failed : List Str) × ((S.delete_objects b keys w).0 ≡ ok failed)
  pub listing_ends :
      (f : Fs) (prefix : Str) (w : S.World)
      → (n : ℕ) × (keys : List Str) × (v : S.World) × Listed S f prefix w none n keys v
