-- ===== src/Isolation/Loops.antt =====
-- listAllKeys and deleteKeys of internal/s3fs/dir.go stay within the root.
use s32ftp.Prelude.{
  All-append, All-take, All-drop, ℕ, zero, suc, ◌+◌, Bool, true, false, List, [], ◌∷◌, ◌++◌, Option,
  none, All, length, ltb,
}
use s32ftp.Text.{Str}
use s32ftp.Text.Laws.{has_prefix_trans}
use s32ftp.Action.{Act, ret, ◌>>=◌, call}
use s32ftp.Action.Rules
use s32ftp.Action.Rules.{Any, Keeps, any_rules}
use s32ftp.Service.{Service, Page, Entry}
use s32ftp.Service.Lawful.{View, IsConfined, HasPrefixes}
use s32ftp.Fs.{Fs}
use s32ftp.Dir
use s32ftp.Dir.{keys_of, batch_at, batch_size}
use s32ftp.Isolation.Calls.{Untouched, InRoot}
use s32ftp.Isolation.Calls

-- Keys listed under a prefix that lies in the root lie in the root.
All-keys_of :
    (f : Fs) (prefix : Str) (entries : List Entry)
    → InRoot f prefix
    → HasPrefixes prefix entries
    → All (InRoot f) (keys_of entries)
All-keys_of f prefix [] r h = tt
All-keys_of f prefix (o ∷ entries) r h =
    (has_prefix_trans f.root_prefix prefix o.key r h.0, All-keys_of f prefix entries r h.1)

module _ (S : Service) (at : View S) (L : IsConfined S at) (f : Fs) (start : S.World) where
  abbrev Same : S.World → Type 0
  Same = Untouched S at f start

  list_pages-Keeps :
      (fuel : ℕ) (prefix : Str) (token : Option Str) (keys : List Str)
      → InRoot f prefix
      → All (InRoot f) keys
      → Keeps Same (All (InRoot f)) (Dir.list_pages S fuel f prefix token keys)
  unfolding Dir.list_pages
  list_pages-Keeps zero prefix token keys r h = Rules.throw_any Same (All (InRoot f)) _
  list_pages-Keeps (suc fuel) prefix token keys r h =
      Rules.>>=-Keeps Same _ (All (InRoot f)) (Calls.list-Keeps S at L f start _) λ page listed.
        let more : All (InRoot f) (keys ++ keys_of page.contents) =
          All-append (InRoot f) keys _ h (All-keys_of f prefix page.contents r listed) in
        last page page.is_truncated more
          (list_pages-Keeps fuel prefix page.next_token (keys ++ keys_of page.contents) r more)
    where
      last :
          (page : Page) (more : Bool) {m : Act S.World (List Str)}
          → All (InRoot f) (keys ++ keys_of page.contents)
          → Keeps Same (All (InRoot f)) m
          → Keeps Same
              (All (InRoot f))
              (elim more [ true ↦ m | false ↦ ret (keys ++ keys_of page.contents) ])
      last page true h k = k
      last page false h k = Rules.ret-Keeps Same (All (InRoot f)) h

  pub list_all_keys-Keeps :
      (fuel : ℕ) (prefix : Str)
      → InRoot f prefix
      → Keeps Same (All (InRoot f)) (Dir.list_all_keys S fuel f prefix)
  unfolding Dir.list_all_keys
  list_all_keys-Keeps fuel prefix r = list_pages-Keeps fuel prefix none [] r tt

  delete_from-Keeps :
      (fuel begin : ℕ) (keys : List Str)
      → All (InRoot f) keys
      → Keeps Same Any (Dir.delete_from S fuel f begin keys)
  unfolding Dir.delete_from
  delete_from-Keeps zero begin keys h = search any_rules
  delete_from-Keeps (suc fuel) begin keys h =
      next (ltb begin (length keys)) (delete_from-Keeps fuel (begin + batch_size) keys h)
    where
      next :
          (more : Bool) {m : Act S.World (Unit {0})}
          → Keeps Same Any m
          → Keeps Same Any (elim more [
            | true ↦ call (S.delete_objects f.bucket (batch_at begin keys)) >>= λ _. m
            | false ↦ ret tt
          ])
      next true k =
          Rules.bind-Any Same
            (Calls.delete_many-Keeps S at L f start _
              (All-take (InRoot f) _ _ (All-drop (InRoot f) begin keys h)))
            (λ _. k)
      next false k = search any_rules

  pub delete_keys-Keeps :
      (keys : List Str) → All (InRoot f) keys → Keeps Same Any (Dir.delete_keys S f keys)
  unfolding Dir.delete_keys
  delete_keys-Keeps keys h = delete_from-Keeps (suc (length keys)) 0 keys h
