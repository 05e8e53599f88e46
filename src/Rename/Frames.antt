-- ===== src/Rename/Frames.antt =====
-- What the calls of Rename of internal/s3fs/dir.go leave at a key that they do not name, also when they fail.
use mathlib.Core.Path.{subst}
use s32ftp.Prelude.{
  ℕ, zero, suc, ◌≡◌, sym, ap, ◌∙◌, Bool, true, false, List, [], ◌∷◌, ◌++◌, Option, arith,
}
use s32ftp.Text.{Str, str_eq, member}
use s32ftp.Text.Laws.{str_eq_refl}
use s32ftp.Keys.{copy_source}
use s32ftp.Errors.{Error, Result}
use s32ftp.Action.{Act, ret}
use s32ftp.Action.Rules
use s32ftp.Action.Rules.{Any, Keeps, any_rules, guard_world, >>-world, >>=-world}
use s32ftp.Service.{Service, Page}
use s32ftp.Service.Lawful.{Object, View, IsConfined}
use s32ftp.Fs.{Fs}
use s32ftp.Dir.{keys_of, from_token, copy_key, remove_key, list_pages, delete_keys}
use s32ftp.Dir.Cleared.{or_false}
use s32ftp.Dir.Loops.{send_batches, join_batches, delete_keys_lem}
use s32ftp.Dir.AllKeys.{member-append}

module _ (S : Service) (at : View S) (C : IsConfined S at) (f : Fs) where
  module _ (k : Str) (x : Option Object) where
    abbrev pub Stays : S.World → Type 0
    Stays u = at u f.bucket k ≡ x

    send_batches-Keeps :
        (bs : List (List Str))
        → member k (join_batches bs) ≡ false
        → Keeps Stays Any (send_batches S f bs)
    send_batches-Keeps [] h = search any_rules
    send_batches-Keeps (keys ∷ bs) h =
        let (here, later) =
          or_false (member k keys) (member k (join_batches bs))
            (sym (member-append k keys (join_batches bs)) ∙ h) in
        Rules.bind-Any Stays
          (Rules.call-Any Stays (S.delete_objects f.bucket keys) (λ w i.
            C.delete_many_frame f.bucket keys w f.bucket k
              (rw here (ground (arith, str_eq_refl f.bucket)))
            ∙ i))
          (λ _. send_batches-Keeps bs later)

    pub delete_keys-Keeps :
        (keys : List Str) → member k keys ≡ false → Keeps Stays Any (delete_keys S f keys)
    delete_keys-Keeps keys h =
        let (bs, all, _, sent) = delete_keys_lem S f keys in
        subst (Keeps Stays Any) (sym sent) (send_batches-Keeps bs (ap (member k) all ∙ h))

    pub remove_key-Keeps : (j : Str) → str_eq j k ≡ false → Keeps Stays Any (remove_key S f j)
    unfolding remove_key
    remove_key-Keeps j h =
        Rules.call-Any Stays (S.delete_object f.bucket j)
          (λ w i. C.delete_frame f.bucket j w f.bucket k (ground arith) ∙ i)

    pub copy_key-Keeps :
        (from to : Str) → str_eq to k ≡ false → Keeps Stays Any (copy_key S f from to)
    unfolding copy_key
    copy_key-Keeps from to h =
        Rules.call-Any Stays (S.copy_object f.bucket to (copy_source f.bucket from)) (λ w i.
          C.copy_frame f.bucket to (copy_source f.bucket from) w f.bucket k (ground arith) ∙ i)

    pub list_pages-Keeps :
        (fuel : ℕ) (prefix : Str) (token : Option Str) (found : List Str)
        → Keeps Stays Any (list_pages S fuel f prefix token found)
    unfolding list_pages
    list_pages-Keeps zero prefix token found = search any_rules
    list_pages-Keeps (suc fuel) prefix token found =
        Rules.bind-Any Stays
          (Rules.call-Any Stays (S.list_objects f.bucket (from_token prefix token))
            (λ w i. C.list_frame f.bucket _ w f.bucket k ∙ i))
          (λ page.
            last page page.is_truncated
              (list_pages-Keeps fuel prefix page.next_token (found ++ keys_of page.contents)))
      where
        last :
            (page : Page) (more : Bool) {m : Act S.World (List Str)}
            → Keeps Stays Any m
            → Keeps Stays Any
                (elim more [ true ↦ m | false ↦ ret (found ++ keys_of page.contents) ])
        last page true h = h
        last page false h = search any_rules

    -- The world that an action leads to.
    pub Stays-after :
        {A : Type 0} (m : Act S.World A) (w u : S.World) (r : Result Error A)
        → Keeps Stays Any m
        → Stays w
        → m w ≡ (r, u)
        → Stays u
    Stays-after m w u r keeps i e = ap (λ p. at p.1 f.bucket k) (sym e) ∙ (keeps.holds w i).0
