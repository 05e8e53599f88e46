-- ===== src/Dir/Cleared.antt =====
-- What deleteKeys and removeKey of internal/s3fs/dir.go have done when they report no error.
use mathlib.Core.Path.{subst}
use s32ftp.Prelude.{
  ◌≡◌, refl, sym, ap, ◌∙◌, ◌⊎◌, inl, inr, Bool, true, false, ◌||◌, List, [], ◌∷◌, ◌++◌, none, arith,
  Bool-cases, append-nil,
}
use s32ftp.Text.{Str, str_eq, has_prefix, member}
use s32ftp.Text.Laws.{str_eq_iff, str_eq_refl, has_prefix-append}
use s32ftp.Errors.{ok}
use s32ftp.Action.{ret, call}
use s32ftp.Action.Rules.{called, ok_pair, >>=-eq-ok}
use s32ftp.Service.{Service}
use s32ftp.Service.Lawful.{View, IsConfined}
use s32ftp.Service.Faithful.{IsObedient}
use s32ftp.Service.Thorough.{IsThorough}
use s32ftp.Fs.{Fs}
use s32ftp.Dir.{delete_keys, remove_key}
use s32ftp.Dir.Loops.{join_batches, send_batches, delete_keys_lem}
use s32ftp.Dir.AllKeys.{member-append}

-- The reply to a request that deletes several keys, which deleteKeys drops, has named the key among
-- those that could not be deleted, and what is at the key is what that request has left there.
pub record IsRefused (S : Service) (at : View S) (b k : Str) (v : S.World) : Type 0 where
  pub keys : List Str
  pub failed : List Str
  pub world : S.World
  pub sent : member k keys ≡ true
  pub reply : (S.delete_objects b keys world).0 ≡ ok failed
  pub named : member k failed ≡ true
  pub left : at v b k ≡ at (S.delete_objects b keys world).1 b k

abbrev pub IsGone : (S : Service) → View S → Str → Str → S.World → Type 0
IsGone S at b k v = (at v b k ≡ none) ⊎ IsRefused S at b k v

-- The keys are gone, but for those that were refused, and the others are as they were.
pub record IsCleared (S : Service) (at : View S) (b : Str) (keys : List Str) (w v : S.World)
    : Type 0 where
  pub gone : (k : Str) → member k keys ≡ true → IsGone S at b k v
  pub kept : (k : Str) → member k keys ≡ false → at v b k ≡ at w b k

pub or_false : (a b : Bool) → (a || b) ≡ false → (a ≡ false) × (b ≡ false)
or_false true b h = absurd (cc)
or_false false b h = (refl, h)

pub member-one : (k j : Str) → member k (j ∷ []) ≡ true → k ≡ j
unfolding member
member-one k j m = (str_eq_iff k j).0 (ground arith)

pub has_prefix_refl : (p : Str) → has_prefix p p ≡ true
has_prefix_refl p = ap (has_prefix p) (sym (append-nil p)) ∙ has_prefix-append p []

-- The key is gone, and the others are as they were.
abbrev pub IsDeleted : (S : Service) → View S → Str → Str → S.World → S.World → Type 0
IsDeleted S at b k w v = (at v b k ≡ none) × ((j : Str) → str_eq j k ≡ false → at v b j ≡ at w b j)

pub still-IsGone :
    (S : Service) (at : View S) (b k : Str) (u v : S.World)
    → at v b k ≡ at u b k
    → IsGone S at b k u
    → IsGone S at b k v
still-IsGone S at b k u v same (inl none_yet) = inl (same ∙ none_yet)
still-IsGone S at b k u v same (inr r) = inr (record {
  keys = r.keys;
  failed = r.failed;
  world = r.world;
  sent = r.sent;
  reply = r.reply;
  named = r.named;
  left = same ∙ r.left;
})

module _ (S : Service) (at : View S) (C : IsConfined S at) (T : IsThorough S at) (f : Fs) where
  batch-IsCleared :
      (keys : List Str) (w v : S.World) (failed : List Str)
      → call (S.delete_objects f.bucket keys) w ≡ (ok failed, v)
      → IsCleared S at f.bucket keys w v
  batch-IsCleared keys w v failed h =
      let (good, moved) = called (S.delete_objects f.bucket keys) w v failed h in
      record {
        gone = λ k m. elim (Bool-cases (member k failed)) [
          | inl refused ↦ inr (record {
            keys = keys;
            failed = failed;
            world = w;
            sent = m;
            reply = good;
            named = refused;
            left = ap (λ x. at x f.bucket k) (sym moved);
          })
          | inr deleted ↦ inl (
              ap (λ x. at x f.bucket k) (sym moved)
              ∙ T.delete_many_ok f.bucket keys w k good m deleted)
        ];
        kept = λ k m.
            ap (λ x. at x f.bucket k) (sym moved)
            ∙ C.delete_many_frame f.bucket keys w f.bucket k
                (rw m (ground (arith, str_eq_refl f.bucket)));
      }

  pub join-IsCleared :
      (xs ys : List Str) (w u v : S.World)
      → IsCleared S at f.bucket xs w u
      → IsCleared S at f.bucket ys u v
      → IsCleared S at f.bucket (xs ++ ys) w v
  join-IsCleared xs ys w u v first rest = record {
    gone = λ k m. elim (Bool-cases (member k ys)) [
      | inl e ↦ rest.gone k e
      | inr e ↦
          still-IsGone S at f.bucket k u v (rest.kept k e)
            (first.gone k (ground (arith, member-append k xs ys)))
    ];
    kept = λ k m.
        let (a, b) = or_false _ _ (sym (member-append k xs ys) ∙ m) in
        rest.kept k b ∙ first.kept k a;
  }

  send_batches-IsCleared :
      (bs : List (List Str)) (w v : S.World)
      → send_batches S f bs w ≡ (ok tt, v)
      → IsCleared S at f.bucket (join_batches bs) w v
  unfolding ret
  send_batches-IsCleared [] w v h = record {
    gone = λ k m. unfold member in cc m;
    kept = λ k m. ap (λ x. at x f.bucket k) (sym (ok_pair h).1);
  }
  send_batches-IsCleared (keys ∷ bs) w v h =
      let (failed, u, e, g) = >>=-eq-ok (call (S.delete_objects f.bucket keys)) _ w h in
      join-IsCleared keys (join_batches bs) w u v (batch-IsCleared keys w u failed e)
        (send_batches-IsCleared bs u v g)

  pub delete_keys-IsCleared :
      (keys : List Str) (w v : S.World)
      → delete_keys S f keys w ≡ (ok tt, v)
      → IsCleared S at f.bucket keys w v
  delete_keys-IsCleared keys w v h =
      let (bs, all, _, sent) = delete_keys_lem S f keys in
      subst (λ ks. IsCleared S at f.bucket ks w v) all
        (send_batches-IsCleared bs w v (ap (λ m. m w) (sym sent) ∙ h))

  pub remove_key-IsDeleted :
      (O : IsObedient S at) (k : Str) (w v : S.World)
      → remove_key S f k w ≡ (ok tt, v)
      → IsDeleted S at f.bucket k w v
  unfolding remove_key
  remove_key-IsDeleted O k w v h =
      let (good, moved) = called (S.delete_object f.bucket k) w v tt h in
      (
        ap (λ x. at x f.bucket k) (sym moved) ∙ O.delete_ok f.bucket k w good,
        λ j m.
            ap (λ x. at x f.bucket j) (sym moved)
            ∙ C.delete_frame f.bucket k w f.bucket j
                (ground (arith, str_eq_iff j k, str_eq_iff k j)),
      )

  pub remove_key-IsCleared :
      (O : IsObedient S at) (k : Str) (w v : S.World)
      → remove_key S f k w ≡ (ok tt, v)
      → IsCleared S at f.bucket (k ∷ []) w v
  remove_key-IsCleared O k w v h =
      let (none_yet, others) = remove_key-IsDeleted O k w v h in
      record {
        gone = λ j m. inl (ap (at v f.bucket) (member-one j k m) ∙ none_yet);
        kept = λ j m. others j (unfold member in ground (arith, m));
      }
