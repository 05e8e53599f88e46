-- ===== src/Rename/Copied.antt =====
-- What the copies of Rename of internal/s3fs/dir.go have done when they report no error.
use s32ftp.Prelude.{
  ◌≡◌, sym, ap, ◌∙◌, inl, inr, true, false, List, [], ◌∷◌, ◌++◌, Option, none, some, arith,
  Bool-cases,
}
use s32ftp.Text.{Str, str_eq, has_prefix, member}
use s32ftp.Text.Laws.{str_eq_iff, str_eq_refl, has_prefix-append, has_prefix-eq, append_cancel}
use s32ftp.Keys.{copy_source}
use s32ftp.Keys.Source.{IsText}
use s32ftp.Errors.{ok}
use s32ftp.Action.{ret}
use s32ftp.Action.Rules.{called, ok_pair, >>=-eq-ok}
use s32ftp.Service.{Service}
use s32ftp.Service.Lawful.{Object, View, IsConfined}
use s32ftp.Service.Thorough.{IsThorough}
use s32ftp.Fs.{Fs}
use s32ftp.Dir.{copy_key}
use s32ftp.Dir.Cleared.{or_false}
use s32ftp.Rename.{target, copy_all}

abbrev pub body_of : Option Object → Option Str
body_of none = none
body_of (some o) = some o.body

pub target-injective :
    (old new j k : Str)
    → has_prefix old j ≡ true
    → has_prefix old k ≡ true
    → target old new j ≡ target old new k
    → j ≡ k
unfolding target
target-injective old new j k p q e =
    has_prefix-eq old j p
    ∙ ap (λ x. old ++ x) (append_cancel new _ _ e)
    ∙ sym (has_prefix-eq old k q)

pub target_ne :
    (old new j k : Str)
    → has_prefix old j ≡ true
    → has_prefix old k ≡ true
    → str_eq j k ≡ false
    → str_eq (target old new j) (target old new k) ≡ false
target_ne old new j k p q e = elim (Bool-cases (str_eq (target old new j) (target old new k))) [
  | inl same ↦
      absurd (
        cc
          (sym e ∙ (str_eq_iff j k).1 (target-injective old new j k p q ((str_eq_iff _ _).0 same))))
  | inr other ↦ other
]

pub str_eq_sym : (a b : Str) → str_eq a b ≡ str_eq b a
str_eq_sym a b = ground (arith, str_eq_iff a b, str_eq_iff b a)

module _ (S : Service) (at : View S) (C : IsConfined S at) (T : IsThorough S at) (f : Fs) where
  -- copyKey has copied the body and changed no object at another key.
  pub record IsCopy (from to : Str) (w v : S.World) : Type 0 where
    pub source : (o : Object) × (at w f.bucket from ≡ some o)
    pub same_body : body_of (at v f.bucket to) ≡ body_of (at w f.bucket from)
    pub frame : (k : Str) → str_eq to k ≡ false → at v f.bucket k ≡ at w f.bucket k

  pub copy_key-IsCopy :
      (from to : Str) (w v : S.World)
      → IsText f.bucket
      → IsText from
      → copy_key S f from to w ≡ (ok tt, v)
      → IsCopy from to w v
  unfolding copy_key
  copy_key-IsCopy from to w v t t' h =
      let c = S.copy_object f.bucket to (copy_source f.bucket from) in
      let (good, moved) = called c w v tt h in
      let (o, o', there, arrived, bodies) = T.copy_ok f.bucket to f.bucket from w t t' good in
      record {
        source = (o, there);
        same_body =
            ap (λ x. body_of (at x f.bucket to)) (sym moved)
            ∙ ap body_of arrived
            ∙ ap (λ x. some x) bodies
            ∙ ap body_of (sym there);
        frame = λ k e.
            ap (λ x. at x f.bucket k) (sym moved)
            ∙ C.copy_frame _ _ _ w _ _ (ground (arith, str_eq_refl f.bucket));
      }

  module _ (old new : Str) where
    -- A key that Rename copies.
    pub record IsMovable (k : Str) : Type 0 where
      pub below_old : has_prefix old k ≡ true
      pub not_below_new : has_prefix new k ≡ false
      pub is_text : IsText k

    -- The copies have been made, and the rest is as it was.
    pub record AreCopied (keys : List Str) (w v : S.World) : Type 0 where
      pub same : (k : Str) → has_prefix new k ≡ false → at v f.bucket k ≡ at w f.bucket k
      pub copied :
          (k : Str)
          → member k keys ≡ true
          → body_of (at v f.bucket (target old new k)) ≡ body_of (at w f.bucket k)
      pub rest :
          (k : Str)
          → has_prefix old k ≡ true
          → member k keys ≡ false
          → at v f.bucket (target old new k) ≡ at w f.bucket (target old new k)

    target_below : (k : Str) → has_prefix new (target old new k) ≡ true
    unfolding target
    target_below k = has_prefix-append new _

    pub above_ne : (j k : Str) → has_prefix new k ≡ false → str_eq (target old new j) k ≡ false
    above_ne j k p = elim (Bool-cases (str_eq (target old new j) k)) [
      | inl e ↦
          absurd (cc (sym p ∙ ap (has_prefix new) (sym ((str_eq_iff _ _).0 e)) ∙ target_below j))
      | inr e ↦ e
    ]

    one_more :
        (k : Str) (keys : List Str) (w u v : S.World)
        → ((j : Str) → member j (k ∷ keys) ≡ true → IsMovable j)
        → IsCopy k (target old new k) w u
        → AreCopied keys u v
        → AreCopied (k ∷ keys) w v
    unfolding member
    one_more k keys w u v fit c r = record {
      same = λ j p. r.same j p ∙ c.frame j (above_ne k j p);
      copied = λ j m. elim (Bool-cases (member j keys)) [
        | inl e ↦ r.copied j e ∙ ap body_of (c.frame j (above_ne k j (fit j m).not_below_new))
        | inr e ↦
            let here : j ≡ k = (str_eq_iff j k).0 (ground arith) in
            ap (λ x. body_of (at v f.bucket (target old new x))) here
            ∙ ap body_of (r.rest k (fit k (ground (arith, str_eq_refl k))).below_old (rw here at e))
            ∙ c.same_body
            ∙ ap (λ x. body_of (at w f.bucket x)) (sym here)
      ];
      rest = λ j p m.
          let (a, b) = or_false (str_eq j k) (member j keys) m in
          r.rest j p b
          ∙ c.frame (target old new j) (
              target_ne old new k j (fit k (ground (arith, str_eq_refl k))).below_old p
                (str_eq_sym k j ∙ a));
    }

    pub copy_all-AreCopied :
        (keys : List Str) (w v : S.World)
        → IsText f.bucket
        → ((k : Str) → member k keys ≡ true → IsMovable k)
        → copy_all S f old new keys w ≡ (ok tt, v)
        → AreCopied keys w v
    unfolding copy_all ret member
    copy_all-AreCopied [] w v t fit h = record {
      same = λ k p. ap (λ x. at x f.bucket k) (sym (ok_pair h).1);
      copied = λ k m. cc m;
      rest = λ k p m. ap (λ x. at x f.bucket (target old new k)) (sym (ok_pair h).1);
    }
    copy_all-AreCopied (k ∷ keys) w v t fit h =
        let (_, u, e, g) = >>=-eq-ok (copy_key S f k (target old new k)) _ w h in
        one_more k keys w u v fit
          (copy_key-IsCopy k (target old new k) w u t
            (fit k (ground (arith, str_eq_refl k))).is_text e)
          (copy_all-AreCopied keys u v t (λ j m. fit j (ground arith)) g)
