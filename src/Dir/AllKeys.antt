-- ===== src/Dir/AllKeys.antt =====
-- The keys that listAllKeys of internal/s3fs/dir.go returns, and the objects below the prefix.
use mathlib.Core.Path.{subst}
use s32ftp.Prelude.{
  ℕ, zero, suc, ◌≡◌, ◌≢◌, refl, sym, ap, ◌∙◌, ◌⊎◌, inl, inr, Bool, true, false, ◌||◌, List, [], ◌∷◌,
  ◌++◌, Option, none, some, arith, Bool-cases,
}
use s32ftp.Text.{Str, str_eq, has_prefix, member}
use s32ftp.Text.Laws.{str_eq_iff}
use s32ftp.Errors.{ok}
use s32ftp.Action.{Act, ret, throw, call}
use s32ftp.Action.Rules.{Good, called, ok_pair, >>=-eq-ok}
use s32ftp.Service.{Service, Entry, Page}
use s32ftp.Service.Lawful.{Object, View, IsConfined, HasPrefixes}
use s32ftp.Service.Thorough.{is_listed, IsThorough}
use s32ftp.Fs.{Fs}
use s32ftp.Dir.{keys_of, from_token, list_pages, list_all_keys}

member-keys_of : (k : Str) (es : List Entry) → member k (keys_of es) ≡ is_listed k es
unfolding member is_listed
member-keys_of k [] = refl
member-keys_of k (e ∷ es) = ap (λ r. str_eq k e.key || r) (member-keys_of k es)

pub member-append :
    (k : Str) (xs ys : List Str) → member k (xs ++ ys) ≡ (member k xs || member k ys)
unfolding member
member-append k [] ys = refl
member-append k (x ∷ xs) ys = ground (arith, member-append k xs ys)

pub or_true : (b : Bool) → (b || true) ≡ true
or_true true = refl
or_true false = refl

pub or_cases : (a b : Bool) → (a || b) ≡ true → (a ≡ true) ⊎ (b ≡ true)
or_cases true b h = inl refl
or_cases false b h = inr h

listed_below :
    (p k : Str) (es : List Entry) → HasPrefixes p es → is_listed k es ≡ true → has_prefix p k ≡ true
unfolding is_listed
listed_below p k [] h l = absurd (cc)
listed_below p k (e ∷ es) h l = elim (Bool-cases (str_eq k e.key)) [
  | inl q ↦ ap (has_prefix p) ((str_eq_iff k e.key).0 q) ∙ h.0
  | inr q ↦ listed_below p k es h.1 (rw q at l)
]

-- Two worlds with the same objects.
abbrev pub Same : (S : Service) → View S → S.World → S.World → Type 0
Same S at v w = (b k : Str) → at v b k ≡ at w b k

-- The keys of the objects below a prefix, found without changing any.
pub record AreKeysBelow (S : Service) (at : View S) (f : Fs) (prefix : Str) (w : S.World)
    (keys : List Str) (v : S.World) : Type 0 where
  pub unchanged : Same S at v w
  pub complete :
      (k : Str) {o : Object}
      → at w f.bucket k ≡ some o
      → has_prefix prefix k ≡ true
      → member k keys ≡ true
  pub sound :
      (k : Str)
      → member k keys ≡ true
      → (has_prefix prefix k ≡ true) × (o : Object) × (at w f.bucket k ≡ some o)

pub absent_key :
    (S : Service) (at : View S) (f : Fs) {prefix : Str} {w : S.World} {keys : List Str}
    {v : S.World}
    → AreKeysBelow S at f prefix w keys v
    → (k : Str) → has_prefix prefix k ≡ true
    → (member k keys ≢ true)
    → at w f.bucket k ≡ none
absent_key S at f {prefix} {w} {keys} all k p unlisted = pick (at w f.bucket k) refl
  where
    pick : (x : Option Object) → at w f.bucket k ≡ x → x ≡ none
    pick none there = refl
    pick (some o) there = absurd (unlisted (all.complete k there p))

module _ (S : Service) (at : View S) (C : IsConfined S at) (T : IsThorough S at) (f : Fs) where
  page-Same :
      (prefix : Str) (token : Option Str) (w v : S.World) (page : Page)
      → call (S.list_objects f.bucket (from_token prefix token)) w ≡ (ok page, v)
      → Same S at v w
  page-Same prefix token w v page h b k =
      ap (λ x. at x b k) (sym (called _ w v page h).1) ∙ C.list_frame _ _ w b k

  -- What a page of the listing shows.
  module _ (prefix : Str) (token : Option Str) (w u : S.World) (page : Page)
      (h : call (S.list_objects f.bucket (from_token prefix token)) w ≡ (ok page, u)) where
    shown : (S.list_objects f.bucket (from_token prefix token) w).0 ≡ ok page
    shown = (called _ w u page h).0

    page_complete :
        (k : Str)
        → T.Pending f.bucket prefix token w k
        → (member k (keys_of page.contents) ≡ true)
          ⊎ ((page.is_truncated ≡ true) × T.Pending f.bucket prefix page.next_token u k)
    page_complete k g = elim (T.goes_on f.bucket prefix k token w shown g) [
      | inl here ↦ inl (member-keys_of k page.contents ∙ here)
      | inr (more, rest) ↦ inr (
        more,
        subst (λ x. T.Pending f.bucket prefix page.next_token x k) (called _ w u page h).1 rest,
      )
    ]

    page_sound :
        (k : Str)
        → member k (keys_of page.contents) ≡ true
        → (has_prefix prefix k ≡ true) × (o : Object) × (at w f.bucket k ≡ some o)
    page_sound k m =
        let here : is_listed k page.contents ≡ true = sym (member-keys_of k page.contents) ∙ m in
        let below : HasPrefixes prefix page.contents =
          subst (λ r. Good (λ (p : Page). HasPrefixes prefix p.contents) r) shown
            (C.list_prefix f.bucket (from_token prefix token) w) in
        let (o, there) = T.only f.bucket prefix k token w shown here in
        (listed_below prefix k page.contents below here, o, there)

  -- What listAllKeys returns from a page on.
  record IsAllOf (prefix : Str) (token : Option Str) (w : S.World) (found keys : List Str)
      (v : S.World) : Type 0 where
    unchanged : Same S at v w
    old : (k : Str) → member k found ≡ true → member k keys ≡ true
    complete : (k : Str) → T.Pending f.bucket prefix token w k → member k keys ≡ true
    sound :
        (k : Str)
        → member k keys ≡ true
        → (member k found ≡ true)
          ⊎ ((has_prefix prefix k ≡ true) × (o : Object) × (at w f.bucket k ≡ some o))

  last_page :
      (prefix : Str) (token : Option Str) (w u : S.World) (page : Page) (found : List Str)
      → call (S.list_objects f.bucket (from_token prefix token)) w ≡ (ok page, u)
      → page.is_truncated ≡ false
      → IsAllOf prefix token w found (found ++ keys_of page.contents) u
  last_page prefix token w u page found h t = record {
    unchanged = page-Same prefix token w u page h;
    old = λ k m. member-append k found (keys_of page.contents) ∙ rw m refl;
    complete = λ k g. elim (page_complete prefix token w u page h k g) [
      | inl m ↦ member-append k found (keys_of page.contents) ∙ rw m (or_true (member k found))
      | inr (more, rest) ↦ absurd (cc)
    ];
    sound = λ k m. elim (or_cases _ _ (sym (member-append k found (keys_of page.contents)) ∙ m)) [
      | inl a ↦ inl a
      | inr b ↦ inr (page_sound prefix token w u page h k b)
    ];
  }

  next_page :
      (prefix : Str) (token : Option Str) (w u v : S.World) (page : Page) (found keys : List Str)
      → call (S.list_objects f.bucket (from_token prefix token)) w ≡ (ok page, u)
      → IsAllOf prefix page.next_token u (found ++ keys_of page.contents) keys v
      → IsAllOf prefix token w found keys v
  next_page prefix token w u v page found keys h r = record {
    unchanged = λ b k. r.unchanged b k ∙ page-Same prefix token w u page h b k;
    old = λ k m. r.old k (member-append k found (keys_of page.contents) ∙ rw m refl);
    complete = λ k g. elim (page_complete prefix token w u page h k g) [
      | inl m ↦
          r.old k (member-append k found (keys_of page.contents) ∙ rw m (or_true (member k found)))
      | inr (more, rest) ↦ r.complete k rest
    ];
    sound = λ k m. elim (r.sound k m) [
      | inl a ↦ elim (or_cases _ _ (sym (member-append k found (keys_of page.contents)) ∙ a)) [
        | inl b ↦ inl b
        | inr b ↦ inr (page_sound prefix token w u page h k b)
      ]
      | inr (below, o, there) ↦
          inr (below, o, sym (page-Same prefix token w u page h f.bucket k) ∙ there)
    ];
  }

  list_pages-IsAllOf :
      (fuel : ℕ) (prefix : Str) (token : Option Str) (found keys : List Str) (w v : S.World)
      → list_pages S fuel f prefix token found w ≡ (ok keys, v)
      → IsAllOf prefix token w found keys v
  unfolding list_pages throw ret
  list_pages-IsAllOf zero prefix token found keys w v h = absurd (cc)
  list_pages-IsAllOf (suc fuel) prefix token found keys w v h =
      let (page, u, e, g) =
        >>=-eq-ok (call (S.list_objects f.bucket (from_token prefix token))) _ w h in
      step page u e page.is_truncated refl
        (list_pages-IsAllOf fuel prefix page.next_token (found ++ keys_of page.contents) keys u v) g
    where
      step :
          (page : Page) (u : S.World)
          → call (S.list_objects f.bucket (from_token prefix token)) w ≡ (ok page, u)
          → (t : Bool) → page.is_truncated ≡ t
          → (list_pages S fuel f prefix page.next_token (found ++ keys_of page.contents) u
                ≡ (ok keys, v)
              → IsAllOf prefix page.next_token u (found ++ keys_of page.contents) keys v)
          → elim t as (λ _. Act S.World (List Str)) [
            | true ↦ list_pages S fuel f prefix page.next_token (found ++ keys_of page.contents)
            | false ↦ ret (found ++ keys_of page.contents)
          ]
              u
            ≡ (ok keys, v)
          → IsAllOf prefix token w found keys v
      step page u e true t rest g = next_page prefix token w u v page found keys e (rest g)
      step page u e false t rest g =
          let (all, moved) = ok_pair g in
          subst (λ x. IsAllOf prefix token w found keys x) moved
            (subst (λ ks. IsAllOf prefix token w found ks u) all
              (last_page prefix token w u page found e t))

  -- What listAllKeys returns is, whatever the number of pages, every key below the prefix at which
  -- there is an object, and no other; no object changes.
  pub list_all_keys-AreKeysBelow :
      (fuel : ℕ) (prefix : Str) (keys : List Str) (w v : S.World)
      → list_all_keys S fuel f prefix w ≡ (ok keys, v)
      → AreKeysBelow S at f prefix w keys v
  unfolding list_all_keys member
  list_all_keys-AreKeysBelow fuel prefix keys w v h =
      let all = list_pages-IsAllOf fuel prefix none [] keys w v h in
      record {
        unchanged = all.unchanged;
        complete = λ k there below. all.complete k (T.first f.bucket prefix k w there below);
        sound = λ k m. elim (all.sound k m) [ inl none_yet ↦ absurd (cc) | inr r ↦ r ];
      }
