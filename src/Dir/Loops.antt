-- ===== src/Dir/Loops.antt =====
-- The loops of internal/s3fs/dir.go: listAllKeys over the pages and deleteKeys over the batches.
use s32ftp.Prelude.{
  ℕ, zero, suc, ◌+◌, ◌-◌, ◌≤◌, ◌<◌, min, ◌≡◌, refl, sym, ap, ◌∙◌, inl, inr, Bool, true, false, List,
  [], ◌∷◌, ◌++◌, append_assoc, Option, none, All, arith, ltb, length, drop, length-take,
  length-drop, take-append-drop, drop-drop, drop_past, Bool-cases,
}
use s32ftp.Text.{Str}
use s32ftp.Errors.{ok}
use s32ftp.Action.{Act, ret, ◌>>=◌, call}
use s32ftp.Service.{Service, Page, Reply}
use s32ftp.Fs.{Fs}
use s32ftp.Dir.{
  keys_of, batch_size, batch_at, from_token, list_pages, list_all_keys, delete_from, delete_keys,
}

drop-min : (n : ℕ) (xs : List Str) → drop (min n (length xs)) xs ≡ drop n xs
drop-min n xs = elim (Bool-cases (ltb n (length xs))) [
  | inl e ↦ ap (λ k. drop k xs) (ground arith)
  | inr e ↦ drop_past _ xs (ground arith) ∙ sym (drop_past n xs (ground arith))
]

batch-append-drop :
    (start : ℕ) (keys : List Str)
    → start < length keys
    → batch_at start keys ++ drop (start + batch_size) keys ≡ drop start keys
batch-append-drop start keys h =
    let n : ℕ = min (start + batch_size) (length keys) - start in
    let ends : start + n ≡ min (start + batch_size) (length keys) = omega arith in
    let rest : drop n (drop start keys) ≡ drop (start + batch_size) keys =
      drop-drop n start keys ∙ ap (λ m. drop m keys) ends ∙ drop-min (start + batch_size) keys in
    ap (λ r. batch_at start keys ++ r) (sym rest) ∙ take-append-drop n (drop start keys)

-- A batch that one request may carry.
abbrev pub IsBatch : List Str → Type 0
IsBatch keys = (1 ≤ length keys) × (length keys ≤ 1000)

batch_at-IsBatch :
    (start : ℕ) (keys : List Str) → start < length keys → IsBatch (batch_at start keys)
batch_at-IsBatch start keys h =
    let n : ℕ = min (start + batch_size) (length keys) - start in
    let a = length-take n (drop start keys) in
    let b = length-drop start keys in (omega arith, omega arith)

abbrev pub join_batches : List (List Str) → List Str
join_batches [] = []
join_batches (b ∷ bs) = b ++ join_batches bs

module _ (S : Service) (f : Fs) where
  -- One request for each batch, until one fails.
  abbrev pub send_batches : List (List Str) → Act S.World (Unit {0})
  send_batches [] = ret tt
  send_batches (b ∷ bs) = call (S.delete_objects f.bucket b) >>= λ _. send_batches bs

  delete_from_lem :
      (fuel start : ℕ) (keys : List Str)
      → 1 ≤ fuel
      → length keys < start + fuel
      → (bs : List (List Str)) × (join_batches bs ≡ drop start keys)
        × All IsBatch bs
        × (delete_from S fuel f start keys ≡ send_batches bs)
  unfolding delete_from
  delete_from_lem zero start keys h k = absurd (omega arith)
  delete_from_lem (suc fuel) start keys h k = elim (Bool-cases (ltb start (length keys))) [
    | inl e ↦
        let below : start < length keys = ground arith in
        let (bs, j, a, r) =
          delete_from_lem fuel (start + batch_size) keys (omega arith) (omega arith) in
        (
          batch_at start keys ∷ bs,
          ap (λ rest. batch_at start keys ++ rest) j ∙ batch-append-drop start keys below,
          (batch_at-IsBatch start keys below, a),
          rw (delete_from, e)
              (ap (λ m. call (S.delete_objects f.bucket (batch_at start keys)) >>= λ _. m) r),
        )
    | inr e ↦ ([], sym (drop_past start keys (ground arith)), tt, rw (delete_from, e) refl)
  ]

  -- deleteKeys sends the keys in their order, each once, in requests of one to a thousand keys,
  -- until a request fails; the loop always ends.
  pub delete_keys_lem :
      (keys : List Str)
      → (bs : List (List Str)) × (join_batches bs ≡ keys)
        × All IsBatch bs
        × (delete_keys S f keys ≡ send_batches bs)
  unfolding delete_keys
  delete_keys_lem keys = delete_from_lem (suc (length keys)) 0 keys (omega arith) (omega arith)

  -- The listing below `prefix` from a world and a token: the number of its pages, their keys in
  -- order, and the world after the last page.
  pub data Listed (prefix : Str) : S.World → Option Str → ℕ → List Str → S.World → Type 0 where
    last_page :
        {w v : S.World} {token : Option Str} (page : Page)
        → S.list_objects f.bucket (from_token prefix token) w ≡ (ok page, v)
        → page.is_truncated ≡ false
        → Listed prefix w token 1 (keys_of page.contents) v
    next_page :
        {w v u : S.World} {token : Option Str} (page : Page) {n : ℕ} {keys : List Str}
        → S.list_objects f.bucket (from_token prefix token) w ≡ (ok page, v)
        → page.is_truncated ≡ true
        → Listed prefix v page.next_token n keys u
        → Listed prefix w token (suc n) (keys_of page.contents ++ keys) u

  pub call->>= :
      {A B : Type 0} (c : S.World → Reply A × S.World) (k : A → Act S.World B) {w v : S.World}
      {a : A}
      → c w ≡ (ok a, v)
      → (call c >>= k) w ≡ k a v
  unfolding ◌>>=◌ call
  call->>= c k {a = a} e = rw (◌>>=◌, call, e) (ap (λ r. k a r.1) e)

  pub choose_true :
      {A : Type 0} {b : Bool} (m n : Act S.World A) (w : S.World)
      → b ≡ true
      → elim b as (λ _. Act S.World A) [ true ↦ m | false ↦ n ] w ≡ m w
  choose_true m n w e = rw e refl

  pub choose_false :
      {A : Type 0} {b : Bool} (m n : Act S.World A) (w : S.World)
      → b ≡ false
      → elim b as (λ _. Act S.World A) [ true ↦ m | false ↦ n ] w ≡ n w
  choose_false m n w e = rw e refl

  list_pages_lem :
      (prefix : Str) (fuel : ℕ) {n : ℕ} {w u : S.World} {token : Option Str} (found : List Str)
      {keys : List Str}
      → Listed prefix w token n keys u
      → n ≤ fuel
      → list_pages S fuel f prefix token found w ≡ (ok (found ++ keys), u)
  unfolding list_pages ret
  list_pages_lem prefix zero found (last_page page e t) h = absurd (omega arith)
  list_pages_lem prefix zero found (next_page page e t l) h = absurd (omega arith)
  list_pages_lem prefix (suc fuel) found (last_page page e t) h =
      call->>= _ _ e ∙ choose_false _ _ _ t
  list_pages_lem prefix (suc fuel) {u = u} found (next_page page {keys = keys} e t l) h =
      call->>= _ _ e
      ∙ choose_true _ _ _ t
      ∙ list_pages_lem prefix fuel (found ++ keys_of page.contents) l (omega arith)
      ∙ ap (λ ks. (ok ks, u)) (append_assoc found (keys_of page.contents) keys)

  -- When the service ends its listing after some pages, listAllKeys with that much fuel or more
  -- returns the keys of all the pages in their order.
  pub list_all_keys_lem :
      (prefix : Str) (fuel n : ℕ) (w u : S.World) (keys : List Str)
      → Listed prefix w none n keys u
      → n ≤ fuel
      → list_all_keys S fuel f prefix w ≡ (ok keys, u)
  unfolding list_all_keys
  list_all_keys_lem prefix fuel n w u keys l h = list_pages_lem prefix fuel [] l h
