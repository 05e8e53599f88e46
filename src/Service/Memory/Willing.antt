-- ===== src/Service/Memory/Willing.antt =====
-- The service that keeps its objects in a list does what it is asked, with a key or more on a page.
use s32ftp.Prelude.{
  ℕ, zero, suc, ◌+◌, ◌-◌, ◌≤◌, ◌≡◌, refl, ◌⊎◌, inl, inr, true, List, Option, none, some, arith, ltb,
  length, drop, length-drop, Bool-cases,
}
use s32ftp.Text.{Str}
use s32ftp.Errors.{S3Error, ok, err, is_not_found}
use s32ftp.Service.{Head, Page}
use s32ftp.Service.Lawful.{Object}
use s32ftp.Service.Willing.{IsWilling}
use s32ftp.Fs.{Fs}
use s32ftp.Dir.{from_token}
use s32ftp.Dir.Loops.{Listed, last_page, next_page}
use s32ftp.Service.Memory.{Store, find, absent, head_reply, matching, page_of, start_of, memory}
use s32ftp.Service.Memory.Thorough.{length-zeros}

module _ (limit : ℕ) (f : Fs) (p : Str) (w : Store) where
  abbrev page : Option Str → Page
  page token = page_of (suc limit) f.bucket (from_token p token) w

  abbrev left_over : Option Str → ℕ
  left_over token = length (drop (start_of token) (matching f.bucket p w))

  abbrev Ends : Option Str → Type 0
  Ends token =
      (n : ℕ) × (keys : List Str) × (v : Store) × Listed (memory (suc limit)) f p w token n keys v

  fewer : (token : Option Str) → left_over (page token).next_token ≡ left_over token - suc limit
  unfolding page_of
  fewer token = omega (
    arith,
    length-zeros (start_of token + suc limit),
    length-drop (start_of (page token).next_token) (matching f.bucket p w),
    length-drop (start_of token) (matching f.bucket p w),
  )

  Ends-within : (k : ℕ) (token : Option Str) → left_over token ≤ k → Ends token
  unfolding page_of
  Ends-within zero token h = (1, _, w, last_page (page token) refl (ground arith))
  Ends-within (suc k) token h = elim (Bool-cases (ltb (suc limit) (left_over token))) [
    | inl more ↦
        let (n, keys, v, l) = Ends-within k (page token).next_token (omega (arith, fewer token)) in
        (suc n, _, v, next_page (page token) refl more l)
    | inr all ↦ (1, _, w, last_page (page token) refl all)
  ]

head_answers :
    (x : Option Object)
    → ((head : Head) × (head_reply x ≡ ok head))
      ⊎ ((e : S3Error) × (head_reply x ≡ err e) × (is_not_found e ≡ true))
unfolding is_not_found
head_answers none = inr (absent, refl, refl)
head_answers (some o) = inl (_, refl)

pub memory-IsWilling : (limit : ℕ) → IsWilling (memory (suc limit))
memory-IsWilling limit = record {
  heads = λ b k w. head_answers (find w b k);
  lists = λ b r w. (page_of (suc limit) b r w, refl);
  deletes = λ b k w. refl;
  deletes_many = λ b keys w some_keys not_more. (List.[], refl);
  listing_ends = λ f p w. Ends-within limit f p w (left_over limit f p w none) none (omega arith);
}
