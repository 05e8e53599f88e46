-- ===== src/Download/Follow.antt =====
-- What a download delivers, while the object stays as it is: internal/s3fs/download.go.
use s32ftp.Prelude.{
  ℕ, zero, suc, ◌+◌, min, ◌≡◌, refl, sym, ap, ◌∙◌, ◌⊎◌, inl, inr, Bool, true, false, [], ◌∷◌, ◌++◌,
  Option, none, some, arith, ltb, leb, if◌then◌else◌, length, drop, take-append-drop, drop_past,
  drop_after, Bool-cases, append-nil,
}
use s32ftp.Text.{Str}
use s32ftp.Errors.{Error, Result, ok, err, closed}
use s32ftp.Action.{ret, ◌>>=◌, call}
use s32ftp.Service.{Service, Reply}
use s32ftp.Service.Lawful.{Object, View, IsConfined}
use s32ftp.Service.Faithful.{IsFaithful, from_start}
use s32ftp.Fs.{get_object_from}
use s32ftp.Download.{
  Download, Delivery, part, last, broken, body_read, is_eof, settle, with_body, ensure_body,
  read_body, read,
}

-- What a Read of a response gives and what it leaves are the response.
body_read-append :
    (t : Delivery) (n : ℕ) (rest : Str) → (body_read t n rest).0.0 ++ (body_read t n rest).1 ≡ rest
body_read-append t n [] = refl
body_read-append (part m) n (c ∷ rest) = take-append-drop (min m n) (c ∷ rest)
body_read-append last n (c ∷ rest) = elim (Bool-cases (leb (length (c ∷ rest)) n)) [
  | inl e ↦ rw e (append-nil (c ∷ rest))
  | inr e ↦ rw e (take-append-drop n (c ∷ rest))
]
body_read-append (broken m e) n (c ∷ rest) = take-append-drop (min m n) (c ∷ rest)

body_read_ended :
    (t : Delivery) (n : ℕ) (rest : Str)
    → (is_eof (body_read t n rest).0.1 ≡ false) ⊎ ((body_read t n rest).1 ≡ [])
body_read_ended t n [] = inr refl
body_read_ended (part m) n (c ∷ rest) = inl refl
body_read_ended last n (c ∷ rest) = elim (Bool-cases (leb (length (c ∷ rest)) n)) [
  | inl e ↦ rw e (inr refl)
  | inr e ↦ rw e (inl refl)
]
body_read_ended (broken m e) n (c ∷ rest) = inl refl

pub from_start_lem :
    (n : ℕ) (body : Str) → from_start (if ltb 0 n then some n else none) body ≡ drop n body
from_start_lem zero body = refl
from_start_lem (suc n) body = let e : ltb 0 (suc n) ≡ true = ground arith in rw e refl

module _ (S : Service) (at : View S) (C : IsConfined S at) (F : IsFaithful S at) (o : Object) where
  -- The handle of a download of the object `o`: its open response has what follows the position.
  pub record Follows (d : Download) (w : S.World) : Type 0 where
    pub object : at w d.fs.bucket d.key ≡ some o
    pub sized : d.size ≡ length o.body
    pub stream : (d.body ≡ none) ⊎ (d.body ≡ some (drop d.position o.body))

  -- After ensureBody.
  abbrev Ready : Download → Result Error Download × S.World → Type 0
  Ready d (err e, w) = (is_eof (some e) ≡ false) × Follows d w
  Ready d (ok d', w) =
      (d' ≡ record d { body = some (drop d.position o.body) })
      × (at w d.fs.bucket d.key ≡ some o)
      × (d.size ≡ length o.body)

  pub some-eq : {a b : Object} → some a ≡ some b → a ≡ b
  some-eq h = cc

  fetched-Ready :
      (d : Download) (w : S.World) (r : Reply Str × S.World)
      → Follows d w
      → (S.get_object d.fs.bucket d.key (if ltb 0 d.position then some d.position else none) w ≡ r)
      → Ready d ((call (λ _. r) >>= λ rest. ret (record d { body = some rest })) w)
  unfolding ret ◌>>=◌ call
  fetched-Ready d w (err e, v) f h = (
    refl,
    record {
      object = ap (λ p. at p.1 d.fs.bucket d.key) (sym h) ∙ C.get_frame _ _ _ w _ _ ∙ f.object;
      sized = f.sized;
      stream = f.stream;
    },
  )
  fetched-Ready d w (ok body, v) f h =
      let (o', there, whole) = F.get_found _ _ _ w (ap (λ p. p.0) h) in
      let same : o' ≡ o = some-eq (sym there ∙ f.object) in
      let rest : body ≡ drop d.position o.body =
        whole
        ∙ from_start_lem d.position o'.body
        ∙ ap (λ (x : Object). drop d.position x.body) same in
      (
        ap (λ b. record d { body = some b }) rest,
        ap (λ p. at p.1 d.fs.bucket d.key) (sym h) ∙ C.get_frame _ _ _ w _ _ ∙ f.object,
        f.sized,
      )

  with_body-Ready :
      (d : Download) (w : S.World) (b : Option Str)
      → d.body ≡ b
      → Follows d w
      → Ready d (with_body S d b w)
  unfolding ret get_object_from call ◌>>=◌
  with_body-Ready d w (some rest) e f =
      let open_at : d.body ≡ some (drop d.position o.body) = ground arith in
      (ap (λ b. record d { body = b }) open_at, f.object, f.sized)
  with_body-Ready d w none e f = elim (Bool-cases (leb d.size d.position)) [
    | inl past ↦
        let nothing : drop d.position o.body ≡ [] =
          drop_past d.position o.body (ground (arith, f.sized)) in
        rw past (ap (λ rest. record d { body = some rest }) (sym nothing), f.object, f.sized)
    | inr before ↦ rw before (fetched-Ready d w _ f refl)
  ]

  -- What a Read at the position `p` gives: the next bytes of the object, and io.EOF at its end only.
  pub record IsNext (p : ℕ) (x : (Str × Option Error) × Download × S.World) : Type 0 where
    pub next : x.0.0 ++ drop x.1.position o.body ≡ drop p o.body
    pub moved : x.1.position ≡ p + length x.0.0
    pub follows : Follows x.1 x.2
    pub ended : (is_eof x.0.1 ≡ false) ⊎ (drop x.1.position o.body ≡ [])

  nothing-IsNext :
      (d : Download) (w : S.World) (e : Error)
      → is_eof (some e) ≡ false
      → Follows d w
      → IsNext d.position (([], some e), d, w)
  nothing-IsNext d w e h f = record { next = refl; moved = omega arith; follows = f; ended = inl h }

  settle-IsNext :
      (d : Download) (w : S.World) (r : (Str × Option Error) × Str)
      → at w d.fs.bucket d.key ≡ some o
      → d.size ≡ length o.body
      → r.0.0 ++ r.1 ≡ drop d.position o.body
      → (is_eof r.0.1 ≡ false) ⊎ (r.1 ≡ [])
      → IsNext d.position (r.0, settle d r, w)
  settle-IsNext d w r a s h e =
      let rest : r.1 ≡ drop (d.position + length r.0.0) o.body =
        drop_after d.position r.0.0 r.1 o.body h in
      record {
        next = ap (λ x. r.0.0 ++ x) (sym rest) ∙ h;
        moved = refl;
        follows = record { object = a; sized = s; stream = stream_is _ (is_eof r.0.1) r.1 rest };
        ended = either _ e rest;
      }
    where
      stream_is :
          (p : ℕ) (b : Bool) (x : Str)
          → x ≡ drop p o.body
          → ((if b then none else some x) ≡ none)
            ⊎ ((if b then none else some x) ≡ some (drop p o.body))
      stream_is p true x k = inl refl
      stream_is p false x k = inr (ap some k)

      either :
          (p : ℕ) {b : Bool} {x : Str}
          → (b ≡ false) ⊎ (x ≡ [])
          → x ≡ drop p o.body
          → (b ≡ false) ⊎ (drop p o.body ≡ [])
      either p (inl k) l = inl k
      either p (inr k) l = inr (sym l ∙ k)

  read_body-IsNext :
      (t : Delivery) (n : ℕ) (d : Download) (r : Result Error Download × S.World)
      → Ready d r
      → IsNext d.position (read_body S t n d r)
  read_body-IsNext t n d (err e, w) (h, f) = nothing-IsNext d w e h f
  read_body-IsNext t n d (ok d', w) (e, a, s) = rw e (
      settle-IsNext (record d { body = some (drop d.position o.body) }) w
        (body_read t n (drop d.position o.body)) a s (body_read-append t n (drop d.position o.body))
        (body_read_ended t n (drop d.position o.body)))

  ensure_body-Ready : (d : Download) (w : S.World) → Follows d w → Ready d (ensure_body S d w)
  unfolding ensure_body
  ensure_body-Ready d w f = with_body-Ready d w d.body refl f

  if_IsNext :
      (p : ℕ) (b : Bool) {x y : (Str × Option Error) × Download × S.World}
      → IsNext p x
      → IsNext p y
      → IsNext p (if b then x else y)
  if_IsNext p true h k = h
  if_IsNext p false h k = k

  pub read-IsNext :
      (t : Delivery) (n : ℕ) (d : Download) (w : S.World)
      → Follows d w
      → IsNext d.position (read S t n d w)
  unfolding read
  read-IsNext t n d w f =
      if_IsNext d.position d.is_closed (nothing-IsNext d w closed refl f)
        (read_body-IsNext t n d (ensure_body S d w) (ensure_body-Ready d w f))
