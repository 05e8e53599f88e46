-- ===== src/Download/Complete.antt =====
-- Reading a handle of internal/s3fs/download.go to the end of the object.
use s32ftp.Prelude.{
  ℕ, zero, suc, ◌-◌, ◌≤◌, ◌<◌, min, ◌≡◌, refl, sym, ap, ◌∙◌, ◌⊎◌, inl, inr, Bool, true, false, [],
  ◌∷◌, ◌++◌, Option, none, some, arith, leb, ltb, if◌then◌else◌, length, drop, Bool-cases,
  append-nil, length-append, length-drop, length-take,
}
use s32ftp.Text.{Str}
use s32ftp.Errors.{Error, Result, ok, err, eof, closed}
use s32ftp.Action.{ret, ◌>>=◌, call}
use s32ftp.Service.{Service, Reply}
use s32ftp.Service.Lawful.{Object, View, IsConfined}
use s32ftp.Service.Faithful.{IsFaithful}
use s32ftp.Prelude.Int.{ℤ, pos_part}
use s32ftp.Fs.{Fs, key, get_object_from}
use s32ftp.Download.{
  Download, Delivery, part, last, broken, body_read, is_eof, with_body, ensure_body, read_body,
  read, open_download,
}
use s32ftp.Download.Finish
use s32ftp.Download.Follow
use s32ftp.Download.Follow.{Follows, IsNext}

-- A delivery that brings at least a byte, if there is one, and no error but io.EOF.
abbrev pub moves : Delivery → Bool
moves (part zero) = false
moves (part (suc m)) = true
moves last = true
moves (broken m e) = false

-- A read that goes on, or that ends by io.EOF.
abbrev Progress : Str × Option Error → Type 0
Progress r = (r.1 ≡ some eof) ⊎ ((r.1 ≡ none) × (1 ≤ length r.0))

body_read-Progress :
    (t : Delivery) (n : ℕ) (rest : Str) → moves t ≡ true → Progress (body_read t (suc n) rest).0
body_read-Progress t n [] h = inl refl
body_read-Progress (part zero) n (c ∷ rest) h = absurd (cc)
body_read-Progress (part (suc m)) n (c ∷ rest) h =
    inr (refl, omega (arith, length-take (min (suc m) (suc n)) (c ∷ rest)))
body_read-Progress last n (c ∷ rest) h = elim (Bool-cases (leb (length (c ∷ rest)) (suc n))) [
  | inl e ↦ rw e (inl refl)
  | inr e ↦ rw e (inr (refl, omega arith))
]
body_read-Progress (broken m e) n (c ∷ rest) h = absurd (cc)

-- A GET of all of an object, or of a range that starts within it.
abbrev pub Within : Option ℕ → Object → Type 0
Within none o = Unit
Within (some start) o = start < length o.body

-- The service answers a GET of an object that is there, and of a range that starts within it.
abbrev pub Answers : (S : Service) → View S → Object → Type 0
Answers S at o =
    (b k : Str) (r : Option ℕ) (w : S.World)
    → at w b k ≡ some o
    → Within r o
    → (body : Str) × ((S.get_object b k r w).0 ≡ ok body)

abbrev stop_or : Str × Option Error → Str × Option Error → Str × Option Error
stop_or (bytes, some e) rest = (bytes, some e)
stop_or (bytes, none) rest = (bytes ++ rest.0, rest.1)

-- The loop that sends a download to the client: it reads buffers of `n` bytes until an error. The
-- network delivers by `net` at the rounds that are left.
module _ (S : Service) (net : ℕ → Delivery) (n : ℕ) where
  unfoldable pub read_to_end : ℕ → Download → S.World → Str × Option Error
  unfolding read
  read_to_end zero d w = ([], none)
  read_to_end (suc rounds) d w =
      let x = read S (net rounds) n d w in stop_or x.0 (read_to_end rounds x.1 x.2)

module _ (S : Service) (at : View S) (C : IsConfined S at) (F : IsFaithful S at) (o : Object) where
  -- After ensureBody, when it succeeds.
  abbrev Opened : Download → Result Error Download × S.World → Type 0
  Opened d (err e, w) = ⊥
  Opened d (ok d', w) = d'.is_closed ≡ d.is_closed

  fetched-Opened :
      (d : Download) (w : S.World) (r : Reply Str × S.World)
      → ((body : Str) × (r.0 ≡ ok body))
      → Opened d ((call (λ _. r) >>= λ rest. ret (record d { body = some rest })) w)
  unfolding ret ◌>>=◌ call
  fetched-Opened d w (err e, v) (body, h) = absurd (cc)
  fetched-Opened d w (ok s, v) h = refl

  -- ensureBody asks for a range only behind the first byte, and only before the last.
  asked-Within :
      (d : Download)
      → d.size ≡ length o.body
      → leb d.size d.position ≡ false
      → Within (if ltb 0 d.position then some d.position else none) o
  asked-Within d sized before = elim (Bool-cases (ltb 0 d.position)) [
    | inl e ↦ rw e (ground arith)
    | inr e ↦ rw e tt
  ]

  with_body-Opened :
      Answers S at o
      → (d : Download) (w : S.World) (b : Option Str) → at w d.fs.bucket d.key ≡ some o
      → d.size ≡ length o.body
      → Opened d (with_body S d b w)
  unfolding ret get_object_from call ◌>>=◌
  with_body-Opened A d w (some rest) a sized = refl
  with_body-Opened A d w none a sized = elim (Bool-cases (leb d.size d.position)) [
    | inl past ↦ rw past refl
    | inr before ↦ rw before (fetched-Opened d w _ (A _ _ _ w a (asked-Within d sized before)))
  ]

  abbrev Goes : (Str × Option Error) × Download × S.World → Type 0
  Goes x = Progress x.0 × (x.1.is_closed ≡ false)

  read_body-Goes :
      (t : Delivery) (n : ℕ) (d : Download) (r : Result Error Download × S.World)
      → moves t ≡ true
      → d.is_closed ≡ false
      → Opened d r
      → Goes (read_body S t (suc n) d r)
  read_body-Goes t n d (err e, w) m c h = absurd h
  read_body-Goes t n d (ok d', w) m c h = (body_read-Progress t n _ m, h ∙ c)

  read-Goes :
      Answers S at o
      → (t : Delivery) (n : ℕ) (d : Download) (w : S.World) → moves t ≡ true
      → d.is_closed ≡ false
      → at w d.fs.bucket d.key ≡ some o
      → d.size ≡ length o.body
      → Goes (read S t (suc n) d w)
  unfolding read ensure_body
  read-Goes A t n d w m c a sized = step d.is_closed c
    where
      step :
          (b : Bool)
          → b ≡ false
          → Goes (
              if b
              then (([], some closed), d, w)
              else read_body S t (suc n) d (with_body S d d.body w))
      step true e = absurd (cc)
      step false e =
          read_body-Goes t n d (with_body S d d.body w) m c (with_body-Opened A d w d.body a sized)

  round :
      (fuel : ℕ) (d : Download) (x : (Str × Option Error) × Download × S.World)
      (rest : Str × Option Error)
      → IsNext S at C F o d.position x
      → Goes x
      → length o.body - d.position < suc fuel
      → (length o.body - x.1.position < fuel → rest ≡ (drop x.1.position o.body, some eof))
      → stop_or x.0 rest ≡ (drop d.position o.body, some eof)
  round fuel d ((bytes, e), d', w) rest i (inl done, c) h k =
      rw done (ap (λ s. (s, some eof)) (whole i.ended))
    where
      whole : (is_eof e ≡ false) ⊎ (drop d'.position o.body ≡ []) → bytes ≡ drop d.position o.body
      whole (inl no_eof) = absurd (cc)
      whole (inr nothing) = sym (append-nil bytes) ∙ ap (λ r. bytes ++ r) (sym nothing) ∙ i.next
  round fuel d ((bytes, e), d', w) rest i (inr (none_yet, more), c) h k =
      let sum = ap length i.next in
      let fewer : length o.body - d'.position < fuel = omega (
        arith,
        i.moved,
        length-append bytes (drop d'.position o.body),
        length-drop d.position o.body,
        sum,
      ) in
      rw none_yet (ap (λ r. (bytes ++ r.0, r.1)) (k fewer) ∙ ap (λ s. (s, some eof)) i.next)

  complete :
      Answers S at o
      → (net : ℕ → Delivery) (n rounds : ℕ) (d : Download) (w : S.World)
      → ((i : ℕ) → moves (net i) ≡ true)
      → d.is_closed ≡ false
      → Follows S at C F o d w
      → length o.body - d.position < rounds
      → read_to_end S net (suc n) rounds d w ≡ (drop d.position o.body, some eof)
  unfolding read_to_end
  complete A net n zero d w m c f h = absurd (omega arith)
  complete A net n (suc rounds) d w m c f h =
      let x = read S (net rounds) (suc n) d w in
      let next = Follow.read-IsNext S at C F o (net rounds) (suc n) d w f in
      let goes = read-Goes A (net rounds) n d w (m rounds) c f.object f.sized in
      round rounds d x _ next goes h
        (λ fewer. complete A net n rounds x.1 x.2 m goes.1 next.follows fewer)

  -- A download that is opened at an offset on an object, and read until an error, gives exactly the
  -- bytes of the object from the offset on and then io.EOF, when the service answers a GET of an
  -- object that is there and of a range that starts within it, every delivery of the network brings a byte and no error, and there are
  -- more rounds than bytes.
  pub download_lem :
      Answers S at o
      → (f : Fs) (clean : Str) (offset : ℤ) (w v : S.World) (d : Download) (net : ℕ → Delivery)
        (n rounds : ℕ)
      → ((i : ℕ) → moves (net i) ≡ true)
      → at w f.bucket (key f clean) ≡ some o
      → open_download S f clean offset w ≡ (ok d, v)
      → length o.body < rounds
      → read_to_end S net (suc n) rounds d v ≡ (drop (pos_part offset) o.body, some eof)
  download_lem A f clean offset w v d net n rounds m a h r =
      let i = (Finish.open_download_lem S at C F o f clean offset w v d [] last 0 a h).0 in
      complete A net n rounds d v m i.fresh i.follows (omega arith)
      ∙ ap (λ z. (drop (pos_part z) o.body, some eof)) i.start
