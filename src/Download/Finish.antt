-- ===== src/Download/Finish.antt =====
-- Downloads from their opening on: openDownload, Seek and reading to the end in
-- internal/s3fs/download.go.
use s32ftp.Prelude.{
  ℕ, ◌≤◌, ◌≡◌, refl, sym, ap, ◌∙◌, inl, inr, Bool, true, false, ◌||◌, List, [], ◌∷◌, Option, none,
  some, arith, ◌==◌, if◌then◌else◌, length, Bool-cases,
}
use s32ftp.Prelude.Int.{ℤ, pos, negsuc, ltb_ℤ, pos_part}
use s32ftp.Text.{Str}
use s32ftp.Errors.{Error, ok, err, is_not_found, s3_error}
use s32ftp.Action.{ret, throw, ◌>>=◌, attempt}
use s32ftp.Info.{size_of}
use s32ftp.Service.{Service, Reply, Head}
use s32ftp.Service.Lawful.{Object, View, IsConfined}
use s32ftp.Service.Faithful.{IsFaithful}
use s32ftp.Fs.{Fs, key, head_of, found_head}
use s32ftp.Download.{
  Download, Delivery, seek, seek_to, move_to, seek_target, read, open_found, open_download,
}
use s32ftp.Download.Follow
use s32ftp.Download.Follow.{Follows, IsNext}

-- What a client does with a handle.
pub data Use : Type 0 where
  fetch : Delivery → ℕ → Use
  skip : ℤ → ℕ → Use

module _ (S : Service) where
  abbrev pub use_once : Use → Download → S.World → Download × S.World
  use_once (fetch t n) d w = ((read S t n d w).1, (read S t n d w).2)
  use_once (skip offset whence) d w = ((seek offset whence d).1, w)

  unfoldable pub use_all : List Use → Download → S.World → Download × S.World
  unfolding read seek
  use_all [] d w = (d, w)
  use_all (u ∷ us) d w = let (d', w') = use_once u d w in use_all us d' w'

module _ (S : Service) (at : View S) (C : IsConfined S at) (F : IsFaithful S at) (o : Object) where
  abbrev Fits : Download → S.World → Type 0
  Fits = Follows S at C F o

  move_to-Follows : (target : ℕ) (d : Download) (w : S.World) → Fits d w → Fits (move_to target d) w
  move_to-Follows target d w f = elim (Bool-cases (target == d.position)) [
    | inl e ↦ rw e f
    | inr e ↦ rw e (record { object = f.object; sized = f.sized; stream = inl refl })
  ]

  seek_to-Follows :
      (target : Option ℤ) (d : Download) (w : S.World) → Fits d w → Fits (seek_to target d).1 w
  seek_to-Follows (some (pos target)) d w f = move_to-Follows target d w f
  seek_to-Follows (some (negsuc n)) d w f = f
  seek_to-Follows none d w f = f

  seek-Follows :
      (offset : ℤ) (whence : ℕ) (d : Download) (w : S.World)
      → Fits d w
      → Fits (seek offset whence d).1 w
  unfolding seek
  seek-Follows offset whence d w f = step d.is_closed
    where
      step :
          (b : Bool)
          → Fits (if b then (err Error.closed, d) else seek_to (seek_target offset whence d) d).1 w
      step true = f
      step false = seek_to-Follows (seek_target offset whence d) d w f

  use_all-Follows :
      (us : List Use) (d : Download) (w : S.World)
      → Fits d w
      → Fits (use_all S us d w).0 (use_all S us d w).1
  unfolding use_all
  use_all-Follows [] d w f = f
  use_all-Follows (fetch t n ∷ us) d w f =
      use_all-Follows us _ _ (Follow.read-IsNext S at C F o t n d w f).follows
  use_all-Follows (skip offset whence ∷ us) d w f =
      use_all-Follows us _ w (seek-Follows offset whence d w f)

  -- What openDownload returns.
  pub record IsOpened (f : Fs) (clean : Str) (offset : ℤ) (d : Download) (w : S.World)
      : Type 0 where
    pub follows : Fits d w
    pub start : pos d.position ≡ offset
    pub within : d.position ≤ length o.body
    pub view : d.fs ≡ f
    pub place : d.key ≡ key f clean
    pub fresh : d.is_closed ≡ false

  granted :
      (b : Bool) (e : Error) (d d' : Download) (u v : S.World)
      → (if b then throw e else ret d) u ≡ (ok d', v)
      → (b ≡ false) × (d ≡ d') × (u ≡ v)
  unfolding ret throw
  granted true e d d' u v h = absurd (cc)
  granted false e d d' u v h = (refl, cc, cc)

  in_range :
      (offset : ℤ) (n : ℕ)
      → (ltb_ℤ offset (pos 0) || ltb_ℤ (pos n) offset) ≡ false
      → (pos (pos_part offset) ≡ offset) × (pos_part offset ≤ n)
  in_range (pos m) n h = (refl, ground arith)
  in_range (negsuc m) n h = absurd (ground arith)

  missing :
      (f : Fs) (clean : Str) (offset : ℤ) (b : Bool) (e : Error) (u : S.World) {d : Download}
      {v : S.World}
      → ((if b then ret none else throw e) >>= open_found S f clean offset) u ≡ (ok d, v)
      → ⊥
  unfolding ◌>>=◌ ret throw
  missing f clean offset true e u h = cc
  missing f clean offset false e u h = cc

  opened :
      (f : Fs) (clean : Str) (offset : ℤ) (w : S.World) (r : Reply Head × S.World) {d : Download}
      {v : S.World}
      → at w f.bucket (key f clean) ≡ some o
      → S.head_object f.bucket (key f clean) w ≡ r
      → (attempt (λ _. r) >>= found_head S >>= open_found S f clean offset) w ≡ (ok d, v)
      → IsOpened f clean offset d v
  unfolding ◌>>=◌ attempt ret throw size_of
  opened f clean offset w (ok head, u) {d} {v} a e h =
      let (o', there, long) = F.head_found _ _ w (ap (λ p. p.0) e) in
      let same : o' ≡ o = Follow.some-eq S at C F o (sym there ∙ a) in
      let size : size_of head.content_length ≡ length o.body =
        ap size_of long ∙ ap (λ (x : Object). length x.body) same in
      let (fine, made, moved) = granted _ _ _ d u v h in
      let (start, within) = in_range offset (size_of head.content_length) fine in
      rw (← made) (record {
        follows = record {
          object =
              ap (λ x. at x f.bucket (key f clean)) (sym moved)
              ∙ ap (λ p. at p.1 f.bucket (key f clean)) (sym e)
              ∙ C.head_frame _ _ w _ _
              ∙ a;
          sized = size;
          stream = inl refl;
        };
        start = start;
        within = rw size at within;
        view = refl;
        place = refl;
        fresh = refl;
      })
  opened f clean offset w (err x, u) a e h =
      absurd (missing f clean offset (is_not_found x) (s3_error x) u h)

  -- A download that is opened on an object has its handle at the offset that was asked for, which
  -- is not past the end; and after any reads and seeks a Read gives the bytes of the object that
  -- follow the position, moves it past them, and reports io.EOF at the end of the object only.
  pub open_download_lem :
      (f : Fs) (clean : Str) (offset : ℤ) (w v : S.World) (d : Download) (us : List Use)
      (t : Delivery) (n : ℕ)
      → at w f.bucket (key f clean) ≡ some o
      → open_download S f clean offset w ≡ (ok d, v)
      → IsOpened f clean offset d v
        × IsNext S at C F o
            (use_all S us d v).0.position
            (read S t n (use_all S us d v).0 (use_all S us d v).1)
  unfolding open_download head_of ◌>>=◌ attempt
  open_download_lem f clean offset w v d us t n a h =
      let i : IsOpened f clean offset d v = opened f clean offset w _ a refl h in
      (i, Follow.read-IsNext S at C F o t n _ _ (use_all-Follows us d v i.follows))
