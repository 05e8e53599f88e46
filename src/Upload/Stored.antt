-- ===== src/Upload/Stored.antt =====
-- What an upload of internal/s3fs/upload.go leaves in the store, under every schedule.
use s32ftp.Prelude.{
  ℕ, ◌≡◌, refl, sym, ap, ◌∙◌, ◌⊎◌, inl, inr, Bool, true, false, ◌&&◌, List, [], ◌∷◌, ◌++◌, Option,
  none, some, arith, leb, if◌then◌else◌, length, take, append-nil, take_nil,
}
use s32ftp.Prelude.Int.{ℤ}
use s32ftp.Text.{Str}
use s32ftp.Errors.{Error}
use s32ftp.Service.Lawful.{Object}
use mathlib.Core.Path.{subst}
use s32ftp.Fs.{Fs}
use s32ftp.Upload.{
  Task, starting, sending, completing, finished, UploadFile, is_some, pipe_done, fail, write,
  end_write, counted, seek, transfer_error, transfer_error_ends, close_ends, close, handed_part,
}
use s32ftp.Upload.Schedule.{accepted_after}
use s32ftp.Upload.Invariant.{
  FileIsSound, Grows, transfer_error_sound, transfer_error_ends_sound, close_sound, write_sound,
  seek_sound, seek_same, end_write_sound,
}

-- The first `n` bytes of what was stored before.
abbrev pub lead_of : ℕ → Option Object → Str
lead_of n none = []
lead_of n (some o) = take n o.body

pub lead_of_zero : (before : Option Object) → lead_of 0 before ≡ []
lead_of_zero none = refl
lead_of_zero (some o) = refl

-- The result of a Write, and the shape of its branches.
abbrev Outcome : Type 0
Outcome = Option (ℕ × Option Error) × UploadFile

abbrev branch : Bool → Bool → Outcome → Outcome → Outcome → Outcome
branch c d r s t = if c then r else if d then s else t

-- The bytes that the uploader has had from the pipe: those of the calls of Write that have
-- returned, and those of the one that waits.
abbrev pub got : UploadFile → Str → Str
got u accepted = accepted ++ take u.handed (handed_part u.writing)

-- What the object at the handle's key is, by where the goroutine stands.
abbrev pub TaskIsSound : ℕ → Option Object → Task → UploadFile → Option Object → Str → Type 0
TaskIsSound n before starting u now accepted = (now ≡ before) × (got u accepted ≡ [])
TaskIsSound n before (sending lead received) u now accepted =
    (now ≡ before) × (lead ≡ lead_of n before) × (received ≡ got u accepted)
TaskIsSound n before (completing body) u now accepted =
    (now ≡ before)
    × (u.is_closed ≡ true)
    × (pipe_done u ≡ true)
    × (body ≡ lead_of n before ++ accepted)
TaskIsSound n before finished u now accepted =
    (pipe_done u ≡ true)
    × (((is_some u.error ≡ true) × (now ≡ before))
        ⊎ ((u.is_closed ≡ true)
            × (o : Object) × (now ≡ some o)
            × (o.body ≡ lead_of n before ++ accepted)))

carry :
    (n : ℕ) (before now : Option Object) (t : Task) (u v : UploadFile) (accepted accepted' : Str)
    → Grows u v
    → got v accepted' ≡ got u accepted
    → (u.is_closed ≡ false) ⊎ (accepted' ≡ accepted)
    → TaskIsSound n before t u now accepted
    → TaskIsSound n before t v now accepted'
carry n before now starting u v x y g e c h = (h.0, e ∙ h.1)
carry n before now (sending lead received) u v x y g e c h = (h.0, h.1, h.2 ∙ sym e)
carry n before now (completing body) u v x y g e (inl open_yet) (same, shut, done, whole) =
    absurd (ground arith)
carry n before now (completing body) u v x y g e (inr same_bytes) (same, shut, done, whole) =
    (same, ground arith, ground arith, whole ∙ ap (λ r. lead_of n before ++ r) (sym same_bytes))
carry n before now finished u v x y g e c (done, inl (failed, same)) =
    (ground arith, inl (ground arith, same))
carry n before now finished u v x y g e (inl open_yet) (done, inr (shut, o, there, whole)) =
    absurd (ground arith)
carry n before now finished u v x y g e (inr same) (done, inr (shut, o, there, whole)) =
    (ground arith, inr (ground arith, o, there, whole ∙ ap (λ r. lead_of n before ++ r) (sym same)))

module _ {W : Type 0} (look : W → Option Object) (b k : Str) (n : ℕ) (before : Option Object) where
  -- The handle `u` of the key `k` in the bucket `b` that keeps `n` bytes of the object, in a world,
  -- with the bytes that the calls of Write have reported.
  pub record IsSound (u : UploadFile) (w : W) (accepted : Str) : Type 0 where
    pub bucket : u.fs.bucket ≡ b
    pub place : u.key ≡ k
    pub prefix : u.prefix_len ≡ n
    pub file : FileIsSound u
    pub task : TaskIsSound n before u.task u (look w) accepted

  pub client-IsSound :
      (u v : UploadFile) (w : W) (x y : Str)
      → IsSound u w x
      → FileIsSound v × Grows u v
      → got v y ≡ got u x
      → (u.is_closed ≡ false) ⊎ (y ≡ x)
      → IsSound v w y
  client-IsSound u v w x y h (f, g) e c = record {
    bucket = ap (λ (fs : Fs). fs.bucket) g.same_bucket ∙ h.bucket;
    place = g.same_key ∙ h.place;
    prefix = g.same_prefix ∙ h.prefix;
    file = f;
    task =
        subst (λ t. TaskIsSound n before t v (look w) y) (sym g.same_task)
          (carry n before (look w) u.task u v x y g e c h.task);
  }

  -- A call that leaves alone what the Write that waits has handed over.
  same_got-IsSound :
      (u v : UploadFile) (w : W) (x : Str)
      → IsSound u w x
      → FileIsSound v × Grows u v
      → v.writing ≡ u.writing
      → v.handed ≡ u.handed
      → IsSound v w x
  same_got-IsSound u v w x h fg same_writing same_handed =
      client-IsSound u v w x x h fg
        (ap (λ p. x ++ take p (handed_part v.writing)) same_handed
          ∙ ap (λ p. x ++ take u.handed (handed_part p)) same_writing)
        (inr refl)

  pub close-IsSound :
      (u : UploadFile) (w : W) (x : Str) → u.writing ≡ none → IsSound u w x → IsSound (close u) w x
  unfolding close
  close-IsSound u w x free h =
      same_got-IsSound u (close u) w x h (close_sound u free h.file) (ground arith) (ground arith)

  pub transfer_error-IsSound :
      (e : Option Error) (u : UploadFile) (w : W) (x : Str)
      → IsSound u w x
      → IsSound (transfer_error e u) w x
  unfolding transfer_error
  transfer_error-IsSound none u w x h = h
  transfer_error-IsSound (some e) u w x h =
      same_got-IsSound u _ w x h (transfer_error_sound (some e) u h.file) refl refl

  pub transfer_error_ends-IsSound :
      (u : UploadFile) (w : W) (x : Str) → IsSound u w x → IsSound (transfer_error_ends u) w x
  unfolding transfer_error_ends
  transfer_error_ends-IsSound u w x h =
      same_got-IsSound u _ w x h (transfer_error_ends_sound u h.file) (pick u.aborting).0
        (pick u.aborting).1
    where
      pick :
          (es : List Error)
          → ((close_ends es u).writing ≡ u.writing) × ((close_ends es u).handed ≡ u.handed)
      pick [] = (refl, refl)
      pick (e ∷ es) = (refl, refl)

  pub seek-IsSound :
      (offset : ℤ) (whence : ℕ) (u : UploadFile) (w : W) (x : Str)
      → IsSound u w x
      → IsSound (seek offset whence u).1 w x
  seek-IsSound offset whence u w x h =
      same_got-IsSound u _ w x h (seek_sound offset whence u h.file) (seek_same offset whence u).0
        (seek_same offset whence u).1

  pub write-IsSound :
      (p : Str) (u : UploadFile) (w : W) (x : Str)
      → u.writing ≡ none
      → IsSound u w x
      → IsSound (write p u).1 w x
  unfolding write fail
  write-IsSound p u w x free h =
      client-IsSound u _ w x x h (write_sound p u free h.file) (pick _ _ u.is_closed (pipe_done u))
        (inr refl)
    where
      nothing : take u.handed (handed_part u.writing) ≡ []
      nothing = ap (λ q. take u.handed (handed_part q)) free ∙ take_nil u.handed

      pick :
          (r : Option (ℕ × Option Error)) (e : Error) (c d : Bool)
          → got
              (branch c d
                (r, u)
                (some (0, some e), fail e u)
                (none, record u { writing = some p; handed = 0; met = false })).1
              x
            ≡ got u x
      pick r e true d = refl
      pick r e false true = refl
      pick r e false false = ap (λ q. x ++ q) (sym nothing)

  counted_got :
      (p : Str) (u : UploadFile) (x : Str)
      → u.writing ≡ some p
      → (x ++ take u.handed p) ++ take 0 [] ≡ got u x
  counted_got p u x waits = append-nil _ ∙ ap (λ q. x ++ take u.handed (handed_part q)) (sym waits)

  -- The Write of `p` that waits returns, or goes on waiting.
  pub end_write-IsSound :
      (p : Str) (u : UploadFile) (w : W) (x : Str)
      → u.writing ≡ some p
      → IsSound u w x
      → IsSound (end_write p u).1 w (accepted_after x p (end_write p u).0)
  unfolding fail
  end_write-IsSound p u w x waits h =
      client-IsSound u _ w x _ h (end_write_sound p u waits h.file)
        (pick _ (u.met && leb (length p) u.handed) (pipe_done u))
        (inl (ground (arith, h.file.when_closed)))
    where
      pick :
          (e : Error) (c d : Bool)
          → got
              (branch c d
                (some (u.handed, none), counted u)
                (some (u.handed, some e), fail e (counted u))
                (none, u)).1
              (accepted_after x p
                (branch c d
                  (some (u.handed, none), counted u)
                  (some (u.handed, some e), fail e (counted u))
                  (none, u)).0)
            ≡ got u x
      pick e true d = counted_got p u x waits
      pick e false true = counted_got p u x waits
      pick e false false = refl
