-- ===== src/Session/Transfers.antt =====
-- Sessions that also transfer files: handles from GetHandle, and what is done with them. The
-- Client of internal/ftpdriver/client.go gives the server library the handle of the FS.
use s32ftp.Prelude.{
  ◌≡◌, refl, ◌∙◌, ◌&&◌, Bool, true, false, List, [], ◌∷◌, Option, none, some, leb, if◌then◌else◌, ℕ,
  inl, inr, Bool-cases,
}
use s32ftp.Prelude.Int.{ℤ}
use s32ftp.Text.{Str, str_eq, has_prefix}
use s32ftp.Keys.{clean_ftp_path}
use s32ftp.Keys.Root.{keys_in_root}
use s32ftp.Isolation.Calls
use s32ftp.Errors.{Error, Result, ok, err}
use s32ftp.Action.{ret, ◌>>=◌, call}
use s32ftp.Service.{Service, Reply}
use s32ftp.Service.Lawful.{View, IsConfined}
use s32ftp.Service.Faithful.{Uploader, IsUploader}
use s32ftp.Fs.{Fs, key, get_object_from}
use s32ftp.Download.{Download, Delivery, with_body, ensure_body, read_body, read}
use s32ftp.Download.Finish.{Use, fetch, skip, use_all}
use s32ftp.Upload.{Flags}
use s32ftp.Upload.Schedule.{Event}
use s32ftp.Upload.Schedule
use s32ftp.Upload.Safety.{opened}
use s32ftp.Upload.Frame.{run_elsewhere}
use s32ftp.Opening.{File, directory, download, upload, get_handle}
use s32ftp.Opening.Kinds.{IsGivenOut, open_file-IsGranted}
use s32ftp.Session
use s32ftp.Session.{Command}
use s32ftp.Session.Confined.{run_session-Untouched, run_session_read_only}

-- A command, or a transfer of a file with these flags from an offset on: what is done with the
-- handle if it is one of an upload, and if it is one of a download.
pub data Order : Type 0 where
  plain : Command → Order
  transfer : Str → Flags → ℤ → List Event → List Use → Order

module _ (S : Service) (U : Uploader S) (mime : Str → Str) (f : Fs) where
  open S use {World}

  abbrev pub use_handle : List Event → List Use → Result Error File × World → World
  use_handle es us (ok (directory h), w) = w
  use_handle es us (ok (download d), w) = (use_all S us d w).1
  use_handle es us (ok (upload u), w) = (Schedule.run S U es (opened S u w)).world
  use_handle es us (err e, w) = w

  abbrev pub run_order : Order → World → World
  run_order (plain c) w = (Session.run S f c w).1
  run_order (transfer name flags offset es us) w =
      use_handle es us (get_handle S mime f name flags offset w)

  unfoldable pub run_orders : List Order → World → World
  unfolding Session.run use_all Schedule.run get_handle
  run_orders [] w = w
  run_orders (o ∷ os) w = run_orders os (run_order o w)

-- A download changes no object.
module _ (S : Service) (at : View S) (C : IsConfined S at) (b k : Str) where
  got :
      (d : Download) (r : Reply Str × S.World) (w : S.World)
      → at r.1 b k ≡ at w b k
      → at ((call (λ _. r) >>= λ rest. ret (record d { body = some rest })) w).1 b k ≡ at w b k
  unfolding ret ◌>>=◌ call
  got d (ok body, v) w h = h
  got d (err e, v) w h = h

  ensured : (d : Download) (w : S.World) → at (ensure_body S d w).1 b k ≡ at w b k
  unfolding ensure_body ret get_object_from ◌>>=◌ call
  ensured d w = pick d.body
    where
      pick : (rest : Option Str) → at (with_body S d rest w).1 b k ≡ at w b k
      pick (some rest) = refl
      pick none = elim (Bool-cases (leb d.size d.position)) [
        | inl e ↦ rw e refl
        | inr e ↦ rw e (got d _ w (C.get_frame _ _ _ w b k))
      ]

  read_same :
      (t : Delivery) (n : ℕ) (d : Download) (w : S.World) → at (read S t n d w).2 b k ≡ at w b k
  unfolding read
  read_same t n d w = pick d.is_closed
    where
      after : (r : Result Error Download × S.World) → at (read_body S t n d r).2 b k ≡ at r.1 b k
      after (ok d', v) = refl
      after (err e, v) = refl

      pick :
          (c : Bool)
          → at
              (if c
                then (([], some Error.closed), d, w)
                else read_body S t n d (ensure_body S d w)).2
              b
              k
            ≡ at w b k
      pick true = refl
      pick false = after (ensure_body S d w) ∙ ensured d w

  uses_same : (us : List Use) (d : Download) (w : S.World) → at (use_all S us d w).1 b k ≡ at w b k
  unfolding use_all
  uses_same [] d w = refl
  uses_same (fetch t n ∷ us) d w = uses_same us _ _ ∙ read_same t n d w
  uses_same (skip offset whence ∷ us) d w = uses_same us _ w

module _ (S : Service) (at : View S) (C : IsConfined S at) (U : Uploader S) (IU : IsUploader S at U)
    (mime : Str → Str) (f : Fs) where
  -- What the use of a handle that GetHandle gave leaves at a key outside the root.
  use_handle_same :
      (name : Str) (flags : Flags) (es : List Event) (us : List Use) (w : S.World) (b k : Str)
      → (str_eq f.bucket b && has_prefix f.root_prefix k) ≡ false
      → (r : Result Error File × S.World) → IsGivenOut S at f name flags w r
      → at (use_handle S U mime f es us r) b k ≡ at w b k
  use_handle_same name flags es us w b k o (ok (directory h), v) g = g.0 b k
  use_handle_same name flags es us w b k o (ok (download d), v) g =
      uses_same S at C b k us d v ∙ g.0 b k
  use_handle_same name flags es us w b k o (ok (upload u), v)
        (same, (asked, may, its_fs, its_key)) =
      run_elsewhere S at C U IU f (key f (clean_ftp_path name)) b k
        (Calls.outside_ne S at C f w _ b k (keys_in_root f.root_prefix (clean_ftp_path name)).0 o)
        es (opened S u v) (its_fs, its_key)
      ∙ same b k
  use_handle_same name flags es us w b k o (err e, v) g = g.0 b k

  run_order_same :
      (x : Order) (w : S.World) (b k : Str)
      → (str_eq f.bucket b && has_prefix f.root_prefix k) ≡ false
      → at (run_order S U mime f x w) b k ≡ at w b k
  unfolding Session.run_session
  run_order_same (plain c) w b k o = run_session-Untouched S at C f (c ∷ []) w b k o
  run_order_same (transfer name flags offset es us) w b k o =
      use_handle_same name flags es us w b k o _
        (open_file-IsGranted S at C mime f name flags offset w).0

  -- Whatever commands and transfers a session makes, in whatever order the calls of a transfer and the
  -- steps of its uploader fall, every object that lies in another bucket or whose key does not begin
  -- with the root prefix is the same afterwards.
  pub run_orders-Untouched :
      (os : List Order) (w : S.World) (b k : Str)
      → (str_eq f.bucket b && has_prefix f.root_prefix k) ≡ false
      → at (run_orders S U mime f os w) b k ≡ at w b k
  unfolding run_orders
  run_orders-Untouched [] w b k o = refl
  run_orders-Untouched (x ∷ os) w b k o =
      run_orders-Untouched os (run_order S U mime f x w) b k o ∙ run_order_same x w b k o

  -- A view that is read-only: no handle is one of an upload.
  use_read_only :
      (name : Str) (flags : Flags) (es : List Event) (us : List Use) (w : S.World) (b k : Str)
      → f.read_only ≡ true
      → (r : Result Error File × S.World) → IsGivenOut S at f name flags w r
      → at (use_handle S U mime f es us r) b k ≡ at w b k
  use_read_only name flags es us w b k ro (ok (directory h), v) g = g.0 b k
  use_read_only name flags es us w b k ro (ok (download d), v) g =
      uses_same S at C b k us d v ∙ g.0 b k
  use_read_only name flags es us w b k ro (ok (upload u), v) (same, (asked, may, its_fs, its_key)) =
      absurd (cc)
  use_read_only name flags es us w b k ro (err e, v) g = g.0 b k

  order_read_only :
      (x : Order) (w : S.World) (b k : Str)
      → f.read_only ≡ true
      → at (run_order S U mime f x w) b k ≡ at w b k
  unfolding Session.run_session
  order_read_only (plain c) w b k ro = run_session_read_only S at C f (c ∷ []) w ro b k
  order_read_only (transfer name flags offset es us) w b k ro =
      use_read_only name flags es us w b k ro _
        (open_file-IsGranted S at C mime f name flags offset w).0

  -- A session of commands and transfers on a read-only view changes no object of any bucket.
  pub run_orders_read_only :
      (os : List Order) (w : S.World) (b k : Str)
      → f.read_only ≡ true
      → at (run_orders S U mime f os w) b k ≡ at w b k
  unfolding run_orders
  run_orders_read_only [] w b k ro = refl
  run_orders_read_only (x ∷ os) w b k ro =
      run_orders_read_only os (run_order S U mime f x w) b k ro ∙ order_read_only x w b k ro
