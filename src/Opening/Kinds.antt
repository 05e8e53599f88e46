-- ===== src/Opening/Kinds.antt =====
-- Which handle a client gets, and that getting one changes nothing: internal/s3fs/fs.go.
use s32ftp.Prelude.{
  ◌≡◌, refl, ◌∙◌, inl, inr, Bool, true, false, not, if◌then◌else◌, Bool-cases, Option, none, some,
  ℕ,
}
use s32ftp.Prelude.Int.{ℤ, pos, ltb_ℤ}
use s32ftp.Text.{Str, str_eq}
use s32ftp.Keys.{clean_ftp_path, root_path}
use s32ftp.Errors.{Error, Cause, Result, err, path_error, errno, eisdir, read_only}
use s32ftp.Action.{ret, throw, ◌>>=◌}
use s32ftp.Action.Rules
use s32ftp.Action.Rules.{Good, Any, Keeps, any_rules}
use s32ftp.Info.{FileInfo}
use s32ftp.Service.{Service, Head, ListRequest}
use s32ftp.Service.Lawful.{View, IsConfined}
use s32ftp.Fs
use s32ftp.Fs.{Fs, key, stat}
use s32ftp.Dir.{read_only_err}
use s32ftp.Isolation.Reads
use s32ftp.Handle.{new_file}
use s32ftp.Download.{Download, open_download}
use s32ftp.Download
use s32ftp.Upload.{Flags, UploadFile}
use s32ftp.Upload.Run
use s32ftp.Upload.Run.{open_upload, kept, kept_of, new_upload}
use s32ftp.Opening.{
  File, directory, download, upload, writes, open_found, open_name, get_handle, open_file, create,
}

-- What a handle that is given out for a name and flags is.
abbrev pub IsGranted : Fs → Str → Flags → File → Type 0
IsGranted f name flags (directory h) =
    (writes flags ≡ false) × (h.info.is_dir ≡ true) × (h.name ≡ clean_ftp_path name)
IsGranted f name flags (download d) =
    (writes flags ≡ false) × (d.fs ≡ f) × (d.key ≡ key f (clean_ftp_path name))
IsGranted f name flags (upload u) =
    (writes flags ≡ true)
    × (f.read_only ≡ false)
    × (u.fs ≡ f)
    × (u.key ≡ key f (clean_ftp_path name))

module _ (S : Service) (mime : Str → Str) (Inv : S.World → Type 0)
    (head_inv : (b k : Str) (w : S.World) → Inv w → Inv (S.head_object b k w).1)
    (list_inv : (b : Str) (r : ListRequest) (w : S.World) → Inv w → Inv (S.list_objects b r w).1)
    (f : Fs) where
  abbrev IsAt : Str → Download → Type 0
  IsAt clean d = (d.fs ≡ f) × (d.key ≡ key f clean)

  abbrev GoesTo : Str → UploadFile → Type 0
  GoesTo clean u = (u.fs ≡ f) × (u.key ≡ key f clean)

  open_download-Keeps :
      (clean : Str) (offset : ℤ) → Keeps Inv (IsAt clean) (open_download S f clean offset)
  unfolding open_download
  open_download-Keeps clean offset =
      Rules.>>=-Keeps Inv Any (IsAt clean) (Reads.head_of-Keeps S Inv head_inv list_inv f _) found
    where
      in_range :
          (b : Bool) (d : Download) (e : Error)
          → IsAt clean d
          → Keeps Inv (IsAt clean) (if b then throw e else ret d)
      in_range true d e h = Rules.throw_any Inv (IsAt clean) e
      in_range false d e h = Rules.ret-Keeps Inv (IsAt clean) h

      found :
          (head : Option Head)
          → Any head
          → Keeps Inv (IsAt clean) (Download.open_found S f clean offset head)
      found none h = Rules.throw_any Inv (IsAt clean) _
      found (some head) h = in_range _ _ _ (refl, refl)

  open_upload-Keeps :
      (clean : Str) (flags : Flags) (offset : ℤ)
      → Keeps Inv (GoesTo clean) (open_upload S mime f clean flags offset)
  unfolding open_upload kept
  open_upload-Keeps clean flags offset =
      Rules.>>=-Keeps Inv Any (GoesTo clean)
        (length_kept flags.trunc flags.append (ltb_ℤ (pos 0) offset))
        (λ n h. Rules.ret-Keeps Inv (GoesTo clean) (refl, refl))
    where
      size_of_old : Keeps Inv Any (Fs.head_size S f (key f clean))
      size_of_old = Reads.head_size-Keeps S Inv head_inv list_inv f (key f clean)

      part : (size : Option ℕ) → Keeps Inv Any (kept_of S clean offset size)
      part none = search any_rules
      part (some size) = search any_rules

      length_kept :
          (trunc append resume : Bool)
          → Keeps Inv Any (
              if trunc
              then ret 0
              else if append
              then (Fs.head_size S f (key f clean) >>= λ size. ret (Run.or_zero size))
              else if resume
              then Fs.head_size S f (key f clean) >>= kept_of S clean offset
              else ret 0)
      length_kept trunc append resume = Rules.if_Any Inv trunc (Rules.ret-Any Inv 0) (
          Rules.if_Any Inv append (Rules.bind-Any Inv size_of_old (λ size. search any_rules))
            (Rules.if_Any Inv resume (Rules.bind-Any Inv size_of_old part) (Rules.ret-Any Inv 0)))

  open_name-Keeps :
      (name : Str) (flags : Flags)
      → writes flags ≡ false
      → Keeps Inv (IsGranted f name flags) (open_name S mime f name)
  unfolding open_name new_file
  open_name-Keeps name flags reads =
      Rules.>>=-Keeps Inv Any (IsGranted f name flags)
        (Reads.stat-Keeps S Inv head_inv list_inv f name) found
    where
      found :
          (info : FileInfo)
          → Any info
          → Keeps Inv (IsGranted f name flags) (open_found S mime f name info)
      found info h = pick info.is_dir refl
        where
          pick :
              (b : Bool)
              → info.is_dir ≡ b
              → Keeps Inv (IsGranted f name flags) (
                  if not b
                  then throw (path_error "open" name (errno eisdir))
                  else ret (directory (new_file (clean_ftp_path name) info)))
          pick true e = Rules.ret-Keeps Inv (IsGranted f name flags) (reads, e, refl)
          pick false e = Rules.throw_any Inv (IsGranted f name flags) _

  get_handle-Keeps :
      (name : Str) (flags : Flags) (offset : ℤ)
      → Keeps Inv (IsGranted f name flags) (get_handle S mime f name flags offset)
  unfolding get_handle
  get_handle-Keeps name flags offset =
      pick (str_eq (clean_ftp_path name) root_path) (writes flags) f.read_only refl refl
    where
      Fits : File → Type 0
      Fits = IsGranted f name flags

      pick :
          (root w r : Bool)
          → writes flags ≡ w
          → f.read_only ≡ r
          → Keeps Inv Fits (
              if root
              then throw (path_error "open" (clean_ftp_path name) (errno eisdir))
              else if w
              then if r
                then throw (read_only_err "open" (clean_ftp_path name))
                else (open_upload S mime f (clean_ftp_path name) flags offset >>= λ u.
                    ret (upload u))
              else (open_download S f (clean_ftp_path name) offset >>= λ d. ret (download d)))
      pick true w r a b = Rules.throw_any Inv Fits _
      pick false true true a b = Rules.throw_any Inv Fits _
      pick false true false a b =
          Rules.>>=-Keeps Inv (GoesTo (clean_ftp_path name)) Fits (open_upload-Keeps _ flags offset)
            (λ u h. Rules.ret-Keeps Inv Fits (a, b, h.0, h.1))
      pick false false r a b =
          Rules.>>=-Keeps Inv (IsAt (clean_ftp_path name)) Fits (open_download-Keeps _ offset)
            (λ d h. Rules.ret-Keeps Inv Fits (a, h.0, h.1))

  open_file-Keeps :
      (name : Str) (flags : Flags)
      → Keeps Inv (IsGranted f name flags) (open_file S mime f name flags)
  unfolding open_file
  open_file-Keeps name flags = pick (writes flags) refl
    where
      pick :
          (b : Bool)
          → writes flags ≡ b
          → Keeps Inv
              (IsGranted f name flags)
              (if b then get_handle S mime f name flags (pos 0) else open_name S mime f name)
      pick true e = get_handle-Keeps name flags (pos 0)
      pick false e = open_name-Keeps name flags e

-- What a call that gives out a handle leaves and returns.
abbrev pub IsGivenOut :
    (S : Service) → View S → Fs → Str → Flags → S.World → Result Error File × S.World → Type 0
IsGivenOut S at f name flags w r =
    ((b k : Str) → at r.1 b k ≡ at w b k) × Good (IsGranted f name flags) r.0

-- Getting a handle by GetHandle or OpenFile changes no object, whether it succeeds or fails. A
-- handle for an upload is given only on a view that may be written, for flags that ask to write, and
-- goes to the key of the path; one for a download only for flags that do not; one of a directory
-- only for what Stat calls a directory.
pub open_file-IsGranted :
    (S : Service) (at : View S) (C : IsConfined S at) (mime : Str → Str) (f : Fs) (name : Str)
    (flags : Flags) (offset : ℤ) (w : S.World)
    → IsGivenOut S at f name flags w (get_handle S mime f name flags offset w)
      × IsGivenOut S at f name flags w (open_file S mime f name flags w)
open_file-IsGranted S at C mime f name flags offset w =
    let same : S.World → Type 0 = λ v. (b k : Str) → at v b k ≡ at w b k in
    let heads : (b k : Str) (v : S.World) → same v → same (S.head_object b k v).1 =
      λ b k v i b' k'. C.head_frame b k v b' k' ∙ i b' k' in
    let lists : (b : Str) (r : ListRequest) (v : S.World) → same v → same (S.list_objects b r v).1 =
      λ b r v i b' k'. C.list_frame b r v b' k' ∙ i b' k' in
    (
      (get_handle-Keeps S mime same heads lists f name flags offset).holds w (λ b k. refl),
      (open_file-Keeps S mime same heads lists f name flags).holds w (λ b k. refl),
    )

-- On a read-only view GetHandle, OpenFile and Create refuse whatever asks to write, with the error
-- that the path is a directory for the root and that the view is read-only elsewhere, and make no
-- call.
pub get_handle_read_only :
    (S : Service) (mime : Str → Str) (f : Fs) (name : Str) (flags : Flags) (offset : ℤ)
    (w : S.World)
    → f.read_only ≡ true
    → writes flags ≡ true
    → let cause : Cause =
        if str_eq (clean_ftp_path name) root_path then errno eisdir else read_only in
      let refused : Result Error File × S.World =
        (err (path_error "open" (clean_ftp_path name) cause), w) in
      (get_handle S mime f name flags offset w ≡ refused)
      × (open_file S mime f name flags w ≡ refused)
      × (create S mime f name w ≡ refused)
unfolding get_handle open_file create throw
get_handle_read_only S mime f name flags offset w r a =
    elim (Bool-cases (str_eq (clean_ftp_path name) root_path)) [
      | inl e ↦ rw (a, e) (refl, refl, refl)
      | inr e ↦ rw (a, r, e) (refl, refl, refl)
    ]
