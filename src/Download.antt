-- ===== src/Download.antt =====
-- The handle of a download: internal/s3fs/download.go. The methods that only refuse are in
-- Opening/Methods, and the context is left out.
pub mod Follow
pub mod Finish
pub mod Complete
pub mod At
use s32ftp.Prelude.{
  ℕ, zero, suc, ◌+◌, min, Bool, true, false, ◌||◌, not, List, [], ◌∷◌, Option, none, some, ltb, leb,
  ◌==◌, if◌then◌else◌, length, take, drop,
}
use s32ftp.Prelude.Int.{ℤ, pos, negsuc, ◌+ℤ◌, ltb_ℤ, wrap64, pos_part}
use s32ftp.Text.{Str, str_eq}
use s32ftp.Keys.{root_path, base}
use s32ftp.Errors.{
  S3Error, Error, Result, ok, err, path_error, s3_error, bare_errno, errno, einval, not_exist, eof,
  unexpected_eof, closed,
}
use s32ftp.Action.{Act, ret, throw, ◌>>=◌}
use s32ftp.Info.{FileInfo, new_file_info, size_of, time_of}
use s32ftp.Service.{Service, Head}
use s32ftp.Fs
use s32ftp.Fs.{Fs, head_of, get_object_from}

-- downloadFile. `body` holds the bytes that the open response has not delivered; that of the
-- source's emptyReader has none.
pub record Download : Type 0 where
  pub fs : Fs
  pub name : Str
  pub key : Str
  pub size : ℕ
  pub mod_time : ℕ
  pub position : ℕ
  pub body : Option Str
  pub is_closed : Bool

-- What the network does at one Read of a response: it delivers up to a number of bytes, or all
-- that is left together with io.EOF if that fits, or it breaks after a number of bytes.
pub data Delivery : Type 0 where
  part : ℕ → Delivery
  last : Delivery
  broken : ℕ → S3Error → Delivery

-- `body.Read(p)` at the length of `p`: the bytes and the error, and the bytes that are left.
abbrev pub body_read : Delivery → ℕ → Str → (Str × Option Error) × Str
body_read d n [] = (([], some eof), [])
body_read (part m) n (c ∷ rest) = ((take (min m n) (c ∷ rest), none), drop (min m n) (c ∷ rest))
body_read last n (c ∷ rest) =
    if leb (length (c ∷ rest)) n
    then ((c ∷ rest, some eof), [])
    else ((take n (c ∷ rest), none), drop n (c ∷ rest))
body_read (broken m e) n (c ∷ rest) =
    ((take (min m n) (c ∷ rest), some (s3_error e)), drop (min m n) (c ∷ rest))

-- `errors.Is(err, io.EOF)`
abbrev pub is_eof : Option Error → Bool
is_eof (some eof) = true
is_eof _ = false

abbrev pub undelivered : Option Str → Str
undelivered none = []
undelivered (some rest) = rest

-- Read after `d.body.Read(p)`.
abbrev pub settle : Download → (Str × Option Error) × Str → Download
settle d r = record d {
  position = d.position + length r.0.0;
  body = if is_eof r.0.1 then none else some r.1;
}

-- downloadFile.Seek: `whence` is 0, 1 or 2 for io.SeekStart, io.SeekCurrent and io.SeekEnd.
abbrev pub seek_target : ℤ → ℕ → Download → Option ℤ
seek_target offset whence d =
    if whence == 0
    then some offset
    else if whence == 1
    then some (wrap64 (pos d.position +ℤ offset))
    else if whence == 2
    then some (wrap64 (pos d.size +ℤ offset))
    else none

abbrev pub move_to : ℕ → Download → Download
move_to target d = if target == d.position then d else record d { position = target; body = none }

abbrev pub seek_to : Option ℤ → Download → Result Error ℕ × Download
seek_to (some (pos target)) d = (ok target, move_to target d)
seek_to (some (negsuc n)) d = (err (path_error "seek" d.name (errno einval)), d)
seek_to none d = (err (path_error "seek" d.name (errno einval)), d)

unfoldable pub seek : ℤ → ℕ → Download → Result Error ℕ × Download
seek offset whence d =
    if d.is_closed then (err closed, d) else seek_to (seek_target offset whence d) d

-- downloadFile.Name.
unfoldable pub file_name : Download → Str
unfolding str_eq base
file_name d = if str_eq d.name root_path then root_path else base d.name

-- downloadFile.Stat.
unfoldable pub file_info : Download → FileInfo
unfolding base new_file_info
file_info d = new_file_info (base d.name) d.size d.mod_time

-- downloadFile.Close. `failure` is what closing the response returns.
abbrev pub close_body : Option Error → Option Str → Option Error
close_body failure none = none
close_body failure (some rest) = failure

unfoldable pub close : Option Error → Download → Option Error × Download
close failure d =
    if d.is_closed
    then (none, d)
    else (close_body failure d.body, record d { is_closed = true; body = none })

-- `io.ReadFull(out.Body, p)` at the length of `p`, where `cut` is an error that the response meets
-- after a number of bytes.
abbrev pub end_of_body : Str → Option Error
end_of_body [] = some eof
end_of_body (c ∷ rest) = some unexpected_eof

abbrev pub read_full : Option (ℕ × S3Error) → ℕ → Str → Str × Option Error
read_full none n body =
    if leb n (length body) then (take n body, none) else (body, end_of_body body)
read_full (some (m, e)) n body =
    if leb n (min m (length body))
    then (take n body, none)
    else if leb (length body) m
    then (body, end_of_body body)
    else (take m body, some (s3_error e))

module _ (S : Service) where
  open S use {World}

  -- FS.openDownload.
  abbrev pub open_found : Fs → Str → ℤ → Option Head → Act World Download
  open_found f clean offset none = throw (path_error "open" clean not_exist)
  open_found f clean offset (some head) =
      if ltb_ℤ offset (pos 0) || ltb_ℤ (pos (size_of head.content_length)) offset
      then throw (path_error "open" clean (errno einval))
      else ret (record {
        fs = f;
        name = clean;
        key = Fs.key f clean;
        size = size_of head.content_length;
        mod_time = time_of head.last_modified;
        position = pos_part offset;
        body = none;
        is_closed = false;
      })

  unfoldable pub open_download : Fs → Str → ℤ → Act World Download
  unfolding head_of size_of time_of
  open_download f clean offset = head_of S f (Fs.key f clean) >>= open_found f clean offset

  -- downloadFile.ensureBody.
  abbrev pub with_body : Download → Option Str → Act World Download
  with_body d (some rest) = ret d
  with_body d none =
      if leb d.size d.position
      then ret (record d { body = some [] })
      else get_object_from S d.fs d.key d.position >>= λ rest. ret (record d { body = some rest })

  unfoldable pub ensure_body : Download → Act World Download
  unfolding get_object_from
  ensure_body d = with_body d d.body

  -- downloadFile.Read of up to `n` bytes: the bytes and the error, the handle and the world.
  abbrev pub read_body :
      Delivery
      → ℕ
      → Download
      → Result Error Download × World
      → (Str × Option Error) × Download × World
  read_body t n d (err e, w) = (([], some e), d, w)
  read_body t n d (ok d', w) = let r = body_read t n (undelivered d'.body) in (r.0, settle d' r, w)

  unfoldable pub read : Delivery → ℕ → Download → World → (Str × Option Error) × Download × World
  unfolding ensure_body
  read t n d w =
      if d.is_closed then (([], some closed), d, w) else read_body t n d (ensure_body d w)

  -- downloadFile.ReadAt.
  abbrev pub read_at_body :
      Option (ℕ × S3Error) → ℕ → Result Error Str × World → (Str × Option Error) × World
  read_at_body cut n (err e, w) = (([], some e), w)
  read_at_body cut n (ok body, w) = (read_full cut n body, w)

  unfoldable pub read_at :
      Option (ℕ × S3Error) → ℕ → ℤ → Download → World → (Str × Option Error) × World
  unfolding get_object_from
  read_at cut n offset d w =
      if d.is_closed
      then (([], some closed), w)
      else if ltb_ℤ offset (pos 0)
      then (([], some (bare_errno einval)), w)
      else if not (ltb_ℤ offset (pos d.size))
      then (([], some eof), w)
      else read_at_body cut n (get_object_from S d.fs d.key (pos_part offset) w)
