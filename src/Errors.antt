-- ===== src/Errors.antt =====
-- Errors as values: the `error` results of internal/s3fs, and the S3 errors that
-- internal/s3fs/backend.go tells apart.
use Prim.Native.String.{String}
use s32ftp.Prelude.{Bool, true, false, ◌||◌, Option, none, some, List, [], ◌∷◌}
use s32ftp.Text.{Str, codes, member}

-- The error numbers of package `syscall` that the source uses.
pub data Errno : Type 0 where
  eisdir enotdir eexist enotempty einval eacces ebadf : Errno

-- What a call of the S3 client reports. The fields say what `errors.As` finds in the chain of the
-- error: a `types.NoSuchKey`, a `types.NotFound`, a `smithy.APIError` with its code and whether its
-- fault is the server's, and whether `errors.Is` finds `context.DeadlineExceeded`.
pub record S3Error : Type 0 where
  pub no_such_key : Bool
  pub not_found : Bool
  pub api_code : Option Str
  pub server_fault : Bool
  pub deadline_exceeded : Bool

-- The `Err` of an `os.PathError`: `syscall.Errno`, `os.ErrNotExist` or ErrReadOnly.
pub data Cause : Type 0 where
  errno : Errno → Cause
  not_exist : Cause
  read_only : Cause

pub data Error : Type 0 where
  -- `&os.PathError{Op, Path, Err}`
  path_error : String → Str → Cause → Error
  -- the error of an S3 call, as it is
  s3_error : S3Error → Error
  -- `fmt.Errorf("stat %s: %w", path, err)`
  stat_error : Str → S3Error → Error
  -- an error number with no path
  bare_errno : Errno → Error
  -- `io.EOF`, `io.ErrUnexpectedEOF`, `os.ErrClosed`, `io.ErrClosedPipe`
  eof unexpected_eof closed closed_pipe : Error
  -- no Go error: a loop that is still running when its fuel is used up
  diverged : Error

pub data Result (E : Type 0) (A : Type 0) : Type 0 where
  ok : A → Result E A
  err : E → Result E A

-- isNotFound, on an error that is not nil.
abbrev missing_codes : List Str
missing_codes = codes "NoSuchKey" ∷ codes "NotFound" ∷ codes "NoSuchBucket" ∷ codes "404" ∷ []

abbrev pub has_code : List Str → Option Str → Bool
has_code listed none = false
has_code listed (some c) = member c listed

unfoldable pub is_not_found : S3Error → Bool
unfolding member
is_not_found e = e.no_such_key || e.not_found || has_code missing_codes e.api_code

-- isRangeNotSatisfiable.
unfoldable pub is_range_not_satisfiable : S3Error → Bool
unfolding member
is_range_not_satisfiable e = has_code (codes "InvalidRange" ∷ []) e.api_code

-- isRetryable, on an error that is not nil.
abbrev has_server_fault : Option Str → Bool → Bool
has_server_fault none fault = false
has_server_fault (some c) fault = fault

unfoldable pub is_retryable : S3Error → Bool
is_retryable e = has_server_fault e.api_code e.server_fault || e.deadline_exceeded

-- `os.IsNotExist`: it looks into an `os.PathError`, and not into what `fmt.Errorf` wraps.
unfoldable pub is_not_exist : Error → Bool
is_not_exist (path_error op path not_exist) = true
is_not_exist _ = false

infixl 5 ◌>>=◌
abbrev pub ◌>>=◌ : {E A B : Type 0} → Result E A → (A → Result E B) → Result E B
ok a >>= f = f a
err e >>= f = err e
