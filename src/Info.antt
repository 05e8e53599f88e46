-- ===== src/Info.antt =====
-- internal/s3fs/fileinfo.go and the conversions of internal/s3fs/helpers.go.
use s32ftp.Prelude.{ℕ, ◌+◌, Bool, true, false, Option, none, some, [], ◌∷◌}
use s32ftp.Text.{Str}
use s32ftp.Service.{Upload}

-- Times are seconds; 0 is the zero time.
pub record FileInfo : Type 0 where
  pub name : Str
  pub size : ℕ
  pub mode : ℕ
  pub mod_time : ℕ
  pub is_dir : Bool

-- `os.ModeDir`, bit 31.
abbrev pub mode_dir : ℕ
mode_dir = 0x80000000

-- NewDirInfo.
unfoldable pub new_dir_info : Str → FileInfo
new_dir_info name = record {
  name = name;
  size = 0;
  mode = mode_dir + 0o755;
  mod_time = 0;
  is_dir = true;
}

-- NewFileInfo.
unfoldable pub new_file_info : Str → ℕ → ℕ → FileInfo
new_file_info name size mod_time = record {
  name = name;
  size = size;
  mode = 0o644;
  mod_time = mod_time;
  is_dir = false;
}

-- sizeOf and timeOf: `aws.ToInt64` and `aws.ToTime`.
unfoldable pub size_of : Option ℕ → ℕ
size_of none = 0
size_of (some n) = n

unfoldable pub time_of : Option ℕ → ℕ
time_of none = 0
time_of (some t) = t

-- putObjectInput.
unfoldable pub put_object_input : Str → Str → Upload
put_object_input body [] = record { body = body; content_type = none }
put_object_input body (c ∷ content_type) = record {
  body = body;
  content_type = some (c ∷ content_type);
}
