-- ===== src/Keys.antt =====
-- The mapping of FTP paths to object keys: internal/s3fs/path.go, with the functions of packages
-- `path` and `net/url` that it calls.
pub mod Segments
pub mod Clean
pub mod Root
pub mod Source
use s32ftp.Prelude.{
  ℕ, ◌+◌, ◌*◌, ◌/◌, ◌%◌, Bool, true, false, not, ◌&&◌, ◌||◌, List, [], ◌∷◌, ◌++◌, reverse, map, ltb,
  leb, ◌==◌, if◌then◌else◌,
}
use s32ftp.Text.{
  Str, codes, str_eq, is_nil, has_prefix, trim_prefix, ends_with, trim_last, trim_space, split,
  join,
}

abbrev pub slash : ℕ
slash = b'/'

abbrev pub root_path : Str
root_path = b'/' ∷ []

abbrev pub dot : Str
dot = b'.' ∷ []

abbrev pub dot_dot : Str
dot_dot = b'.' ∷ b'.' ∷ []

-- `path.Clean` on the elements of a path, innermost first: "..", at the elements kept so far.
unfoldable pub pop : Bool → List Str → List Str
pop true [] = []
pop false [] = dot_dot ∷ []
pop true (top ∷ stack) = stack
pop false (top ∷ stack) = if str_eq top dot_dot then dot_dot ∷ top ∷ stack else stack

unfoldable pub push_element : Bool → Str → List Str → List Str
unfolding pop
push_element rooted s stack =
    if is_nil s || str_eq s dot
    then stack
    else if str_eq s dot_dot
    then pop rooted stack
    else s ∷ stack

unfoldable pub resolve : Bool → List Str → List Str → List Str
unfolding push_element
resolve rooted stack [] = reverse stack
resolve rooted stack (s ∷ rest) = resolve rooted (push_element rooted s stack) rest

abbrev pub rebuild : Bool → Str → Str
rebuild true out = slash ∷ out
rebuild false [] = dot
rebuild false (x ∷ out) = x ∷ out

unfoldable pub clean_path : Str → Str
unfolding resolve has_prefix split join str_eq
clean_path [] = dot
clean_path (x ∷ p) =
    rebuild (x == slash) (join slash (resolve (x == slash) [] (split slash (x ∷ p))))

abbrev pub ensure_slash : Str → Str
ensure_slash t = if has_prefix root_path t then t else slash ∷ t

-- CleanFTPPath.
unfoldable pub clean_ftp_path : Str → Str
unfolding trim_space clean_path has_prefix str_eq
clean_ftp_path p =
    let t = trim_space p in
    if is_nil t
    then root_path
    else let clean = clean_path (ensure_slash t) in if str_eq clean dot then root_path else clean

-- joinRoot.
unfoldable pub join_root : Str → Str → Str
unfolding clean_ftp_path trim_prefix str_eq
join_root root_prefix ftp_path =
    let clean = clean_ftp_path ftp_path in
    if str_eq clean root_path then root_prefix else root_prefix ++ trim_prefix root_path clean

-- dirKey.
unfoldable pub dir_key : Str → Str → Str
unfolding join_root ends_with
dir_key root_prefix ftp_path =
    let k = join_root root_prefix ftp_path in
    if is_nil k || ends_with slash k then k else k ++ (slash ∷ [])

-- relativeName.
unfoldable pub relative_name : Str → Str → Str
unfolding str_eq trim_prefix trim_last
relative_name prefix key =
    if str_eq key prefix then [] else trim_prefix prefix (trim_last slash key)

-- `path.Base`.
abbrev pub last_element : Str → List Str → Str
last_element found [] = found
last_element found (s ∷ rest) = last_element (if is_nil s then found else s) rest

unfoldable pub base : Str → Str
unfolding split
base [] = dot
base (x ∷ p) = last_element root_path (split slash (x ∷ p))

-- The bytes that `url.PathEscape` leaves alone.
unfoldable pub is_unreserved : ℕ → Bool
is_unreserved c =
    (leb b'a' c && leb c b'z')
    || (leb b'A' c && leb c b'Z')
    || (leb b'0' c && leb c b'9')
    || c == b'-'
    || c == b'_'
    || c == b'.'
    || c == b'~'
    || c == b'$'
    || c == b'&'
    || c == b'+'
    || c == b':'
    || c == b'='
    || c == b'@'

abbrev pub hex_digit : ℕ → ℕ
hex_digit n = if ltb n 10 then b'0' + n else 55 + n

unfoldable pub escape_byte : ℕ → Str
unfolding is_unreserved
escape_byte c =
    if is_unreserved c then c ∷ [] else b'%' ∷ hex_digit (c / 16) ∷ hex_digit (c % 16) ∷ []

-- `url.PathEscape`.
unfoldable pub path_escape : Str → Str
unfolding escape_byte
path_escape [] = []
path_escape (c ∷ s) = escape_byte c ++ path_escape s

-- copySource.
unfoldable pub copy_source : Str → Str → Str
unfolding path_escape split join
copy_source bucket key =
    path_escape bucket ++ (slash ∷ join slash (map path_escape (split slash key)))
