-- ===== src/Service/Memory.antt =====
-- A service that keeps its objects in a list, in the order of their keys, to run the operations on
-- and to show that the laws of `Service.Lawful` can hold. A page holds at most `limit` keys, and a
-- continuation token is as long as the number of keys that were listed before.
pub mod Laws
pub mod Transfers
pub mod Thorough
pub mod Cuts
pub mod Folders
pub mod Delimited
pub mod Willing
use s32ftp.Prelude.{
  ℕ, zero, suc, ◌+◌, ◌<◌, ◌≡◌, refl, Bool, true, false, ◌&&◌, ◌||◌, not, List, [], ◌∷◌, ◌++◌,
  Option, none, some, All, arith, if◌then◌else◌, length, take, drop, ltb, min,
}
use s32ftp.Text.{Str, codes, str_eq, str_lt, has_prefix, trim_prefix, contains_char, member, split}
use s32ftp.Text.Laws.{str_eq_iff}
use s32ftp.Keys.{slash}
use s32ftp.Keys.Source.{read_source}
use s32ftp.Errors.{S3Error, Result, ok, err}
use s32ftp.Action.Rules.{Good}
use s32ftp.Service.{Service, Head, Entry, ListRequest, Page, Upload, Reply}
use s32ftp.Service.Lawful.{Object, View, hits, HasPrefixes, IsConfined}

pub record Cell : Type 0 where
  pub bucket : Str
  pub key : Str
  pub object : Object

abbrev pub Store : Type 0
Store = List Cell

abbrev pub absent : S3Error
absent = record {
  no_such_key = true;
  not_found = false;
  api_code = some (codes "NoSuchKey");
  server_fault = false;
  deadline_exceeded = false;
}

-- InvalidRange, for a range that starts behind the last byte.
abbrev pub out_of_range : S3Error
out_of_range = record {
  no_such_key = false;
  not_found = false;
  api_code = some (codes "InvalidRange");
  server_fault = false;
  deadline_exceeded = false;
}

unfoldable pub find : Store → Str → Str → Option Object
unfolding str_eq
find [] b k = none
find (c ∷ w) b k = if hits c.bucket c.key b k then some c.object else find w b k

unfoldable pub without : Str → Str → Store → Store
unfolding str_eq
without b k [] = []
without b k (c ∷ w) = let rest = without b k w in if hits c.bucket c.key b k then rest else c ∷ rest

unfoldable pub place : Cell → Store → Store
unfolding str_lt
place c [] = c ∷ []
place c (d ∷ w) = let rest = place c w in if str_lt d.key c.key then d ∷ rest else c ∷ d ∷ w

unfoldable pub without_all : Str → List Str → Store → Store
unfolding without
without_all b [] w = w
without_all b (k ∷ keys) w = without_all b keys (without b k w)

-- The objects under a prefix, in order.
unfoldable pub matching : Str → Str → Store → List Entry
unfolding has_prefix str_eq
matching b p [] = []
matching b p (c ∷ w) =
    let rest = matching b p w in
    if str_eq c.bucket b && has_prefix p c.key
    then record {
      key = c.key;
      size = some (length c.object.body);
      last_modified = some c.object.modified;
    }
      ∷ rest
    else rest

abbrev pub limit_of : ℕ → Option ℕ → ℕ
limit_of limit none = limit
limit_of limit (some n) = min n limit

abbrev pub start_of : Option Str → ℕ
start_of none = 0
start_of (some t) = length t

unfoldable pub zeros : ℕ → Str
zeros zero = []
zeros (suc n) = 0 ∷ zeros n

-- The prefix up to the first slash behind `p`, if a key has one there.
unfoldable pub folded : Str → List Str → Option Str
folded p [] = none
folded p (s ∷ []) = none
folded p (s ∷ t ∷ rest) = some (p ++ s ++ (slash ∷ []))

abbrev pub add_prefix : Option Str → List Str → List Str
add_prefix none ps = ps
add_prefix (some p) ps = if member p ps then ps else p ∷ ps

abbrev pub keep_entry : Option Str → Entry → List Entry → List Entry
keep_entry none o rest = o ∷ rest
keep_entry (some p) o rest = rest

unfoldable pub fold_entries : Str → List Entry → List Entry
unfolding folded trim_prefix split
fold_entries p [] = []
fold_entries p (o ∷ rest) =
    keep_entry (folded p (split slash (trim_prefix p o.key))) o (fold_entries p rest)

unfoldable pub fold_prefixes : Str → List Entry → List Str
unfolding folded trim_prefix split member
fold_prefixes p [] = []
fold_prefixes p (o ∷ rest) =
    add_prefix (folded p (split slash (trim_prefix p o.key))) (fold_prefixes p rest)

abbrev pub contents_of : Option Str → Str → List Entry → List Entry
contents_of none p entries = entries
contents_of (some d) p entries = fold_entries p entries

abbrev pub prefixes_of : Option Str → Str → List Entry → List Str
prefixes_of none p entries = []
prefixes_of (some d) p entries = fold_prefixes p entries

unfoldable pub page_of : ℕ → Str → ListRequest → Store → Page
unfolding matching fold_entries fold_prefixes zeros
page_of limit b r w =
    let n = limit_of limit r.max_keys in
    let found = drop (start_of r.token) (matching b r.prefix w) in
    record {
      contents = contents_of r.delimiter r.prefix (take n found);
      common_prefixes = prefixes_of r.delimiter r.prefix (take n found);
      is_truncated = ltb n (length found);
      next_token = some (zeros (start_of r.token + n));
    }

abbrev pub head_reply : Option Object → Reply Head
head_reply none = err absent
head_reply (some o) =
    ok (record { content_length = some (length o.body); last_modified = some o.modified })

abbrev pub get_reply : Option ℕ → Option Object → Reply Str
get_reply r none = err absent
get_reply none (some o) = ok o.body
get_reply (some n) (some o) = if ltb n (length o.body) then ok (drop n o.body) else err out_of_range

unfoldable pub put : Str → Str → Object → Store → Store
unfolding place without
put b k o w = place (record { bucket = b; key = k; object = o }) (without b k w)

-- The object that a CopySource header names.
abbrev find_at : Str × Str → Store → Option Object
find_at (bucket, key) w = find w bucket key

unfoldable pub find_source : Str → Store → Option Object
unfolding read_source find
find_source source w = find_at (read_source source) w

abbrev pub copy_to : Str → Str → Option Object → Store → Reply (Unit {0}) × Store
copy_to b k none w = (err absent, w)
copy_to b k (some o) w = (ok tt, put b k o w)

abbrev pub memory : ℕ → Service
memory limit = record {
  World = Store;
  head_object = λ b k w. (head_reply (find w b k), w);
  get_object = λ b k r w. (get_reply r (find w b k), w);
  list_objects = λ b r w. (ok (page_of limit b r w), w);
  put_object = λ b k u w. (ok tt, put b k (record { body = u.body; modified = 0 }) w);
  copy_object = λ b k source w. copy_to b k (find_source source w) w;
  delete_object = λ b k w. (ok tt, without b k w);
  delete_objects = λ b keys w. (ok [], without_all b keys w);
  head_bucket = λ b w. (ok tt, w);
  create_bucket = λ b w. (ok tt, w);
}
