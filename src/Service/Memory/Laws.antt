-- ===== src/Service/Memory/Laws.antt =====
-- The service that keeps its objects in a list obeys the laws.
use s32ftp.Prelude.{
  All-take, All-drop, ℕ, ◌≡◌, refl, false, ◌&&◌, List, [], ◌∷◌, Option, none, some, arith,
}
use s32ftp.Text.{Str, str_eq, split, trim_prefix, member}
use s32ftp.Text.Laws.{str_eq_iff, str_eq_refl}
use s32ftp.Keys.{slash}
use s32ftp.Service.{Entry, ListRequest}
use s32ftp.Service.Lawful.{Object, hits, HasPrefixes, IsConfined}
use s32ftp.Service.Memory.{
  Cell, Store, find, find_source, without, place, without_all, matching, fold_entries, folded,
  keep_entry, contents_of, page_of, put, copy_to, memory,
}

pub find-without :
    (w : Store) (b k b' k' : Str)
    → hits b k b' k' ≡ false
    → find (without b k w) b' k' ≡ find w b' k'
unfolding find without
find-without [] b k b' k' h = refl
find-without (c ∷ w) b k b' k' h =
    ground (arith, find-without w b k b' k' h, str_eq_iff c.bucket b, str_eq_iff c.key k)

pub find-without_self : (w : Store) (b k : Str) → find (without b k w) b k ≡ none
unfolding find without
find-without_self [] b k = refl
find-without_self (c ∷ w) b k = ground (arith, find-without_self w b k)

find-place :
    (w : Store) (c : Cell) (b' k' : Str)
    → hits c.bucket c.key b' k' ≡ false
    → find (place c w) b' k' ≡ find w b' k'
unfolding find place
find-place [] c b' k' h = ground arith
find-place (d ∷ w) c b' k' h = ground (arith, find-place w c b' k' h)

pub find-place_self :
    (w : Store) (c : Cell)
    → find w c.bucket c.key ≡ none
    → find (place c w) c.bucket c.key ≡ some c.object
unfolding find place
find-place_self [] c h = ground (arith, str_eq_refl c.bucket, str_eq_refl c.key)
find-place_self (d ∷ w) c h =
    ground (arith, str_eq_refl c.bucket, str_eq_refl c.key, find-place_self w c)

find-without_all :
    (keys : List Str) (w : Store) (b b' k' : Str)
    → (str_eq b b' && member k' keys) ≡ false
    → find (without_all b keys w) b' k' ≡ find w b' k'
unfolding without_all member
find-without_all [] w b b' k' h = refl
find-without_all (k ∷ keys) w b b' k' h = ground (
  arith,
  find-without_all keys (without b k w) b b' k',
  find-without w b k b' k',
  str_eq_iff k k',
  str_eq_iff k' k,
)

pub find-put :
    (w : Store) (b k : Str) (o : Object) (b' k' : Str)
    → hits b k b' k' ≡ false
    → find (put b k o w) b' k' ≡ find w b' k'
unfolding put
find-put w b k o b' k' h = ground (
  arith,
  find-place (without b k w) (record { bucket = b; key = k; object = o }) b' k' h,
  find-without w b k b' k' h,
)

pub matching-HasPrefixes : (b p : Str) (w : Store) → HasPrefixes p (matching b p w)
unfolding matching
matching-HasPrefixes b p [] = tt
matching-HasPrefixes b p (c ∷ w) = ground (arith, matching-HasPrefixes b p w)

keep_entry-HasPrefixes :
    (p : Str) (d : Option Str) (e : Entry) (es : List Entry)
    → HasPrefixes p (e ∷ es)
    → HasPrefixes p es
    → HasPrefixes p (keep_entry d e es)
keep_entry-HasPrefixes p none e es h k = h
keep_entry-HasPrefixes p (some d) e es h k = k

fold_entries-HasPrefixes :
    (p : Str) (es : List Entry) → HasPrefixes p es → HasPrefixes p (fold_entries p es)
unfolding fold_entries
fold_entries-HasPrefixes p [] h = tt
fold_entries-HasPrefixes p (e ∷ es) h =
    let ih = fold_entries-HasPrefixes p es h.1 in
    keep_entry-HasPrefixes p (folded p (split slash (trim_prefix p e.key))) e (fold_entries p es)
      (h.0, ih) ih

contents_of-HasPrefixes :
    (d : Option Str) (p : Str) (es : List Entry)
    → HasPrefixes p es
    → HasPrefixes p (contents_of d p es)
contents_of-HasPrefixes none p es h = h
contents_of-HasPrefixes (some d) p es h = fold_entries-HasPrefixes p es h

copy_frame :
    (b k : Str) (o : Option Object) (w : Store) (b' k' : Str)
    → hits b k b' k' ≡ false
    → find (copy_to b k o w).1 b' k' ≡ find w b' k'
copy_frame b k none w b' k' h = refl
copy_frame b k (some o) w b' k' h = find-put w b k o b' k' h

page_of-HasPrefixes :
    (limit : ℕ) (b : Str) (r : ListRequest) (w : Store)
    → HasPrefixes r.prefix (page_of limit b r w).contents
unfolding page_of
page_of-HasPrefixes limit b r w =
    contents_of-HasPrefixes r.delimiter r.prefix _
      (All-take _ _ _ (All-drop _ _ _ (matching-HasPrefixes b r.prefix w)))

pub memory-IsConfined : (limit : ℕ) → IsConfined (memory limit) find
memory-IsConfined limit = record {
  head_frame = λ b k w b' k'. refl;
  get_frame = λ b k r w b' k'. refl;
  list_frame = λ b r w b' k'. refl;
  put_frame = λ b k u w b' k' h. find-put w b k _ b' k' h;
  copy_frame = λ b k source w b' k' h. copy_frame b k (find_source source w) w b' k' h;
  delete_frame = λ b k w b' k' h. find-without w b k b' k' h;
  delete_many_frame = λ b keys w b' k' h. find-without_all keys w b b' k' h;
  list_prefix = λ b r w. page_of-HasPrefixes limit b r w;
}
