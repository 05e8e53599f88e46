-- ===== src/Service/Memory/Transfers.antt =====
-- The service that keeps its objects in a list answers the calls that transfer objects as the laws
-- of `Service.Faithful` say, with an uploader that puts the whole object at once.
use s32ftp.Prelude.{
  ℕ, ◌≡◌, refl, sym, ap, ◌∙◌, inr, Option, none, some, length, Bool-cases, ltb, inl, true, arith,
}
use s32ftp.Text.{Str}
use s32ftp.Errors.{S3Error, ok, err}
use s32ftp.Service.{Head, Reply}
use s32ftp.Service.Lawful.{Object}
use s32ftp.Service.Faithful.{from_start, IsFaithful, IsObedient, Uploader, IsUploader}
use s32ftp.Service.Memory.{Store, find, without, put, head_reply, get_reply, memory}
use s32ftp.Service.Memory.Laws.{find-put, find-without_self, find-place_self}
use s32ftp.Download.Complete.{Answers, Within}

pub find-put_self : (w : Store) (b k : Str) (o : Object) → find (put b k o w) b k ≡ some o
unfolding put
find-put_self w b k o =
    find-place_self (without b k w) (record { bucket = b; key = k; object = o })
      (find-without_self w b k)

abbrev length_told : Reply Head → Option ℕ
length_told (ok head) = head.content_length
length_told (err e) = none

head_found_lem :
    (x : Option Object) {head : Head}
    → head_reply x ≡ ok head
    → (o : Object) × (x ≡ some o) × (head.content_length ≡ some (length o.body))
head_found_lem none h = absurd (cc)
head_found_lem (some o) {head} h = (o, refl, sym (ap length_told h))

head_missing_lem : (x : Option Object) {e : S3Error} → head_reply x ≡ err e → x ≡ none
head_missing_lem none h = refl
head_missing_lem (some o) h = absurd (cc)

get_found_lem :
    (r : Option ℕ) (x : Option Object) {body : Str}
    → get_reply r x ≡ ok body
    → (o : Object) × (x ≡ some o) × (body ≡ from_start r o.body)
get_found_lem none none h = absurd (cc)
get_found_lem (some n) none h = absurd (cc)
get_found_lem none (some o) h = (o, refl, cc)
get_found_lem (some n) (some o) h = elim (Bool-cases (ltb n (length o.body))) [
  | inl e ↦ (o, refl, cc (rw e at h))
  | inr e ↦ absurd (cc (rw e at h))
]

pub memory-IsFaithful : (limit : ℕ) → IsFaithful (memory limit) find
memory-IsFaithful limit = record {
  head_found = λ b k w h. head_found_lem (find w b k) h;
  head_missing = λ b k w h c. head_missing_lem (find w b k) h;
  get_found = λ b k r w h. get_found_lem r (find w b k) h;
}

pub memory-IsObedient : (limit : ℕ) → IsObedient (memory limit) find
memory-IsObedient limit = record {
  put_ok = λ b k u w h. (record { body = u.body; modified = 0 }, find-put_self w b k _, refl);
  delete_ok = λ b k w h. find-without_self w b k;
}

abbrev pub put_at_once : (limit : ℕ) → Uploader (memory limit)
put_at_once limit = record {
  complete = λ b k u w. (ok tt, put b k (record { body = u.body; modified = 0 }) w);
  abandon = λ b k w. w;
}

pub put_at_once-IsUploader : (limit : ℕ) → IsUploader (memory limit) find (put_at_once limit)
put_at_once-IsUploader limit = record {
  complete_ok = λ b k u w h. (record { body = u.body; modified = 0 }, find-put_self w b k _, refl);
  complete_either =
      λ b k u w. inr (record { body = u.body; modified = 0 }, find-put_self w b k _, refl);
  complete_frame = λ b k u w b' k' h. find-put w b k _ b' k' h;
  abandon_frame = λ b k w b' k'. refl;
}

answer : (r : Option ℕ) (o : Object) → Within r o → (body : Str) × (get_reply r (some o) ≡ ok body)
answer none o h = (o.body, refl)
answer (some n) o h =
    let inside : ltb n (length o.body) ≡ true = ground (arith, h) in
    rw inside (from_start (some n) o.body, refl)

pub memory-Answers : (limit : ℕ) (o : Object) → Answers (memory limit) find o
memory-Answers limit o b k r w h inside =
    let (body, same) = answer r o inside in (body, ap (get_reply r) h ∙ same)
