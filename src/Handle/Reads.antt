-- ===== src/Handle/Reads.antt =====
-- What reading a directory handle in parts gives.
use s32ftp.Prelude.{
  ℕ, suc, ◌+◌, ◌-◌, ◌^◌, ◌≤◌, ◌<◌, min, ◌≡◌, refl, sym, ap, ◌∙◌, inl, inr, true, List, [], ◌++◌,
  arith, ltb, length, take, drop, take-append-drop, drop-drop, length-take, length-drop, Bool-cases,
}
use s32ftp.Prelude.Int.{pos}
use s32ftp.Errors.{Result, ok, err}
use s32ftp.Info.{FileInfo}
use s32ftp.Handle.{Handle, Stop, read_some, read_entries}

part-append-rest :
    (start end : ℕ) (xs : List FileInfo)
    → start ≤ end
    → take (end - start) (drop start xs) ++ drop end xs ≡ drop start xs
part-append-rest start end xs h =
    let e : start + (end - start) ≡ end = omega arith in
    ap (λ r. take (end - start) (drop start xs) ++ r)
      (sym (drop-drop (end - start) start xs ∙ ap (λ k. drop k xs) e))
    ∙ take-append-drop (end - start) (drop start xs)

-- The entries that a read gives; none at the end.
abbrev pub given : Result Stop (List FileInfo) → List FileInfo
given (ok out) = out
given (err e) = []

read_some_lem :
    (count : ℕ) (h : Handle)
    → h.offset ≤ length h.entries
    → h.offset + count < 2 ^ 63
    → (given (read_some count h).0 ++ drop (read_some count h).1.offset h.entries
        ≡ drop h.offset h.entries)
      × (length (given (read_some count h).0) ≡ min count (length h.entries - h.offset))
      × ((read_some count h).1.entries ≡ h.entries)
      × ((read_some count h).1.offset ≡ min (h.offset + count) (length h.entries))
read_some_lem count h below fits = elim (Bool-cases (ltb h.offset (length h.entries))) [
  | inl e ↦
      let fit : ltb (h.offset + count) (2 ^ 63) ≡ true = ground arith in
      let start_end : h.offset ≤ min (h.offset + count) (length h.entries) = omega arith in
      let a =
        length-take (min (h.offset + count) (length h.entries) - h.offset)
          (drop h.offset h.entries) in
      let b = length-drop h.offset h.entries in
      rw (e, fit) (part-append-rest h.offset _ h.entries start_end, omega arith, refl, refl)
  | inr e ↦ rw e (refl, ground arith, refl, ground arith)
]

-- On a handle whose offset is not past its entries, Readdir of a positive number gives the next
-- entries in their order, that many or all that are left, keeps the entries and moves the offset
-- past what it gave. The sum of offset and number is to fit a 64-bit int.
pub read_entries_lem :
    (n : ℕ) (h : Handle)
    → h.offset ≤ length h.entries
    → h.offset + suc n < 2 ^ 63
    → (given (read_entries (pos (suc n)) h).0
          ++ drop (read_entries (pos (suc n)) h).1.offset h.entries
        ≡ drop h.offset h.entries)
      × (length (given (read_entries (pos (suc n)) h).0)
          ≡ min (suc n) (length h.entries - h.offset))
      × ((read_entries (pos (suc n)) h).1.entries ≡ h.entries)
      × ((read_entries (pos (suc n)) h).1.offset ≡ min (h.offset + suc n) (length h.entries))
unfolding read_entries
read_entries_lem n h = read_some_lem (suc n) h
