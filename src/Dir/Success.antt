-- ===== src/Dir/Success.antt =====
-- RemoveAll of internal/s3fs/dir.go on a service that does what it is asked.
use s32ftp.Prelude.{
  ℕ, ◌≤◌, ◌≡◌, refl, ap, ◌∙◌, inl, inr, Bool, true, false, not, List, [], ◌∷◌, Option, none, All,
  if◌then◌else◌,
}
use s32ftp.Text.{Str, is_nil, str_eq}
use s32ftp.Keys.{clean_ftp_path, root_path, base}
use s32ftp.Errors.{Error, Result, ok, err, is_not_exist, not_exist, path_error}
use s32ftp.Action.{Act, ret, throw, ◌>>=◌, call, attempt, observe}
use s32ftp.Action.Rules.{call-eq, >>=-eq, >>-eq}
use s32ftp.Info.{FileInfo, new_dir_info}
use s32ftp.Service.{Service, Page}
use s32ftp.Service.Willing.{IsWilling}
use s32ftp.Fs.{Fs, key, key_dir, stat, stat_key, stat_dir, stat_listed, has_entries, list_request}
use s32ftp.Dir.{list_all_keys, delete_keys, remove_key, remove_tree, remove_seen, remove_all}
use s32ftp.Dir.Loops.{IsBatch, Listed, send_batches, delete_keys_lem, list_all_keys_lem}

-- An answer that RemoveAll goes on with.
abbrev Answered : Result Error FileInfo → Type 0
Answered (ok info) = Unit
Answered (err e) = is_not_exist e ≡ true

module _ (S : Service) (W : IsWilling S) (f : Fs) where
  abbrev Succeeds : Act S.World (Unit {0}) → S.World → Type 0
  Succeeds m w = (v : S.World) × (m w ≡ (ok tt, v))

  stat_dir-Answered : (clean : Str) (w : S.World) → Answered (stat_dir S f clean w).0
  unfolding stat_dir ◌>>=◌ attempt
  stat_dir-Answered clean w =
      let (page, e) = W.lists f.bucket (list_request (key_dir f clean) (some_one)) w in
      rw e (listed page (S.list_objects f.bucket (list_request (key_dir f clean) some_one) w).1)
    where
      some_one : Option ℕ
      some_one = Option.some 1

      entries :
          (b : Bool) (u : S.World)
          → Answered
              ((if b
                  then ret (new_dir_info (base clean))
                  else throw (path_error "stat" clean not_exist))
                u).0
      entries true u = unfold ret in tt
      entries false u = unfold throw in unfold is_not_exist in refl

      listed : (page : Page) (u : S.World) → Answered (stat_listed S clean (ok page) u).0
      listed page u = entries (has_entries page) u

  stat_key-Answered : (clean : Str) (w : S.World) → Answered (stat_key S f clean w).0
  unfolding stat_key ◌>>=◌ attempt ret
  stat_key-Answered clean w = elim (W.heads f.bucket (key f clean) w) [
    | inl (head, e) ↦ rw e tt
    | inr (x, e, missing) ↦
        rw (e, missing) (stat_dir-Answered clean (S.head_object f.bucket (key f clean) w).1)
  ]

  stat-Answered : (clean : Str) (w : S.World) → Answered (stat S f clean w).0
  unfolding stat ret
  stat-Answered clean w =
      pick (str_eq (clean_ftp_path clean) root_path) (is_nil (key f (clean_ftp_path clean)))
    where
      pick :
          (r n : Bool)
          → Answered
              ((if r
                  then ret (new_dir_info root_path)
                  else if n
                  then ret (new_dir_info root_path)
                  else stat_key S f (clean_ftp_path clean))
                w).0
      pick true n = tt
      pick false true = tt
      pick false false = stat_key-Answered (clean_ftp_path clean) w

  send_batches-Succeeds :
      (bs : List (List Str)) (w : S.World) → All IsBatch bs → Succeeds (send_batches S f bs) w
  unfolding ret
  send_batches-Succeeds [] w h = (w, refl)
  send_batches-Succeeds (keys ∷ bs) w h =
      let (failed, e) = W.deletes_many f.bucket keys w h.0.0 h.0.1 in
      let (v, rest) = send_batches-Succeeds bs (S.delete_objects f.bucket keys w).1 h.1 in
      (v, >>=-eq (call (S.delete_objects f.bucket keys)) _ (call-eq _ w e) ∙ rest)

  delete_keys-Succeeds : (keys : List Str) (w : S.World) → Succeeds (delete_keys S f keys) w
  delete_keys-Succeeds keys w =
      let (bs, _, sizes, sent) = delete_keys_lem S f keys in
      let (v, e) = send_batches-Succeeds bs w sizes in (v, ap (λ m. m w) sent ∙ e)

  remove_key-Succeeds : (k : Str) (w : S.World) → Succeeds (remove_key S f k) w
  unfolding remove_key
  remove_key-Succeeds k w = (_, call-eq (S.delete_object f.bucket k) w (W.deletes f.bucket k w))

  remove_tree-Succeeds :
      (fuel n : ℕ) (clean : Str) (present : Bool) (keys : List Str) (w u : S.World)
      → Listed S f (key_dir f clean) w none n keys u
      → n ≤ fuel
      → Succeeds (remove_tree S fuel f clean present) w
  unfolding remove_tree
  remove_tree-Succeeds fuel n clean present keys w u l h =
      let (x, deleted) = delete_keys-Succeeds keys u in
      let (v, e) = last x present in
      (
        v,
        >>=-eq (list_all_keys S fuel f (key_dir f clean)) _
              (list_all_keys_lem S f (key_dir f clean) fuel n w u keys l h)
            ∙ >>-eq (delete_keys S f keys) _ deleted
            ∙ e,
      )
    where
      last :
          (x : S.World) (p : Bool)
          → Succeeds (if p then remove_key S f (key_dir f clean) else ret tt) x
      last x true = remove_key-Succeeds (key_dir f clean) x
      last x false = unfold ret in (x, refl)

  seen-Succeeds :
      (fuel n : ℕ) (clean : Str) (keys : List Str) (w u : S.World)
      → Listed S f (key_dir f clean) w none n keys u
      → n ≤ fuel
      → (r : Result Error FileInfo) → Answered r
      → Succeeds (remove_seen S fuel f clean r) w
  seen-Succeeds fuel n clean keys w u l h (ok info) a = pick info.is_dir
    where
      pick :
          (d : Bool)
          → Succeeds
              (if not d then remove_key S f (key f clean) else remove_tree S fuel f clean true)
              w
      pick true = remove_tree-Succeeds fuel n clean true keys w u l h
      pick false = remove_key-Succeeds (key f clean) w
  seen-Succeeds fuel n clean keys w u l h (err e) a =
      rw a (remove_tree-Succeeds fuel n clean false keys w u l h)

guards_pass :
    {W : Type 0} (r root : Bool) (e e' : Error) (m : Act W (Unit {0})) {w v : W}
    → r ≡ false
    → root ≡ false
    → m w ≡ (ok tt, v)
    → (if r then throw e else if root then throw e' else m) w ≡ (ok tt, v)
guards_pass true root e e' m p q h = absurd (cc)
guards_pass false true e e' m p q h = absurd (cc)
guards_pass false false e e' m p q h = h

-- On a service on which every listing ends, and on which no call fails but a HEAD of an object that is
-- not there and a request to delete no key or more than a thousand, RemoveAll of a path other than the root in a view that is not
-- read-only ends and reports success, whenever its fuel is at least some number of pages.
pub remove_all_ends :
    (S : Service) (W : IsWilling S) (f : Fs) (name : Str) (w : S.World)
    → f.read_only ≡ false
    → str_eq (clean_ftp_path name) root_path ≡ false
    → (n : ℕ) × ((fuel : ℕ) → n ≤ fuel → (v : S.World) × (remove_all S fuel f name w ≡ (ok tt, v)))
unfolding remove_all observe
remove_all_ends S W f name w writable root =
    let clean = clean_ftp_path name in
    let u : S.World = (stat S f clean w).1 in
    let (n, keys, x, l) = W.listing_ends f (key_dir f clean) u in
    (
      n,
      λ fuel h.
          let (v, e) =
            seen-Succeeds S W f fuel n clean keys u x l h (stat S f clean w).0
              (stat-Answered S W f clean w) in
          (
            v,
            guards_pass f.read_only (str_eq clean root_path) _ _ _ writable root
                (>>=-eq (observe (stat S f clean)) (remove_seen S fuel f clean) refl ∙ e),
          ),
    )
