-- ===== src/Session/Confined.antt =====
-- What no session can do: change an object outside its root, or any object through a read-only view.
use s32ftp.Prelude.{ℕ, some, ◌&&◌, false, ◌≡◌, refl, ◌∙◌, true, List, [], ◌∷◌}
use s32ftp.Text.{Str, str_eq, has_prefix}
use s32ftp.Errors.{Error, err}
use s32ftp.Action.{throw}
use s32ftp.Action.Rules.{Any, Keeps, any_rules}
use s32ftp.Service.{Service, ListRequest}
use s32ftp.Service.Lawful.{View, IsConfined}
use s32ftp.Fs.{Fs}
use s32ftp.Dir
use s32ftp.Rename
use s32ftp.Isolation.Calls.{Untouched}
use s32ftp.Isolation.Calls
use s32ftp.Isolation.Reads
use s32ftp.Isolation.Changes
use s32ftp.Session.{
  Command, stat_of, list_dir, make_dir, make_dirs, delete, delete_dir, delete_all, move, run,
  run_session, refusal,
}

module _ (S : Service) (at : View S) (L : IsConfined S at) (f : Fs) where
  run-Keeps : (start : S.World) (c : Command) → Keeps (Untouched S at f start) Any (run S f c)
  unfolding run
  run-Keeps start (stat_of p) = search (any_rules, Calls.stat-Keeps S at L f start)
  run-Keeps start (list_dir fuel p) = search (any_rules, Calls.read_dir-Keeps S at L f start)
  run-Keeps start (make_dir p) = Changes.mkdir-Keeps S at L f start p
  run-Keeps start (make_dirs p) = Changes.mkdir_all-Keeps S at L f start p
  run-Keeps start (delete p) = Changes.remove-Keeps S at L f start p
  run-Keeps start (delete_dir p) = Changes.remove_dir-Keeps S at L f start p
  run-Keeps start (delete_all fuel p) = Changes.remove_all-Keeps S at L f start fuel p
  run-Keeps start (move fuel p q) = Changes.rename-Keeps S at L f start fuel p q

  run_session_from :
      (start : S.World) (cs : List Command) (w : S.World)
      → Untouched S at f start w
      → Untouched S at f start (run_session S f cs w)
  unfolding run_session
  run_session_from start [] w i = i
  run_session_from start (c ∷ cs) w i =
      run_session_from start cs (run S f c w).1 ((run-Keeps start c).holds w i).0

  -- Whatever commands a session gives, and whether they succeed or fail, every object that lies in
  -- another bucket or whose key does not begin with the root prefix is the same afterwards.
  pub run_session-Untouched :
      (cs : List Command) (w : S.World) (b k : Str)
      → (str_eq f.bucket b && has_prefix f.root_prefix k) ≡ false
      → at (run_session S f cs w) b k ≡ at w b k
  run_session-Untouched cs w = run_session_from w cs w (λ b k o. refl)

-- A read-only view answers each changing command with its refusal, and the world is exactly as
-- before: no call has been made.
pub run_read_only :
    (S : Service) (f : Fs) (c : Command) (w : S.World) {e : Error}
    → f.read_only ≡ true
    → refusal c ≡ some e
    → run S f c w ≡ (err e, w)
unfolding run throw
run_read_only S f (stat_of p) w r h = cc
run_read_only S f (list_dir fuel p) w r h = cc
run_read_only S f (make_dir p) w r h = unfold Dir.mkdir in rw r (cc)
run_read_only S f (make_dirs p) w r h = unfold Dir.mkdir_all in rw r (cc)
run_read_only S f (delete p) w r h = unfold Dir.remove in rw r (cc)
run_read_only S f (delete_dir p) w r h = unfold Dir.remove_dir in rw r (cc)
run_read_only S f (delete_all fuel p) w r h = unfold Dir.remove_all in rw r (cc)
run_read_only S f (move fuel p q) w r h = unfold Rename.rename in rw r (cc)

module _ (S : Service) (at : View S) (L : IsConfined S at) (f : Fs) (start : S.World) where
  -- No object of any bucket has changed since `start`.
  abbrev Unchanged : S.World → Type 0
  Unchanged w = (b k : Str) → at w b k ≡ at start b k

  head_inv : (b k : Str) (w : S.World) → Unchanged w → Unchanged (S.head_object b k w).1
  head_inv b k w i b' k' = L.head_frame b k w b' k' ∙ i b' k'

  list_inv :
      (b : Str) (r : ListRequest) (w : S.World) → Unchanged w → Unchanged (S.list_objects b r w).1
  list_inv b r w i b' k' = L.list_frame b r w b' k' ∙ i b' k'

  refused :
      (c : Command) (w : S.World) {e : Error}
      → f.read_only ≡ true
      → refusal c ≡ some e
      → Unchanged w
      → Unchanged (run S f c w).1
  refused c w r h i = rw (run_read_only S f c w r h) i

  looks : (p : Str) → Keeps Unchanged Any (run S f (stat_of p))
  looks p = unfold run in search (any_rules, Reads.stat-Keeps S Unchanged head_inv list_inv f)

  lists : (fuel : ℕ) (p : Str) → Keeps Unchanged Any (run S f (list_dir fuel p))
  lists fuel p =
      unfold run in search (any_rules, Reads.read_dir-Keeps S Unchanged head_inv list_inv f)

  run-Unchanged :
      (c : Command) (w : S.World) → f.read_only ≡ true → Unchanged w → Unchanged (run S f c w).1
  run-Unchanged (stat_of p) w r i = ((looks p).holds w i).0
  run-Unchanged (list_dir fuel p) w r i = ((lists fuel p).holds w i).0
  run-Unchanged (make_dir p) w r i = refused (make_dir p) w r refl i
  run-Unchanged (make_dirs p) w r i = refused (make_dirs p) w r refl i
  run-Unchanged (delete p) w r i = refused (delete p) w r refl i
  run-Unchanged (delete_dir p) w r i = refused (delete_dir p) w r refl i
  run-Unchanged (delete_all fuel p) w r i = refused (delete_all fuel p) w r refl i
  run-Unchanged (move fuel p q) w r i = refused (move fuel p q) w r refl i

  run_session-Unchanged :
      (cs : List Command) (w : S.World)
      → f.read_only ≡ true
      → Unchanged w
      → Unchanged (run_session S f cs w)
  unfolding run_session
  run_session-Unchanged [] w r i = i
  run_session-Unchanged (c ∷ cs) w r i =
      run_session-Unchanged cs (run S f c w).1 r (run-Unchanged c w r i)

-- A session on a read-only view changes no object of any bucket, whatever commands it gives.
pub run_session_read_only :
    (S : Service) (at : View S) (L : IsConfined S at) (f : Fs) (cs : List Command) (w : S.World)
    → f.read_only ≡ true
    → (b k : Str) → at (run_session S f cs w) b k ≡ at w b k
run_session_read_only S at L f cs w r = run_session-Unchanged S at L f w cs w r (λ b k. refl)
