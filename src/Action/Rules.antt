-- ===== src/Action/Rules.antt =====
-- A rule for each way to build an action, for the statement that it keeps an invariant of the world,
-- and that a result it returns has the property `Q`.
use s32ftp.Prelude.{ap, ◌≡◌, refl, sym, ◌∙◌, Bool, true, false, if◌then◌else◌}
use s32ftp.Errors.{Error, S3Error, Result, ok, err}
use s32ftp.Action.{Act, ret, throw, ◌>>=◌, ◌>>◌, call, attempt, observe, guard, from_reply}

abbrev pub Good {ℓ} : {E A : Type 0} → (A → Type ℓ) → Result E A → Type ℓ
Good Q (ok a) = Q a
Good Q (err e) = Unit

abbrev pub Any {ℓ} : {A : Type ℓ} → A → Type 0
Any a = Unit

pub Good-Any : {E A : Type 0} (r : Result E A) → Good Any r
Good-Any (ok a) = tt
Good-Any (err e) = tt

-- A result and a world that are known.
pub ok_pair :
    {E A W : Type 0} {a b : A} {u v : W}
    → ◌≡◌ {A = Result E A × W} (ok a, u) (ok b, v)
    → (a ≡ b) × (u ≡ v)
ok_pair h = (cc, cc)

-- A call that succeeds.
pub called :
    {W A : Type 0} (c : W → Result S3Error A × W) (w v : W) (a : A)
    → call c w ≡ (ok a, v)
    → ((c w).0 ≡ ok a) × ((c w).1 ≡ v)
unfolding call
called {W} {A} c w v a h = pick (c w) h
  where
    pick :
        (r : Result S3Error A × W)
        → ◌≡◌ {A = Result Error A × W} (from_reply r.0, r.1) (ok a, v)
        → (r.0 ≡ ok a) × (r.1 ≡ v)
    pick (ok x, u) g = (ap ok (ok_pair g).0, (ok_pair g).1)
    pick (err e, u) g = absurd (cc)

-- A call whose reply is known.
pub call-eq :
    {W A : Type 0} (c : W → Result S3Error A × W) (w : W) {a : A}
    → (c w).0 ≡ ok a
    → call c w ≡ (ok a, (c w).1)
unfolding call
call-eq c w e = ap (λ r. (from_reply r, (c w).1)) e

module _ {W : Type 0} where
  after_bind : {A B : Type 0} → (A → Act W B) → Result Error A × W → Result Error B × W
  after_bind f (ok a, w) = f a w
  after_bind f (err e, w) = (err e, w)

  >>=-eq-after_bind :
      {A B : Type 0} (m : Act W A) (f : A → Act W B) (w : W) → (m >>= f) w ≡ after_bind f (m w)
  unfolding after_bind ◌>>=◌
  >>=-eq-after_bind {A} {B} m f w = step (m w)
    where
      step :
          (r : Result Error A × W)
          → elim r.0 [ ok a ↦ f a r.1 | err e ↦ (err e, r.1) ] ≡ after_bind f r
      step (ok a, w') = refl
      step (err e, w') = refl

  -- A bind whose first part is known to succeed.
  pub >>=-eq :
      {A B : Type 0} (m : Act W A) (k : A → Act W B) {w v : W} {a : A}
      → m w ≡ (ok a, v)
      → (m >>= k) w ≡ k a v
  unfolding after_bind
  >>=-eq m k {w = w} e = >>=-eq-after_bind m k w ∙ ap (after_bind k) e

  -- What holds of the world after a bind, whichever way its first part ends.
  pub >>=-world :
      {A B : Type 0} (P : W → Type 0) (m : Act W A) (f : A → Act W B) (w : W)
      → ((e : Error) (u : W) → m w ≡ (err e, u) → P u)
      → ((a : A) (u : W) → m w ≡ (ok a, u) → P (f a u).1)
      → P ((m >>= f) w).1
  unfolding after_bind
  >>=-world {A} {B} P m f w failed went_on = rw (>>=-eq-after_bind m f w) (split (m w) refl)
    where
      split : (r : Result Error A × W) → m w ≡ r → P (after_bind f r).1
      split (ok a, u) e = went_on a u e
      split (err x, u) e = failed x u e

  pub >>-world :
      {B : Type 0} (P : W → Type 0) (m : Act W (Unit {0})) (k : Act W B) (w : W)
      → ((e : Error) (u : W) → m w ≡ (err e, u) → P u)
      → ((u : W) → m w ≡ (ok tt, u) → P (k u).1)
      → P ((m >> k) w).1
  unfolding ◌>>◌
  >>-world P m k w failed went_on = >>=-world P m (λ _. k) w failed (λ _ u e. went_on u e)

  pub >>-eq :
      {B : Type 0} (m : Act W (Unit {0})) (k : Act W B) {w v : W}
      → m w ≡ (ok tt, v)
      → (m >> k) w ≡ k v
  unfolding ◌>>◌
  >>-eq m k e = >>=-eq m (λ _. k) e

  -- Inversion of a successful bind.
  pub >>=-eq-ok :
      {A B : Type 0} (m : Act W A) (f : A → Act W B) (w : W) {b : B} {v : W}
      → (m >>= f) w ≡ (ok b, v)
      → (a : A) × (u : W) × (m w ≡ (ok a, u)) × (f a u ≡ (ok b, v))
  unfolding after_bind
  >>=-eq-ok {A} {B} m f w {b} {v} h = split (m w) refl (sym (>>=-eq-after_bind m f w) ∙ h)
    where
      split :
          (r : Result Error A × W)
          → m w ≡ r
          → after_bind f r ≡ (ok b, v)
          → (a : A) × (u : W) × (m w ≡ (ok a, u)) × (f a u ≡ (ok b, v))
      split (ok a, u) e g = (a, u, e, g)
      split (err x, u) e g = absurd (cc)

  pub >>-eq-ok :
      {B : Type 0} (m : Act W (Unit {0})) (k : Act W B) (w : W) {b : B} {v : W}
      → (m >> k) w ≡ (ok b, v)
      → (u : W) × (m w ≡ (ok tt, u)) × (k u ≡ (ok b, v))
  unfolding ◌>>◌
  >>-eq-ok m k w h = let (_, u, e, g) = >>=-eq-ok m (λ _. k) w h in (u, e, g)

-- A guard lets pass only what it holds of.
pub guard_then :
    {W B : Type 0} (b : Bool) (e : Error) (m : Act W B) (w v : W) (x : B)
    → (guard b e >> m) w ≡ (ok x, v)
    → (b ≡ true) × (m w ≡ (ok x, v))
unfolding guard ret throw ◌>>◌ ◌>>=◌
guard_then true e m w v x h = (refl, h)
guard_then false e m w v x h = absurd (cc)

pub guard_world :
    {W B : Type 0} (P : W → Type 0) (b : Bool) (e : Error) (m : Act W B) (w : W)
    → P w
    → (b ≡ true → P (m w).1)
    → P ((guard b e >> m) w).1
unfolding guard ret throw ◌>>◌ ◌>>=◌
guard_world P true e m w stopped went_on = went_on refl
guard_world P false e m w stopped went_on = stopped

module _ {W : Type 0} (Inv : W → Type 0) where
  -- From a world with the invariant, `m` leads to one with the invariant, and returns a `Q`.
  pub record Keeps {A : Type 0} (Q : A → Type 0) (m : Act W A) : Type 0 where
    pub holds : (w : W) → Inv w → Inv (m w).1 × Good Q (m w).0

  pub ret-Keeps : {A : Type 0} (Q : A → Type 0) {a : A} → Q a → Keeps Q (ret a)
  unfolding ret
  ret-Keeps Q q = record { holds = λ w i. (i, q) }

  pub ret-Any : {A : Type 0} (a : A) → Keeps Any (ret a)
  unfolding ret
  ret-Any a = record { holds = λ w i. (i, tt) }

  pub throw_any : {A : Type 0} (Q : A → Type 0) (e : Error) → Keeps Q (throw e)
  unfolding throw
  throw_any Q e = record { holds = λ w i. (i, tt) }

  after_bind-Keeps :
      {A B : Type 0} (P : A → Type 0) (Q : B → Type 0) (f : A → Act W B)
      → ((a : A) → P a → Keeps Q (f a))
      → (r : Result Error A × W) → Inv r.1
      → Good P r.0
      → Inv (after_bind f r).1 × Good Q (after_bind f r).0
  unfolding after_bind
  after_bind-Keeps P Q f hf (ok a, w) i p = (hf a p).holds w i
  after_bind-Keeps P Q f hf (err e, w) i p = (i, tt)

  pub >>=-Keeps :
      {A B : Type 0} (P : A → Type 0) (Q : B → Type 0) {m : Act W A} {f : A → Act W B}
      → Keeps P m
      → ((a : A) → P a → Keeps Q (f a))
      → Keeps Q (m >>= f)
  >>=-Keeps P Q {m} {f} hm hf = record {
    holds = λ w i.
        rw (>>=-eq-after_bind m f w)
          (after_bind-Keeps P Q f hf (m w) (hm.holds w i).0 (hm.holds w i).1);
  }

  pub bind-Any :
      {A B : Type 0} {m : Act W A} {f : A → Act W B}
      → Keeps Any m
      → ((a : A) → Keeps Any (f a))
      → Keeps Any (m >>= f)
  bind-Any hm hf = >>=-Keeps Any Any hm (λ a _. hf a)

  pub then-Any :
      {B : Type 0} {m : Act W (Unit {0})} {k : Act W B}
      → Keeps Any m
      → Keeps Any k
      → Keeps Any (m >> k)
  unfolding ◌>>◌
  then-Any hm hk = bind-Any hm (λ _. hk)

  pub guard-Any : (b : Bool) (e : Error) → Keeps Any (guard b e)
  unfolding guard
  guard-Any true e = record { holds = λ w i. (i, tt) }
  guard-Any false e = record { holds = λ w i. (i, tt) }

  pub if_Any :
      {A : Type 0} (b : Bool) {m n : Act W A}
      → Keeps Any m
      → Keeps Any n
      → Keeps Any (if b then m else n)
  if_Any true h k = h
  if_Any false h k = k

  from_reply-Good :
      {A : Type 0} (Q : A → Type 0) (r : Result S3Error A) → Good Q r → Good Q (from_reply r)
  from_reply-Good Q (ok a) h = h
  from_reply-Good Q (err e) h = tt

  pub call-Keeps :
      {A : Type 0} (Q : A → Type 0) (c : W → Result S3Error A × W)
      → ((w : W) → Inv w → Inv (c w).1 × Good Q (c w).0)
      → Keeps Q (call c)
  unfolding call
  call-Keeps Q c h = record { holds = λ w i. ((h w i).0, from_reply-Good Q (c w).0 (h w i).1) }

  pub call-Any :
      {A : Type 0} (c : W → Result S3Error A × W)
      → ((w : W) → Inv w → Inv (c w).1)
      → Keeps Any (call c)
  call-Any c h = call-Keeps Any c (λ w i. (h w i, Good-Any (c w).0))

  pub attempt-Any :
      {A : Type 0} (c : W → Result S3Error A × W)
      → ((w : W) → Inv w → Inv (c w).1)
      → Keeps Any (attempt c)
  unfolding attempt
  attempt-Any c h = record { holds = λ w i. (h w i, tt) }

  pub observe-Any : {A : Type 0} {m : Act W A} → Keeps Any m → Keeps Any (observe m)
  unfolding observe
  observe-Any h = record { holds = λ w i. ((h.holds w i).0, tt) }

pub ruleset any_rules = (ret-Any, throw_any, bind-Any, then-Any, guard-Any, if_Any, observe-Any)
