-- ===== src/Backend/Buckets.antt =====
-- What EnsureBucket of internal/s3fs/backend.go does on each answer of the service.
use s32ftp.Prelude.{◌≡◌, refl, sym, ap, ◌∙◌, Bool, true, false, not, if◌then◌else◌}
use s32ftp.Text.{Str}
use s32ftp.Errors.{ok, err, is_not_found}
use s32ftp.Service.{Service, Reply}
use s32ftp.Backend.{head_bucket_failed, headed, created, ensure_bucket}

-- What S3 documents of the two calls, for the buckets that a world has: one that HEAD finds is there,
-- and so is one that was created.
pub record KeepsBuckets (S : Service) (has : S.World → Str → Bool) : Type 0 where
  pub head_ok :
      (b : Str) (w : S.World) → (S.head_bucket b w).0 ≡ ok tt → has (S.head_bucket b w).1 b ≡ true
  pub create_ok :
      (b : Str) (w : S.World)
      → (S.create_bucket b w).0 ≡ ok tt
      → has (S.create_bucket b w).1 b ≡ true

-- What EnsureBucket leaves, by the answer to HEAD: it creates the bucket only when that says that
-- there is none.
abbrev pub Ensured : (S : Service) → Str → S.World → Reply (Unit {0}) × S.World → Type 0
Ensured S b w (ok x, v) = ensure_bucket S b w ≡ (ok tt, v)
Ensured S b w (err e, v) =
    (is_not_found e ≡ false → ensure_bucket S b w ≡ (err (head_bucket_failed b e), v))
    × (is_not_found e ≡ true → (ensure_bucket S b w).1 ≡ (S.create_bucket b v).1)

module _ (S : Service) (has : S.World → Str → Bool) (K : KeepsBuckets S has) where
  created_there :
      (b : Str) (w : S.World) (r : Reply (Unit {0}) × S.World)
      → S.create_bucket b w ≡ r
      → (created S b r).0 ≡ ok tt
      → has (created S b r).1 b ≡ true
  created_there b w (ok x, v) e h =
      ap (λ (p : Reply (Unit {0}) × S.World). has p.1 b) (sym e) ∙ K.create_ok b w (ap (λ p. p.0) e)
  created_there b w (err x, v) e h = absurd (cc)

  there :
      (b : Str) (w : S.World) (r : Reply (Unit {0}) × S.World)
      → S.head_bucket b w ≡ r
      → (headed S b r).0 ≡ ok tt
      → has (headed S b r).1 b ≡ true
  there b w (ok x, v) e h =
      ap (λ (p : Reply (Unit {0}) × S.World). has p.1 b) (sym e) ∙ K.head_ok b w (ap (λ p. p.0) e)
  there b w (err x, v) e h = pick (is_not_found x) h
    where
      pick :
          (c : Bool)
          → (if not c
              then (err (head_bucket_failed b x), v)
              else created S b (S.create_bucket b v)).0
            ≡ ok tt
          → has
              (if not c
                then (err (head_bucket_failed b x), v)
                else created S b (S.create_bucket b v)).1
              b
            ≡ true
      pick true g = created_there b v _ refl g
      pick false g = absurd (cc)

  created_world : (b : Str) (r : Reply (Unit {0}) × S.World) → (created S b r).1 ≡ r.1
  created_world b (ok x, v) = refl
  created_world b (err x, v) = refl

  -- When EnsureBucket succeeds the bucket is there; when HEAD finds it, nothing else is called; when
  -- HEAD fails in another way than by not finding it, its error is returned and nothing is created;
  -- and otherwise the world is the one that the creation leaves.
  pub ensure_bucket_lem :
      (b : Str) (w : S.World)
      → ((ensure_bucket S b w).0 ≡ ok tt → has (ensure_bucket S b w).1 b ≡ true)
        × Ensured S b w (S.head_bucket b w)
  unfolding ensure_bucket
  ensure_bucket_lem b w = (there b w (S.head_bucket b w) refl, by_answer (S.head_bucket b w) refl)
    where
      by_answer : (r : Reply (Unit {0}) × S.World) → S.head_bucket b w ≡ r → Ensured S b w r
      by_answer (ok x, v) e = ap (headed S b) e
      by_answer (err x, v) e = (
        λ c. ap (headed S b) e ∙ (rw c refl),
        λ c.
            ap (λ (p : Reply (Unit {0}) × S.World). (headed S b p).1) e
            ∙ (rw c (created_world b _)),
      )
