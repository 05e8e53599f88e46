-- ===== src/Action.antt =====
-- Calls that read and change the outside world: each takes the world and returns a result with the
-- world that it leaves.
pub mod Rules
use s32ftp.Prelude.{Bool, true, false}
use s32ftp.Errors.{Error, S3Error, s3_error, Result, ok, err}

abbrev pub Act : Type 0 → Type 0 → Type 0
Act W A = W → Result Error A × W

abbrev pub from_reply : {A : Type 0} → Result S3Error A → Result Error A
from_reply (ok a) = ok a
from_reply (err e) = err (s3_error e)

module _ {W : Type 0} where
  unfoldable pub ret : {A : Type 0} → A → Act W A
  ret a w = (ok a, w)

  unfoldable pub throw : {A : Type 0} → Error → Act W A
  throw e w = (err e, w)

  infixl 5 ◌>>=◌ ◌>>◌
  unfoldable pub ◌>>=◌ : {A B : Type 0} → Act W A → (A → Act W B) → Act W B
  ◌>>=◌ m f w = elim (m w).0 [ ok a ↦ f a (m w).1 | err e ↦ (err e, (m w).1) ]

  unfoldable pub ◌>>◌ : {B : Type 0} → Act W (Unit {0}) → Act W B → Act W B
  unfolding ◌>>=◌
  m >> k = m >>= λ _. k

  -- The outcome of a call as a value, for a caller that looks at the error.
  unfoldable pub observe : {A : Type 0} → Act W A → Act W (Result Error A)
  observe m w = (ok (m w).0, (m w).1)

  -- A call of the service whose error the caller looks at, and one whose error it returns.
  unfoldable pub attempt : {A : Type 0} → (W → Result S3Error A × W) → Act W (Result S3Error A)
  attempt c w = (ok (c w).0, (c w).1)

  unfoldable pub call : {A : Type 0} → (W → Result S3Error A × W) → Act W A
  call c w = (from_reply (c w).0, (c w).1)

  unfoldable pub guard : Bool → Error → Act W (Unit {0})
  unfolding ret throw
  guard true e = ret tt
  guard false e = throw e
