-- ===== src/Std/Results.antt =====
-- The results `(value, error)` of Go's functions: one of the two.
use baseplate_go.Common.{ℕ}

pub data Result {ℓ κ} (E : Type ℓ) (A : Type κ) : Type (ℓ ⊔ κ) where
  ok : A → Result E A
  err : E → Result E A

-- An error of the system, by what errors.Is(err, fs.ErrNotExist) says of it.
pub data Fault : Type 0 where
  not_exist : Fault
  failure : ℕ → Fault
