-- ===== src/Prelude/Outcomes.antt =====
-- The outcome of a call that may fail or panic, with `do` blocks over it.
use Prim.Native.String.{String}

-- An error that the code compares by identity (util/common/errors.go), and one that is only reported.
pub data Error : Type 0 where
  err_no_manager : Error
  message : String → Error

pub data Outcome {ℓ} (A : Type ℓ) : Type ℓ where
  ok : A → Outcome A
  error : Error → Outcome A
  panic : Outcome A

infixl 5 ◌>>=◌ ◌>>◌
abbrev pub ◌>>=◌ {ℓ κ} : {A : Type ℓ} {B : Type κ} → Outcome A → (A → Outcome B) → Outcome B
ok a >>= f = f a
error e >>= f = error e
panic >>= f = panic

abbrev pub ◌>>◌ {ℓ} : {B : Type ℓ} → Outcome (Unit {0}) → Outcome B → Outcome B
m >> k = m >>= λ _. k
