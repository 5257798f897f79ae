-- ===== src/Common/Abort.antt =====
-- What a C function does beside returning a value: it stops the process, or it touches memory that is
-- not its own.
use mathlib.Core.Option.{Option, none, some}
use mathlib.Core.Bool.{Bool, true, false}

pub data Outcome {ℓ} (A : Type ℓ) : Type ℓ where
  ok : A → Outcome A
  -- `err` and `errx`, and an `exit`
  die : Outcome A
  -- an access out of bounds or through NULL, which C leaves undefined
  fault : Outcome A

infixl 5 ◌>>=◌ ◌>>◌
abbrev pub ◌>>=◌ {ℓ κ} : {A : Type ℓ} {B : Type κ} → Outcome A → (A → Outcome B) → Outcome B
ok a >>= f = f a
die >>= f = die
fault >>= f = fault

abbrev pub ◌>>◌ {ℓ} : {B : Type ℓ} → Outcome (Unit {0}) → Outcome B → Outcome B
m >> k = m >>= λ _. k

-- `if (!test) errx(1, …);`
abbrev pub check : Bool → Outcome (Unit {0})
check true = ok tt
check false = die

-- A read that is a fault where there is nothing to read.
abbrev pub must {ℓ} : {A : Type ℓ} → Option A → Outcome A
must none = fault
must (some a) = ok a
