-- ===== src/Base/Outcomes.antt =====
-- How a call of the source ends. `CABINET_OK` and `CABINET_ERR` are values of `Code`.
use mathlib.Core.Bool.{Bool, true, false}

pub data Code : Type 0 where
  ok err : Code

-- `exit`: the process calls `exit(1)`; `abort`: an exception that nothing catches;
-- `undefined`: an access outside a string or a vector, of which C++ says nothing.
pub data Outcome {ℓ} (A : Type ℓ) : Type ℓ where
  ret : A → Outcome A
  exit abort undefined : Outcome A

infixl 5 ◌>>=◌ ◌>>◌
abbrev pub ◌>>=◌ {ℓ κ} : {A : Type ℓ} {B : Type κ} → Outcome A → (A → Outcome B) → Outcome B
ret a >>= f = f a
exit >>= f = exit
abort >>= f = abort
undefined >>= f = undefined

abbrev pub ◌>>◌ {ℓ} : {B : Type ℓ} → Outcome (Unit {0}) → Outcome B → Outcome B
m >> k = m >>= λ _. k

-- `if (!test) exit(1);`
abbrev pub or_exit : Bool → Outcome (Unit {0})
or_exit true = ret tt
or_exit false = exit
