-- ===== src/Base/Outcome.antt =====
-- The outcomes of a call: a value, or a fault. The source checks its preconditions with `assert`.
use mathlib.Core.Path.{◌≡◌}
use mathlib.Core.Bool.{Bool, true, false}

-- `assertion` is a failed `assert`; `endless` is a loop that never leaves; `null_pointer` is a
-- null pointer that is read through.
pub data Fault : Type 0 where
  assertion : Fault
  endless : Fault
  null_pointer : Fault

pub data Result {ℓ} (A : Type ℓ) : Type ℓ where
  ok : A → Result A
  fault : Fault → Result A

pub ok_injective {ℓ} : {A : Type ℓ} {a b : A} → ok a ≡ ok b → a ≡ b
ok_injective h = cc

-- Nothing runs after a fault.
infixl 5 ◌>>=◌ ◌>>◌
abbrev pub ◌>>=◌ {ℓ κ} : {A : Type ℓ} {B : Type κ} → Result A → (A → Result B) → Result B
fault f >>= next = fault f
ok a >>= next = next a

abbrev pub assert : Bool → Result (Unit {0})
assert false = fault assertion
assert true = ok tt

abbrev pub ◌>>◌ {κ} : {B : Type κ} → Result (Unit {0}) → Result B → Result B
checked >> next = checked >>= λ _. next
