-- ===== src/Base/Results.antt =====
-- How a call of kernel code can end.
use mathlib.Core.Bool.{Bool, true, false}
use mathlib.Core.Path.{◌≡◌, refl, ap}

-- `panic` is a failed `REQUIRE` or a `PANIC`; `wild` is an access outside the object that the code
-- addresses, which C++ leaves undefined; `stuck` is a loop that has used up its fuel.
pub data Outcome {ℓ} (A : Type ℓ) : Type ℓ where
  done : A → Outcome A
  panic wild stuck : Outcome A

infixl 5 ◌>>=◌ ◌>>◌
abbrev pub ◌>>=◌ {ℓ κ} : {A : Type ℓ} {B : Type κ} → Outcome A → (A → Outcome B) → Outcome B
done a >>= f = f a
panic >>= f = panic
wild >>= f = wild
stuck >>= f = stuck

abbrev pub ◌>>◌ {ℓ} : {B : Type ℓ} → Outcome (Unit {0}) → Outcome B → Outcome B
m >> k = m >>= λ _. k

-- `REQUIRE(test, …)`
abbrev pub require : Bool → Outcome (Unit {0})
require true = done tt
require false = panic

-- The access is inside the object.
abbrev pub in_bounds : Bool → Outcome (Unit {0})
in_bounds true = done tt
in_bounds false = wild

-- Inversion of a call that is done.
pub >>=-eq-done {ℓ κ} :
    {A : Type ℓ} {B : Type κ} (m : Outcome A) (f : A → Outcome B) {b : B}
    → (m >>= f) ≡ done b
    → (a : A) × (m ≡ done a) × (f a ≡ done b)
>>=-eq-done (done a) f h = (a, refl, h)
>>=-eq-done panic f h = cc
>>=-eq-done wild f h = cc
>>=-eq-done stuck f h = cc

pub done-injective {ℓ} : {A : Type ℓ} {a b : A} → done a ≡ done b → a ≡ b
done-injective {A} {a} e = ap (λ m. elim m [ done x ↦ x | _ ↦ a ]) e

-- A test that has passed.
pub require-eq-done {ℓ} :
    {B : Type ℓ} (test : Bool) (k : Outcome B) {b : B}
    → (require test >> k) ≡ done b
    → (test ≡ true) × (k ≡ done b)
require-eq-done true k h = (refl, h)
require-eq-done false k h = cc

pub in_bounds-eq-done {ℓ} :
    {B : Type ℓ} (test : Bool) (k : Outcome B) {b : B}
    → (in_bounds test >> k) ≡ done b
    → (test ≡ true) × (k ≡ done b)
in_bounds-eq-done true k h = (refl, h)
in_bounds-eq-done false k h = cc
