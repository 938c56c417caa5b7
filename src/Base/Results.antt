-- ===== src/Base/Results.antt =====
-- How a C function ends: with a value, by its own error exit (NULL, -1 or die()), or in undefined
-- behaviour, such as a write past the end of an object.
use mathlib.Core.Path.{◌≡◌, refl}
use mathlib.Core.Bool.{Bool, true, false}
use Prim.Native.Nat.{ℕ, ◌≤◌}
use native.Mathlib.Omega.{arith}
use selfdb.Base.Tests.{leb}

pub data Outcome {ℓ} (A : Type ℓ) : Type ℓ where
  ok : A → Outcome A
  fail : Outcome A
  fault : Outcome A

-- The code's own check: leave by the error exit unless the test passes.
abbrev pub require : Bool → Outcome (Unit {0})
require true = ok tt
require false = fail

-- What C leaves undefined unless the test passes.
abbrev pub defined : Bool → Outcome (Unit {0})
defined true = ok tt
defined false = fault

infixl 5 ◌>>=◌
abbrev pub ◌>>=◌ {κ ℓ} : {A : Type κ} {B : Type ℓ} → Outcome A → (A → Outcome B) → Outcome B
fault >>= k = fault
fail >>= k = fail
ok a >>= k = k a

-- A step that succeeds hands its value to the rest.
pub >>=-step {ℓ κ} :
    {A : Type ℓ} {B : Type κ} {m : Outcome A} (f : A → Outcome B) {a : A} {r : Outcome B}
    → m ≡ ok a
    → f a ≡ r
    → (m >>= f) ≡ r
>>=-step f e h = rw e h

infixl 5 ◌>>◌
abbrev pub ◌>>◌ {ℓ} : {A : Type ℓ} → Outcome (Unit {0}) → Outcome A → Outcome A
step >> rest = step >>= λ _. rest

-- Inversion of a successful bind.
pub >>=-eq-ok {κ ℓ} :
    {A : Type κ} {B : Type ℓ} {b : B} (m : Outcome A) (k : A → Outcome B)
    → (m >>= k) ≡ ok b
    → (a : A) × (m ≡ ok a) × (k a ≡ ok b)
>>=-eq-ok fault k h = cc
>>=-eq-ok fail k h = cc
>>=-eq-ok (ok a) k h = (a, refl, h)

pub defined-leb : {m n : ℕ} → m ≤ n → defined (leb m n) ≡ ok tt
defined-leb h = ground arith
