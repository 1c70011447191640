-- ===== src/Prelude/Partial.antt =====
-- Computations that a failed `assert` ends: `none` is the failure.
use mathlib.Core.Bool.{Bool, true, false}
use mathlib.Core.Option.{Option, none, some}
use mathlib.Core.Path.{◌≡◌}
use tiny_backend.Prelude.Tests.{if◌then◌else◌}

infixl 5 ◌>>=◌ ◌>>◌
abbrev pub ◌>>=◌ {ℓ κ} : {A : Type ℓ} {B : Type κ} → Option A → (A → Option B) → Option B
none >>= f = none
some a >>= f = f a

abbrev pub ◌>>◌ {ℓ} : {B : Type ℓ} → Option (Unit {0}) → Option B → Option B
m >> k = m >>= λ _. k

abbrev pub assert : Bool → Option (Unit {0})
assert b = if b then some tt else none

-- A property of the result, if there is one.
abbrev pub Holds {ℓ} : {A : Type ℓ} → (A → Type 0) → Option A → Type 0
Holds P none = Unit {0}
Holds P (some a) = P a

pub record Safely {ℓ} {A : Type ℓ} (P : A → Type 0) (m : Option A) : Type 0 where
  pub holds : Holds P m

-- The computation ends without a failure, in a result of the property.
pub record Surely {ℓ} {A : Type ℓ} (P : A → Type 0) (m : Option A) : Type ℓ where
  pub result : A
  pub returns : m ≡ some result
  pub holds : P result

module _ {ℓ} {A : Type ℓ} {P : A → Type 0} where
  pub Safely-some : {a : A} → P a → Safely P (some a)
  Safely-some h = record { holds = h }

  pub Safely-assert : (b : Bool) {m : Option A} → Safely P m → Safely P (assert b >> m)
  Safely-assert true h = record { holds = h.holds }
  Safely-assert false h = record { holds = tt }

  pub Safely-if :
      (b : Bool) {m n : Option A} → Safely P m → Safely P n → Safely P (if b then m else n)
  Safely-if true h h' = h
  Safely-if false h h' = h'

module _ {ℓ κ} {A : Type ℓ} {B : Type κ} {Q : B → Type 0} where
  pub Safely-bind :
      (P : A → Type 0) {m : Option A} {f : A → Option B}
      → Safely P m
      → ((a : A) → P a → Safely Q (f a))
      → Safely Q (m >>= f)
  Safely-bind P {m = none} h g = record { holds = tt }
  Safely-bind P {m = some a} h g = record { holds = (g a h.holds).holds }

  pub Safely-each :
      (m : Option A) {f : A → Option B} → ((a : A) → Safely Q (f a)) → Safely Q (m >>= f)
  Safely-each none g = record { holds = tt }
  Safely-each (some a) g = record { holds = (g a).holds }

module _ {ℓ} {A : Type ℓ} {P Q : A → Type 0} where
  pub Safely-map : ((a : A) → P a → Q a) → {m : Option A} → Safely P m → Safely Q m
  Safely-map f {m = none} h = record { holds = tt }
  Safely-map f {m = some a} h = record { holds = f a h.holds }
