-- ===== src/Prelude/Fallible.antt =====
-- Go calls that return `(value, error)`: one of the two is there.
use mathlib.Core.Path.{◌≡◌, refl}
use mathlib.Core.Logic.{◌⊎◌, inl, inr}
use mathlib.Core.Bool.{Bool, true, false}

pub data Result {ℓ} (Fault Value : Type ℓ) : Type ℓ where
  err : Fault → Result Fault Value
  ok : Value → Result Fault Value

module _ {ℓ} {Fault V W : Type ℓ} where
  infixl 5 ◌>>=◌ ◌>>◌
  abbrev pub ◌>>=◌ : Result Fault V → (V → Result Fault W) → Result Fault W
  ◌>>=◌ (err fault) next = err fault
  ◌>>=◌ (ok value) next = next value

  abbrev pub ◌>>◌ : Result Fault V → Result Fault W → Result Fault W
  ◌>>◌ (err fault) next = err fault
  ◌>>◌ (ok value) next = next

-- `if bad { return fault }`
abbrev pub reject : {Fault : Type 0} → Bool → Fault → Result Fault Unit
reject false fault = ok tt
reject true fault = err fault

-- A chain that succeeded has passed its first check.
module _ {Fault V : Type 0} where
  pub reject-eq-ok :
      (bad : Bool) (fault : Fault) (next : Result Fault V) {v : V}
      → (reject bad fault >> next) ≡ ok v
      → (bad ≡ false) × (next ≡ ok v)
  reject-eq-ok false fault next passed = (refl, passed)
  reject-eq-ok true fault next passed = absurd (cc)

module _ {ℓ} {Fault V : Type ℓ} where
  pub Result-cases :
      (r : Result Fault V) → ((value : V) × (r ≡ ok value)) ⊎ ((fault : Fault) × (r ≡ err fault))
  Result-cases (err fault) = inr (fault, refl)
  Result-cases (ok value) = inl (value, refl)
