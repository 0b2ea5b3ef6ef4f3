-- ===== src/Common/Results.antt =====
-- Results of code that throws: the value, or the error that was thrown.
use mathlib.Core.Path.{◌≡◌, refl}
use mathlib.Core.Logic.{◌⊎◌, inl, inr}
use mathlib.Core.Bool.{Bool, true, false}

pub data Result {ℓ κ} (Thrown : Type ℓ) (Value : Type κ) : Type (ℓ ⊔ κ) where
  err : Thrown → Result Thrown Value
  ok : Value → Result Thrown Value

-- `if (b) throw e`
abbrev pub throw_if {ℓ} : {Thrown : Type ℓ} → Bool → Thrown → Result Thrown (Unit {0})
throw_if false e = ok tt
throw_if true e = err e

module _ {ℓ κ} {Thrown : Type ℓ} {Value : Type κ} where
  pub Result-cases :
      (r : Result Thrown Value) → ((value : Value) × (r ≡ ok value)) ⊎ ((e : Thrown) × (r ≡ err e))
  Result-cases (err e) = inr (e, refl)
  Result-cases (ok value) = inl (value, refl)

-- The next statement runs on the value, or not at all.
infixl 5 ◌>>=◌ ◌>>◌
abbrev pub ◌>>=◌ {ℓ κ ι} :
    {Thrown : Type ℓ} {Value : Type κ} {Next : Type ι}
    → Result Thrown Value
    → (Value → Result Thrown Next)
    → Result Thrown Next
err e >>= next = err e
ok value >>= next = next value

pub >>=-eq-ok {ℓ κ ι} :
    {Thrown : Type ℓ} {Value : Type κ} {Next : Type ι} (r : Result Thrown Value)
    (next : Value → Result Thrown Next) {y : Next}
    → (r >>= next) ≡ ok y
    → (value : Value) × (r ≡ ok value) × (next value ≡ ok y)
>>=-eq-ok (err e) next h = cc
>>=-eq-ok (ok value) next h = (value, refl, h)

abbrev pub ◌>>◌ {ℓ κ} :
    {Thrown : Type ℓ} {Next : Type κ}
    → Result Thrown (Unit {0})
    → Result Thrown Next
    → Result Thrown Next
first >> next = first >>= λ done. next
