-- ===== src/Base/Results.antt =====
-- Outcomes of code that may throw: a value, or the message of the error.
use Prim.Native.String.{String}
use mathlib.Core.Path.{◌≡◌, refl, subst}
use mathlib.Core.Logic.{◌⊎◌, inl, inr}

pub data Result {ℓ} (A : Type ℓ) : Type ℓ where
  ok : A → Result A
  err : String → Result A

-- The property holds of the result if there is one.
abbrev pub OnOk {ℓ κ} : {A : Type ℓ} → (A → Type κ) → Result A → Type κ
OnOk P (ok a) = P a
OnOk P (err e) = Unit

pub of_OnOk {ℓ κ} : {A : Type ℓ} (P : A → Type κ) (r : Result A) {a : A} → OnOk P r → r ≡ ok a → P a
of_OnOk P r h e = subst (OnOk P) e h

pub Result-cases {ℓ} :
    {A : Type ℓ} (r : Result A) → ((a : A) × (r ≡ ok a)) ⊎ ((m : String) × (r ≡ err m))
Result-cases (ok a) = inl (a, refl)
Result-cases (err m) = inr (m, refl)
