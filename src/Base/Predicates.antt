-- ===== src/Base/Predicates.antt =====
-- Predicates over all elements of a list, by recursion.
use mathlib.Core.Path.{◌≡◌, refl, sym}
use mathlib.Core.Bool.{Bool, true, false}
use mathlib.Core.List.{List, [], ◌∷◌, ◌++◌}
use app_intent_system_orches.Base.Tests.{Bool-cases}
use app_intent_system_orches.Base.Lists.{keep}
use mathlib.Core.Logic.{inl, inr, ◌↔◌}

abbrev pub All {ℓ κ} : {A : Type ℓ} → (A → Type κ) → List A → Type κ
All P [] = Unit
All P (x ∷ xs) = P x × All P xs

module _ {ℓ κ} {A : Type ℓ} (P : A → Type κ) where
  pub All-mono {μ} : (Q : A → Type μ) (xs : List A) → ((x : A) → P x → Q x) → All P xs → All Q xs
  All-mono Q [] f h = tt
  All-mono Q (x ∷ xs) f h = (f x h.0, All-mono Q xs f h.1)

  pub All-append : (xs ys : List A) → All P xs → All P ys → All P (xs ++ ys)
  All-append [] ys before after = after
  All-append (x ∷ xs) ys before after = (before.0, All-append xs ys before.1 after)

  pub All-keep : (p : A → Bool) (xs : List A) → All P xs → All P (keep p xs)
  All-keep p [] h = tt
  All-keep p (x ∷ xs) h = elim (Bool-cases (p x)) [
    | inl e ↦ rw e (h.0, All-keep p xs h.1)
    | inr e ↦ rw e (All-keep p xs h.1)
  ]

  -- A property that the test and `P` give together holds of all that is kept.
  pub All-keep_test {μ} :
      (Q : A → Type μ) (p : A → Bool) (xs : List A)
      → ((x : A) → P x → p x ≡ true → Q x)
      → All P xs
      → All Q (keep p xs)
  All-keep_test Q p [] f h = tt
  All-keep_test Q p (x ∷ xs) f h = elim (Bool-cases (p x)) [
    | inl e ↦ rw e (f x h.0 e, All-keep_test Q p xs f h.1)
    | inr e ↦ rw e (All-keep_test Q p xs f h.1)
  ]

pub keep_congr {ℓ} :
    {A : Type ℓ} (p q : A → Bool) (xs : List A) → All (λ x. p x ≡ q x) xs → keep p xs ≡ keep q xs
keep_congr p q [] h = refl
keep_congr p q (x ∷ xs) h = rw (h.0, keep_congr p q xs h.1)

pub Bool_ext : (a b : Bool) → (a ≡ true) ↔ (b ≡ true) → a ≡ b
Bool_ext true b h = sym (h.0 refl)
Bool_ext false true h = h.1 refl
Bool_ext false false h = refl
