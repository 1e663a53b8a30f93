-- ===== src/Plans/Launcher/Missing.antt =====
-- The parameters and the missing names of an action, when a value is given.
use app_intent_system_orches.Base.{
  ◌≡◌, refl, ap, ◌∙◌, inl, inr, String, Bool, true, false, not, ◌&&◌, none, some, List, [], ◌∷◌,
  any, includes, ◌==◌, string_eq, eq_iff, arith, Bool-cases, All, if◌then◌else◌,
}
use app_intent_system_orches.Js.{Value}
use app_intent_system_orches.Plans.Launcher.{Parameter}
use app_intent_system_orches.Plans.Launcher.Parameters.{
  find_parameter, set_parameter, has_value, remove_first, missing_after,
}

abbrev pub IsDistinct : List String → Type 0
IsDistinct [] = Unit
IsDistinct (x ∷ xs) = (includes xs x ≡ false) × IsDistinct xs

-- Whether the parameter that is found by the name is required.
abbrev pub requires : List Parameter → String → Bool
requires [] name = false
requires (p ∷ ps) name = if p.name == name then p.required else requires ps name

pub includes-remove_first :
    (x : String) (ys : List String) (j : String)
    → IsDistinct ys
    → includes (remove_first x ys) j ≡ (includes ys j && not (x == j))
includes-remove_first x [] j h = refl
includes-remove_first x (y ∷ ys) j h = elim (Bool-cases (y == x)) [
  | inl same ↦ rw same (elim (Bool-cases (x == j)) [
    | inl e ↦ ground (
      arith,
      h.0,
      eq_iff y x,
      eq_iff x j,
      eq_iff y j,
      ap (includes ys) ((eq_iff y x).0 same ∙ (eq_iff x j).0 e),
    )
    | inr e ↦ ground (arith, eq_iff y x, eq_iff x j, eq_iff y j)
  ])
  | inr differ ↦
      rw differ
        (ground (arith, includes-remove_first x ys j h.1, eq_iff y x, eq_iff x j, eq_iff y j))
]

pub remove_first-IsDistinct :
    (x : String) (ys : List String) → IsDistinct ys → IsDistinct (remove_first x ys)
remove_first-IsDistinct x [] h = tt
remove_first-IsDistinct x (y ∷ ys) h = elim (Bool-cases (y == x)) [
  | inl same ↦ rw same h.1
  | inr differ ↦
      rw differ
        ((rw (includes-remove_first x ys y h.1, h.0) refl, remove_first-IsDistinct x ys h.1))
]

any_congr {ℓ} :
    {A : Type ℓ} (f g : A → Bool) (xs : List A) → All (λ x. f x ≡ g x) xs → any f xs ≡ any g xs
any_congr f g [] h = refl
any_congr f g (x ∷ xs) h = rw (h.0, any_congr f g xs h.1) refl

-- What is updated is only the current value.
pub any-set_parameter :
    (f : Bool → String → Bool) (name : String) (value : Value) (ps : List Parameter)
    → any (λ p. f p.required p.name) (set_parameter name value ps)
      ≡ any (λ p. f p.required p.name) ps
any-set_parameter f name value [] = refl
any-set_parameter f name value (p ∷ ps) = elim (Bool-cases (p.name == name)) [
  | inl e ↦ rw e refl
  | inr e ↦ rw (e, any-set_parameter f name value ps) refl
]

pub requires-set_parameter :
    (name : String) (value : Value) (ps : List Parameter) (j : String)
    → requires (set_parameter name value ps) j ≡ requires ps j
requires-set_parameter name value [] j = refl
requires-set_parameter name value (p ∷ ps) j =
    ground (arith, requires-set_parameter name value ps j)

pub All-set_parameter :
    (P : Bool → String → Type 0) (name : String) (value : Value) (ps : List Parameter)
    → All (λ p. P p.required p.name) ps
    → All (λ p. P p.required p.name) (set_parameter name value ps)
All-set_parameter P name value [] h = tt
All-set_parameter P name value (p ∷ ps) h = elim (Bool-cases (p.name == name)) [
  | inl e ↦ rw e h
  | inr e ↦ rw e (h.0, All-set_parameter P name value ps h.1)
]

pub find_parameter_name :
    (name : String) (ps : List Parameter) (q : Parameter)
    → find_parameter name ps ≡ some q
    → q.name ≡ name
find_parameter_name name [] q h = absurd (ground arith)
find_parameter_name name (p ∷ ps) q h = elim (Bool-cases (p.name == name)) [
  | inl e ↦ ground (arith, eq_iff p.name name)
  | inr e ↦ find_parameter_name name ps q (rw e at h)
]

pub find_parameter-requires :
    (name : String) (ps : List Parameter) (q : Parameter)
    → find_parameter name ps ≡ some q
    → requires ps name ≡ q.required
find_parameter-requires name [] q h = absurd (ground arith)
find_parameter-requires name (p ∷ ps) q h = ground (arith, find_parameter-requires name ps q)

pub find_parameter-none :
    (name : String) (ps : List Parameter)
    → find_parameter name ps ≡ none
    → All (λ p. (name == p.name) ≡ false) ps
find_parameter-none name [] h = tt
find_parameter-none name (p ∷ ps) h = elim (Bool-cases (p.name == name)) [
  | inl e ↦ absurd (ground arith)
  | inr e ↦ (
    ground (arith, eq_iff p.name name, eq_iff name p.name),
    find_parameter-none name ps (rw e at h),
  )
]

pub includes-missing_after :
    (q : Parameter) (value : Value) (missing : List String) (j : String)
    → has_value value ≡ true
    → IsDistinct missing
    → includes (missing_after q value missing) j
      ≡ (includes missing j && not (q.required && q.name == j))
includes-missing_after q value missing j given once = elim (Bool-cases q.required) [
  | inr e ↦ rw e (ground arith)
  | inl e ↦ elim (Bool-cases (includes missing q.name)) [
    | inl m ↦ rw (e, given, m) (includes-remove_first q.name missing j once)
    | inr m ↦
        rw (e, given, m)
          (elim (Bool-cases (q.name == j)) [
            | inl same ↦ ground (arith, ap (includes missing) ((eq_iff q.name j).0 same))
            | inr differ ↦ ground arith
          ])
  ]
]

pub missing_after-IsDistinct :
    (q : Parameter) (value : Value) (missing : List String)
    → has_value value ≡ true
    → IsDistinct missing
    → IsDistinct (missing_after q value missing)
missing_after-IsDistinct q value missing given once =
    elim (Bool-cases (q.required && includes missing q.name)) [
      | inl e ↦ rw (given, e) (remove_first-IsDistinct q.name missing once)
      | inr e ↦ rw (given, e) (ground arith)
    ]
