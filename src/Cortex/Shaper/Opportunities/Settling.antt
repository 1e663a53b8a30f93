-- ===== src/Cortex/Shaper/Opportunities/Settling.antt =====
-- Shaping the same opportunities twice with cortex/event-shaper.ts shapeOpportunityEvents.
use app_intent_system_orches.Base.{
  String, ◌≡◌, refl, ap, sym, subst, ◌∙◌, ◌⊎◌, inl, inr, Bool, true, false, Option, List, [], ◌∷◌,
  ◌==◌, string_eq, eq_refl, All, All-mono, arith, Bool-cases, ℤ, pos, negsuc, ◌-ℤ◌, abs,
  if◌then◌else◌,
}
use mathlib.Core.List.{append-nil}
use app_intent_system_orches.Js.{
  Value, undefined, null, bool, num, str, arr, obj, Fields, end, field, get, get_field, set_field,
  truthy, strict_eq, to_text,
}
use app_intent_system_orches.Js.Objects.{get-set_field}
use app_intent_system_orches.Cortex.World.{Outside}
use app_intent_system_orches.Cortex.Shaper.Records.{
  previous, next_state, next_state_cases, record_id, Shaping,
}
use app_intent_system_orches.Cortex.Shaper.Opportunities.{
  is_significant, opportunity_snapshot, main_changes, other_changes, stamped, shape_opportunity,
  shape_opportunities, shape_opportunity_events,
}

abs-sub_self : (a : ℤ) → abs (a -ℤ a) ≡ 0
abs-sub_self (pos n) = ground arith
abs-sub_self (negsuc n) = ground arith

-- An amount does not differ from itself.
not_significant : (v : Value) → is_significant v v ≡ false
unfolding is_significant
not_significant undefined = refl
not_significant null = refl
not_significant (bool b) = refl
not_significant (num (pos n)) = ground (arith, abs-sub_self (pos n))
not_significant (num (negsuc n)) = ground (arith, abs-sub_self (negsuc n))
not_significant (str s) = refl
not_significant (arr vs) = refl
not_significant (obj fs) = refl

-- The value is no object and no array, so that `===` compares it with a copy of itself.
abbrev pub is_primitive : Value → Bool
is_primitive (arr vs) = false
is_primitive (obj fs) = false
is_primitive _ = true

strict_eq_refl : (v : Value) → is_primitive v ≡ true → strict_eq v v ≡ true
unfolding strict_eq
strict_eq_refl undefined h = refl
strict_eq_refl null h = refl
strict_eq_refl (bool true) h = refl
strict_eq_refl (bool false) h = refl
strict_eq_refl (num (pos n)) h = ground arith
strict_eq_refl (num (negsuc n)) h = ground arith
strict_eq_refl (str s) h = eq_refl s
strict_eq_refl (arr vs) h = absurd (ground arith)
strict_eq_refl (obj fs) h = absurd (ground arith)

no_other :
    (opp : Fields)
    → is_primitive (get_field "StageName" opp) ≡ true
    → other_changes (opportunity_snapshot opp) opp ≡ []
unfolding other_changes get
no_other opp h =
    rw (strict_eq_refl (get_field "StageName" opp) h, not_significant (get_field "Amount" opp)) refl

no_main : (opp : Fields) → main_changes (opportunity_snapshot opp) opp ≡ []
unfolding main_changes get
no_main opp = elim (Bool-cases (truthy (get_field "IsClosed" opp))) [
  | inl e ↦ rw e refl
  | inr e ↦ rw e refl
]

abbrev pub key : Fields → String
key opp = to_text (record_id opp)

-- What is remembered after the batch, whatever was before.
abbrev remember : List Fields → Fields → Fields
remember [] fs = fs
remember (opp ∷ opps) fs =
    remember opps
      (if truthy (record_id opp) then set_field (key opp) (opportunity_snapshot opp) fs else fs)

-- The batch holds no opportunity with this id.
abbrev pub IsFresh : String → List Fields → Type 0
IsFresh k opps = All (λ o. (key o == k) ≡ false) opps

-- No two records of the batch have the same id.
abbrev pub IsDistinct : List Fields → Type 0
IsDistinct [] = Unit
IsDistinct (opp ∷ opps) = IsFresh (key opp) opps × IsDistinct opps

remember_fresh :
    (k : String) (opps : List Fields) (fs : Fields)
    → IsFresh k opps
    → get_field k (remember opps fs) ≡ get_field k fs
remember_fresh k [] fs h = refl
remember_fresh k (opp ∷ opps) fs h = elim (Bool-cases (truthy (record_id opp))) [
  | inl e ↦ rw e (
      remember_fresh k opps _ h.1
      ∙ get-set_field (key opp) k (opportunity_snapshot opp) fs
      ∙ (rw h.0 refl))
  | inr e ↦ rw e (remember_fresh k opps fs h.1)
]

-- The state knows each opportunity of the batch as it is.
abbrev Knows : Fields → List Fields → Type 0
Knows fs opps =
    All (λ o. (truthy (record_id o) ≡ false) ⊎ (get_field (key o) fs ≡ opportunity_snapshot o)) opps

remember-Knows :
    (opps : List Fields) (fs : Fields) → IsDistinct opps → Knows (remember opps fs) opps
remember-Knows [] fs h = tt
remember-Knows (opp ∷ opps) fs h = elim (Bool-cases (truthy (record_id opp))) [
  | inr e ↦ (inl e, remember-Knows opps _ h.1)
  | inl e ↦ (
    inr (
        rw e (
          remember_fresh (key opp) opps _ h.0
          ∙ get-set_field (key opp) (key opp) (opportunity_snapshot opp) fs
          ∙ (rw (eq_refl (key opp)) refl))),
    remember-Knows opps _ h.1,
  )
]

module _ (outside : Outside) (user_id : String) (prev : Fields) where
  turn_state :
      (opp : Fields) (x : Shaping outside)
      → (shape_opportunity outside user_id prev opp x).new_state ≡ (
          if truthy (record_id opp)
          then set_field (key opp) (opportunity_snapshot opp) x.new_state
          else x.new_state)
  unfolding shape_opportunity
  turn_state opp x = elim (Bool-cases (truthy (record_id opp))) [
    | inl e ↦ rw (e, shape_opportunity) refl
    | inr e ↦ rw (e, shape_opportunity) refl
  ]

  shape-remember :
      (opps : List Fields) (x : Shaping outside)
      → (shape_opportunities outside user_id prev opps x).new_state ≡ remember opps x.new_state
  unfolding shape_opportunities
  shape-remember [] x = refl
  shape-remember (opp ∷ opps) x =
      shape-remember opps (shape_opportunity outside user_id prev opp x)
      ∙ ap (remember opps) (turn_state opp x)

  -- An opportunity that is as it is remembered raises nothing.
  turn_known :
      (opp : Fields) (x : Shaping outside)
      → (truthy (record_id opp) ≡ false) ⊎ (get_field (key opp) prev ≡ opportunity_snapshot opp)
      → is_primitive (get_field "StageName" opp) ≡ true
      → (shape_opportunity outside user_id prev opp x).events ≡ x.events
  unfolding shape_opportunity stamped
  turn_known opp x known p = elim (Bool-cases (truthy (record_id opp))) [
    | inr e ↦ rw (e, shape_opportunity) refl
    | inl e ↦ elim known [
      | inl f ↦ absurd (ground arith)
      | inr f ↦
          rw (e, shape_opportunity)
            (rw (f, no_other opp p, no_main opp) (append-nil _ ∙ append-nil x.events))
    ]
  ]

  shape_known :
      (opps : List Fields) (x : Shaping outside)
      → Knows prev opps
      → All (λ o. is_primitive (get_field "StageName" o) ≡ true) opps
      → (shape_opportunities outside user_id prev opps x).events ≡ x.events
  unfolding shape_opportunities
  shape_known [] x h p = refl
  shape_known (opp ∷ opps) x h p =
      shape_known opps (shape_opportunity outside user_id prev opp x) h.1 p.1
      ∙ turn_known opp x h.0 p.0

next_state_twice :
    (old : Option Fields) (new : Fields) → next_state (next_state old new) new ≡ next_state old new
next_state_twice old end = refl
next_state_twice old (field k v fs) = refl

next_state-Knows :
    (old : Option Fields) (new : Fields) (opps : List Fields)
    → Knows new opps
    → Knows (previous (next_state old new)) opps
next_state-Knows old new opps h =
    All-mono _ _ opps
      (λ o known. elim known [
        | inl e ↦ inl e
        | inr e ↦ inr (rw (next_state_cases old new (key o) (rw e refl)) e)
      ])
      h

-- Shaping a batch with distinct ids, in which no record has an object or an array as its StageName, a
-- second time right after the first raises no event and leaves what is remembered as it is, whatever
-- was remembered before the first time.
pub shape_opportunity_events_settles :
    (outside : Outside) (state : Option Fields) (records : List Fields) (user_id : String)
    (w w' : outside.World)
    → IsDistinct records
    → All (λ o. is_primitive (get_field "StageName" o) ≡ true) records
    → let first = shape_opportunity_events outside state records user_id w in
      let second = shape_opportunity_events outside first.state records user_id w' in
      (second.events ≡ []) × (second.state ≡ first.state)
unfolding shape_opportunity_events
shape_opportunity_events_settles outside state records user_id w w' distinct primitive =
    let first = shape_opportunity_events outside state records user_id w in
    let fresh : outside.World → Shaping outside =
      λ v. record { events = []; new_state = end; world = v } in
    let saved : first.state ≡ next_state state (remember records end) =
      ap (next_state state) (shape-remember outside user_id (previous state) records (fresh w)) in
    (
      shape_known outside user_id (previous first.state) records (fresh w')
          (subst (λ st. Knows (previous st) records) (sym saved)
            (next_state-Knows state (remember records end) records
              (remember-Knows records end distinct)))
          primitive,
      ap (next_state first.state)
            (shape-remember outside user_id (previous first.state) records (fresh w'))
          ∙ ap (λ st. next_state st (remember records end)) saved
          ∙ next_state_twice state (remember records end)
          ∙ sym saved,
    )
