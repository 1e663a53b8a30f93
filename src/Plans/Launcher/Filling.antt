-- ===== src/Plans/Launcher/Filling.antt =====
-- When the client fills in parameters one after the other.
use app_intent_system_orches.Base.{
  ◌≡◌, refl, ap, ◌∙◌, inl, inr, String, Bool, true, false, not, ◌&&◌, ◌||◌, none, some, List, [],
  ◌∷◌, any, includes, ◌==◌, string_eq, eq_iff, arith, Bool-cases, Option-cases, All, All-mono,
}
use app_intent_system_orches.Js.{Value}
use app_intent_system_orches.Plans.Launcher.{Action, Parameter}
use app_intent_system_orches.Plans.Launcher.Parameters.{
  find_parameter, set_parameter, has_value, missing_after, still_missing, status_for, give_value,
  with_value,
}
use app_intent_system_orches.Plans.Launcher.Missing.{
  IsDistinct, requires, any-set_parameter, requires-set_parameter, All-set_parameter,
  find_parameter_name, find_parameter-requires, find_parameter-none, includes-missing_after,
  missing_after-IsDistinct,
}

abbrev pub Updates : Type 0
Updates = List (String × Value)

-- The action after all updates, where one that is refused changes nothing.
abbrev pub fill : Updates → Action → Action
fill [] action = action
fill ((name, value) ∷ updates) action =
    fill updates (elim (give_value name value action) [ none ↦ action | some action' ↦ action' ])

abbrev pub is_updated : Updates → String → Bool
is_updated [] x = false
is_updated ((name, value) ∷ updates) x = name == x || is_updated updates x

-- An action as the server collects its parameters.
pub record IsCollected (action : Action) : Type 0 where
  pub settled :
      action.status ≡ status_for (still_missing action.parameters action.missing_parameters)
  pub missing_once : IsDistinct action.missing_parameters
  pub found : All (λ p. requires action.parameters p.name ≡ p.required) action.parameters

-- A required parameter that is missing and that no update names.
abbrev pub unfilled : Updates → List Parameter → List String → Bool
unfilled updates parameters missing =
    any (λ p. p.required && (includes missing p.name && not (is_updated updates p.name))) parameters

-- A parameter, before and after the value that one of the name was given.
filled_alike :
    (ps : List Parameter) (missing : List String) (name : String) (value : Value)
    (updates : Updates) (q p : Parameter)
    → find_parameter name ps ≡ some q
    → has_value value ≡ true
    → IsDistinct missing
    → requires ps p.name ≡ p.required
    → (p.required
        && (includes (missing_after q value missing) p.name && not (is_updated updates p.name)))
      ≡ (p.required
          && (includes missing p.name && not (is_updated ((name, value) ∷ updates) p.name)))
filled_alike ps missing name value updates q p at_name given once agree =
    rw
      (
        includes-missing_after q value missing p.name given once,
        find_parameter_name name ps q at_name,
      )
      (elim (Bool-cases (name == p.name)) [
        | inl e ↦ ground (
          arith,
          find_parameter-requires name ps q at_name,
          ap (requires ps) ((eq_iff name p.name).0 e),
        )
        | inr e ↦ ground arith
      ])

unfilled-give :
    (ps : List Parameter) (missing : List String) (name : String) (value : Value)
    (updates : Updates) (q : Parameter)
    → find_parameter name ps ≡ some q
    → has_value value ≡ true
    → IsDistinct missing
    → (all : List Parameter) → All (λ p. requires ps p.name ≡ p.required) all
    → unfilled updates all (missing_after q value missing)
      ≡ unfilled ((name, value) ∷ updates) all missing
unfilled-give ps missing name value updates q at_name given once [] h = refl
unfilled-give ps missing name value updates q at_name given once (p ∷ all) h =
    rw
      (
        filled_alike ps missing name value updates q p at_name given once h.0,
        unfilled-give ps missing name value updates q at_name given once all h.1,
      )
      refl

unfilled-ignore :
    (missing : List String) (name : String) (value : Value) (updates : Updates)
    (all : List Parameter)
    → All (λ p. (name == p.name) ≡ false) all
    → unfilled updates all missing ≡ unfilled ((name, value) ∷ updates) all missing
unfilled-ignore missing name value updates [] h = refl
unfilled-ignore missing name value updates (p ∷ all) h =
    rw (h.0, unfilled-ignore missing name value updates all h.1) refl

give_value_found :
    (action : Action) (name : String) (value : Value) (q : Parameter)
    → find_parameter name action.parameters ≡ some q
    → give_value name value action ≡ some (with_value q name value action)
unfolding give_value
give_value_found action name value q e = rw (e, give_value) refl

give_value_missed :
    (action : Action) (name : String) (value : Value)
    → find_parameter name action.parameters ≡ none
    → give_value name value action ≡ none
unfolding give_value
give_value_missed action name value e = rw (e, give_value) refl

with_value-IsCollected :
    (action : Action) (name : String) (value : Value) (q : Parameter)
    → IsCollected action
    → has_value value ≡ true
    → IsCollected (with_value q name value action)
with_value-IsCollected action name value q c given = record {
  settled = refl;
  missing_once = missing_after-IsDistinct q value action.missing_parameters given c.missing_once;
  found =
      All-mono (λ p. requires action.parameters p.name ≡ p.required)
        (λ p. requires (set_parameter name value action.parameters) p.name ≡ p.required)
        (set_parameter name value action.parameters)
        (λ p h. requires-set_parameter name value action.parameters p.name ∙ h)
        (All-set_parameter (λ r n. requires action.parameters n ≡ r) name value action.parameters
          c.found);
}

unfilled_none :
    (ps : List Parameter) (missing : List String)
    → still_missing ps missing ≡ unfilled [] ps missing
unfilled_none [] missing = refl
unfilled_none (p ∷ ps) missing = ground (arith, unfilled_none ps missing)

-- Once the client has given values that are not blank to parameters of an action whose parameters
-- are collected, in whatever order and however often, the action is ready exactly if each required
-- parameter was not missing or was given a value.
pub fill-unfilled :
    (updates : Updates) (action : Action)
    → IsCollected action
    → All (λ u. has_value u.1 ≡ true) updates
    → (fill updates action).status
      ≡ status_for (unfilled updates action.parameters action.missing_parameters)
fill-unfilled [] action c given =
    c.settled ∙ ap status_for (unfilled_none action.parameters action.missing_parameters)
fill-unfilled ((name, value) ∷ updates) action c given =
    let go = fill-unfilled updates in
    elim (Option-cases (find_parameter name action.parameters)) [
      | inl e ↦
          rw (give_value_missed action name value e, fill) (go action c given.1)
          ∙ ap status_for (
              unfilled-ignore action.missing_parameters name value updates action.parameters
                (find_parameter-none name action.parameters e))
      | inr (q, e) ↦
          rw (give_value_found action name value q e, fill)
            (go (with_value q name value action)
              (with_value-IsCollected action name value q c given.0) given.1)
          ∙ ap status_for (
              any-set_parameter
                (λ r n.
                  r
                  && (includes (missing_after q value action.missing_parameters) n
                      && not (is_updated updates n)))
                name value action.parameters
              ∙ unfilled-give action.parameters action.missing_parameters name value updates q e
                  given.0 c.missing_once action.parameters c.found)
    ]
