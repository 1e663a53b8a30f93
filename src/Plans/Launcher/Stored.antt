-- ===== src/Plans/Launcher/Stored.antt =====
-- The actions as the launcher stores them: what the client can change of an action.
use app_intent_system_orches.Base.{
  ◌≡◌, refl, sym, ap, ◌∙◌, inl, inr, ℕ, String, true, false, ◌&&◌, Option, none, some, List, [],
  ◌∷◌, map, includes, ◌==◌, string_eq, eq_iff, lookup_text, arith, Bool-cases, Option-cases, All,
  length, subst, eq_refl, if◌then◌else◌,
}
use app_intent_system_orches.Js.{Value}
use app_intent_system_orches.Catalog.Config.{Categories}
use app_intent_system_orches.Plans.Launcher.{
  Action, Launcher, PlanItem, map_set, or_no_actions, actions_of, get_action, store_action,
  planned_action, create_action, store_plan, process_action_plan,
}
use app_intent_system_orches.Plans.Launcher.Parameters.{
  give_value, update_parameter_value, has_value, status_for,
}
use app_intent_system_orches.Plans.Launcher.Filling.{
  Updates, fill, IsCollected, unfilled, fill-unfilled,
}

lookup-map_set {ℓ} :
    {A : Type ℓ} (k j : String) (v : A) (m : List (String × A))
    → lookup_text j (map_set k v m) ≡ (if k == j then some v else lookup_text j m)
lookup-map_set k j v [] = refl
lookup-map_set k j v ((i, w) ∷ m) =
    ground (arith, lookup-map_set k j v m, eq_iff i k, eq_iff i j, eq_iff k j)

pub get_action-store_action :
    (session_id action_id : String) (action : Action) (launcher : Launcher) (s i : String)
    → get_action s i (store_action session_id action_id action launcher)
      ≡ (if session_id == s && action_id == i then some action else get_action s i launcher)
get_action-store_action session_id action_id action launcher s i =
    ap (λ o. lookup_text i (or_no_actions o))
      (lookup-map_set session_id s (map_set action_id action (actions_of session_id launcher))
        launcher)
    ∙ elim (Bool-cases (session_id == s)) [
      | inl e ↦ rw e (
          lookup-map_set action_id i action (actions_of session_id launcher)
          ∙ ap (λ x. if action_id == i then some action else lookup_text i (actions_of x launcher))
              ((eq_iff session_id s).0 e))
      | inr e ↦ rw e refl
    ]

-- The client's updates of one action, in their order.
abbrev pub follow_updates : (session_id action_id : String) → Updates → Launcher → Launcher
follow_updates session_id action_id [] launcher = launcher
follow_updates session_id action_id ((name, value) ∷ updates) launcher =
    follow_updates session_id action_id updates
      (update_parameter_value session_id action_id name value launcher).1

update_found :
    (session_id action_id name : String) (value : Value) (launcher : Launcher) (action : Action)
    → get_action session_id action_id launcher ≡ some action
    → get_action session_id action_id
        (update_parameter_value session_id action_id name value launcher).1
      ≡ some (fill ((name, value) ∷ []) action)
unfolding update_parameter_value
update_found session_id action_id name value launcher action e =
    elim (Option-cases (give_value name value action)) [
      | inl missed ↦ rw (e, update_parameter_value, missed, fill) e
      | inr (action', given) ↦
          rw (e, update_parameter_value, given, fill)
            (get_action-store_action session_id action_id action' launcher session_id action_id
              ∙ ground (arith, eq_iff session_id session_id, eq_iff action_id action_id))
    ]

get_action-follow_updates :
    (session_id action_id : String) (updates : Updates) (launcher : Launcher) (action : Action)
    → get_action session_id action_id launcher ≡ some action
    → get_action session_id action_id (follow_updates session_id action_id updates launcher)
      ≡ some (fill updates action)
get_action-follow_updates session_id action_id [] launcher action e = e
get_action-follow_updates session_id action_id ((name, value) ∷ updates) launcher action e =
    get_action-follow_updates session_id action_id updates
      (update_parameter_value session_id action_id name value launcher).1
      (fill ((name, value) ∷ []) action)
      (update_found session_id action_id name value launcher action e)

-- Once the client has sent values that are not blank for parameters of a stored action whose
-- parameters are collected, in whatever order and however often, the launcher holds the action as
-- ready exactly if each of its required parameters was not missing or was given a value, and as
-- collecting parameters otherwise.
pub follow_updates-unfilled :
    (session_id action_id : String) (updates : Updates) (launcher : Launcher) (action : Action)
    → get_action session_id action_id launcher ≡ some action
    → IsCollected action
    → All (λ u. has_value u.1 ≡ true) updates
    → (after : Action) × (get_action session_id action_id
          (follow_updates session_id action_id updates launcher)
        ≡ some after)
      × (after.status ≡ status_for (unfilled updates action.parameters action.missing_parameters))
follow_updates-unfilled session_id action_id updates launcher action e c given = (
  fill updates action,
  get_action-follow_updates session_id action_id updates launcher action e,
  fill-unfilled updates action c given,
)

-- An action without parameters, if there is one.
abbrev HasNone : Option Action → Type 0
HasNone none = Unit
HasNone (some action) = action.parameters ≡ []

planned_HasNone :
    (configs : Categories) (message_id : String) (item : PlanItem)
    → (planned_action configs message_id item).parameters ≡ []
unfolding planned_action create_action
planned_HasNone configs message_id item = refl

store_planned :
    (configs : Categories) (session_id message_id : String) (item : PlanItem) (launcher : Launcher)
    (id : String)
    → ((item.id == id) ≡ false → HasNone (get_action session_id id launcher))
    → HasNone (
        get_action session_id id
          (store_action session_id item.id (planned_action configs message_id item) launcher))
store_planned configs session_id message_id item launcher id h =
    let action = planned_action configs message_id item in
    subst HasNone (sym (get_action-store_action session_id item.id action launcher session_id id))
      (elim (Bool-cases (item.id == id)) [
        | inl e ↦ rw (e, eq_refl session_id) (planned_HasNone configs message_id item)
        | inr e ↦ rw (e, eq_refl session_id) (h e)
      ])

store_plan-HasNone :
    (configs : Categories) (session_id message_id : String) (count : ℕ) (plan : List PlanItem)
    (launcher : Launcher) (id : String)
    → (includes (map (λ item. item.id) plan) id ≡ false
        → HasNone (get_action session_id id launcher))
    → HasNone
        (get_action session_id id (store_plan configs session_id message_id count plan launcher).0)
unfolding store_plan
store_plan-HasNone configs session_id message_id count [] launcher id h = h refl
store_plan-HasNone configs session_id message_id count (item ∷ plan) launcher id h =
    store_plan-HasNone configs session_id message_id count plan
      (store_action session_id item.id (planned_action configs message_id item) launcher) id
      (λ fresh.
        store_planned configs session_id message_id item launcher id
          (λ differs. h (rw (differs, fresh) refl)))

-- The actions of a plan are stored without parameters, also those that are to collect some: after a
-- plan was processed, every value that the client sends for a parameter of one of its actions is
-- refused and changes nothing.
pub update-process_action_plan :
    (configs : Categories) (session_id message_id : String) (plan : List PlanItem)
    (launcher : Launcher) (id name : String) (value : Value)
    → includes (map (λ item. item.id) plan) id ≡ true
    → let after = (process_action_plan configs session_id message_id plan launcher).0 in
      update_parameter_value session_id id name value after ≡ (none, after)
unfolding update_parameter_value process_action_plan give_value
update-process_action_plan configs session_id message_id plan launcher id name value planned =
    let after = (process_action_plan configs session_id message_id plan launcher).0 in
    let bare : HasNone (get_action session_id id after) =
      store_plan-HasNone configs session_id message_id (length plan) plan launcher id
        (λ fresh. absurd (ground arith)) in
    elim (Option-cases (get_action session_id id after)) [
      | inl e ↦ rw (update_parameter_value, e) refl
      | inr (action, e) ↦
          let none_left : action.parameters ≡ [] = subst HasNone e bare in
          rw (update_parameter_value, e, give_value, none_left) refl
    ]
