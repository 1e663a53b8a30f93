-- ===== src/Cortex/Shaper/Leads.antt =====
-- cortex/event-shaper.ts: shapeLeadEvents.
pub mod Memory
use app_intent_system_orches.Base.{
  ℕ, String, Bool, true, false, not, ◌&&◌, Option, none, some, List, [], ◌∷◌, ◌++◌, concat,
  show_nat, if◌then◌else◌,
}
use app_intent_system_orches.Js.{
  Value, undefined, bool, str, Fields, end, field, fields, object, get, get_field, set_field,
  truthy, ◌or_else◌, strict_eq, to_text,
}
use app_intent_system_orches.Cortex.Types.{Event}
use app_intent_system_orches.Cortex.World.{Outside}
use app_intent_system_orches.Cortex.Shaper.Records.{
  previous, next_state, record_id, Shaped, Shaping,
}

-- The type of event that a lead raises, given what is remembered of it.
unfoldable pub lead_event_type : Value → Fields → Option String
unfolding strict_eq
lead_event_type prev lead =
    if not (truthy prev)
    then some "lead_created"
    else if truthy (get_field "IsConverted" lead) && not (truthy (get "IsConverted" prev))
    then some "lead_converted"
    else if not (strict_eq (get_field "Status" lead) (get "Status" prev))
    then some "lead_stage_changed"
    else none

abbrev text_or_empty : String → Fields → Value
text_or_empty k lead = get_field k lead or_else str ""

unfoldable pub lead_event : Fields → Value → String → (user_id : String) → (stamp time : ℕ) → Event
unfolding to_text
lead_event lead prev type user_id stamp time =
    let id = to_text (record_id lead) in
    record {
      id = concat ("salesforce_lead_" ∷ id ∷ "_" ∷ show_nat stamp ∷ []);
      source = "salesforce";
      event = type;
      timestamp = time;
      user_id = user_id;
      payload = object (
          ("lead_id", record_id lead)
          ∷ ("first_name", text_or_empty "FirstName" lead)
          ∷ ("last_name", text_or_empty "LastName" lead)
          ∷ ("company", text_or_empty "Company" lead)
          ∷ ("email", text_or_empty "Email" lead)
          ∷ ("phone", text_or_empty "Phone" lead)
          ∷ ("status", get_field "Status" lead)
          ∷ ("rating", text_or_empty "Rating" lead)
          ∷ ("owner_id", get_field "OwnerId" lead)
          ∷ ("is_converted", bool (truthy (get_field "IsConverted" lead)))
          ∷ ("converted_account_id", get_field "ConvertedAccountId" lead)
          ∷ ("converted_contact_id", get_field "ConvertedContactId" lead)
          ∷ ("converted_opportunity_id", get_field "ConvertedOpportunityId" lead)
          ∷ ("previous_status", get "Status" prev)
          ∷ []);
      dedupe_key = some (concat ("salesforce:lead:" ∷ id ∷ ":" ∷ type ∷ []));
    }

-- What is remembered of a lead.
abbrev pub lead_snapshot : Fields → Value
lead_snapshot lead =
    object
      (("Status", get_field "Status" lead) ∷ ("IsConverted", get_field "IsConverted" lead) ∷ [])

module _ (outside : Outside) (user_id : String) (prev : Fields) where
  -- One turn of the loop.
  unfoldable pub shape_lead : Fields → Shaping outside → Shaping outside
  unfolding lead_event_type lead_event
  shape_lead lead x =
      let id = to_text (record_id lead) in
      if truthy (record_id lead)
      then elim (lead_event_type (get_field id prev) lead) [
        | none ↦ x
        | some type ↦
            let (stamp, w₁) = outside.now x.world in
            let (time, w₂) = outside.now w₁ in
            record {
              events = x.events ++ lead_event lead (get_field id prev) type user_id stamp time ∷ [];
              new_state = set_field id (lead_snapshot lead) x.new_state;
              world = w₂;
            }
      ]
      else x

  unfoldable pub shape_leads : List Fields → Shaping outside → Shaping outside
  shape_leads [] x = x
  shape_leads (lead ∷ leads) x = shape_leads leads (shape_lead lead x)

unfoldable pub shape_lead_events :
    (outside : Outside) → Option Fields → List Fields → String → outside.World → Shaped outside
unfolding shape_leads
shape_lead_events outside state records user_id w =
    let x =
      shape_leads outside user_id (previous state) records
        (record { events = []; new_state = end; world = w }) in
    record { events = x.events; state = next_state state x.new_state; world = x.world }
