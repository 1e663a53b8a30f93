-- ===== src/Cortex/Shaper/Opportunities.antt =====
-- cortex/event-shaper.ts: shapeOpportunityEvents. An amount is an integer below 10^15 or missing:
-- a value of another type counts as no amount.
pub mod Settling
use app_intent_system_orches.Base.{
  ℕ, ◌*◌, String, Bool, true, false, not, ◌&&◌, ◌||◌, Option, none, some, List, [], ◌∷◌, ◌++◌, ltb,
  concat, show_nat, ℤ, pos, negsuc, ◌-ℤ◌, abs, if◌then◌else◌,
}
use app_intent_system_orches.Js.{
  Value, undefined, bool, num, str, Fields, end, fields, object, get, get_field, set_field, truthy,
  ◌or_else◌, strict_eq, to_text,
}
use app_intent_system_orches.Cortex.Types.{Event}
use app_intent_system_orches.Cortex.World.{Outside}
use app_intent_system_orches.Cortex.Shaper.Records.{
  previous, next_state, record_id, Shaped, Shaping,
}

-- What is remembered of an opportunity.
abbrev pub opportunity_snapshot : Fields → Value
opportunity_snapshot opp = object (
    ("StageName", get_field "StageName" opp)
    ∷ ("Amount", get_field "Amount" opp)
    ∷ ("IsClosed", get_field "IsClosed" opp)
    ∷ ("IsWon", get_field "IsWon" opp)
    ∷ [])

-- change / prev > 0.1
abbrev pub is_tenth : ℕ → ℤ → Bool
is_tenth change (pos n) = ltb n (10 * change)
is_tenth change (negsuc n) = false

-- Both amounts are there and not 0, and differ by more than 1000 or a tenth.
unfoldable pub is_significant : Value → Value → Bool
is_significant (num old) (num new) =
    truthy (num new)
    && truthy (num old)
    && (ltb 1000 (abs (new -ℤ old)) || is_tenth (abs (new -ℤ old)) old)
is_significant _ _ = false

-- opp.Amount - prev.Amount, for amounts
abbrev amount_change : Value → Value → Value
amount_change (num old) (num new) = num (new -ℤ old)
amount_change _ _ = undefined

abbrev zero_num : Value
zero_num = num (pos 0)

-- The event of a change: the name in its id, its type, its payload behind the id of the opportunity,
-- and the end of its dedupe key.
pub record Change : Type 0 where
  pub infix_id : String
  pub type : String
  pub rest : List (String × Value)
  pub key : String

-- The payload of the main event.
abbrev main_payload : Fields → List (String × Value)
main_payload opp =
    ("name", get_field "Name" opp or_else str "")
    ∷ ("account_id", get_field "AccountId" opp)
    ∷ ("amount", get_field "Amount" opp or_else zero_num)
    ∷ ("stage_name", get_field "StageName" opp)
    ∷ ("close_date", get_field "CloseDate" opp)
    ∷ ("probability", get_field "Probability" opp or_else zero_num)
    ∷ ("owner_id", get_field "OwnerId" opp)
    ∷ ("is_closed", get_field "IsClosed" opp)
    ∷ ("is_won", get_field "IsWon" opp)
    ∷ []

abbrev main_change : Fields → String → Change
main_change opp type = record { infix_id = ""; type = type; rest = main_payload opp; key = type }

abbrev stage_change : Fields → Value → Change
stage_change opp prev = record {
  infix_id = "stage_";
  type = "opportunity_stage_changed";
  rest =
      ("name", get_field "Name" opp or_else str "")
      ∷ ("account_id", get_field "AccountId" opp)
      ∷ ("amount", get_field "Amount" opp or_else zero_num)
      ∷ ("stage_name", get_field "StageName" opp)
      ∷ ("previous_stage", get "StageName" prev)
      ∷ ("close_date", get_field "CloseDate" opp)
      ∷ ("probability", get_field "Probability" opp or_else zero_num)
      ∷ ("owner_id", get_field "OwnerId" opp)
      ∷ ("is_closed", get_field "IsClosed" opp)
      ∷ ("is_won", get_field "IsWon" opp)
      ∷ [];
  key = concat ("stage_" ∷ to_text (get_field "StageName" opp) ∷ []);
}

abbrev amount_changed : Fields → Value → Change
amount_changed opp prev = record {
  infix_id = "amount_";
  type = "opportunity_amount_changed";
  rest =
      ("name", get_field "Name" opp or_else str "")
      ∷ ("account_id", get_field "AccountId" opp)
      ∷ ("amount", get_field "Amount" opp)
      ∷ ("previous_amount", get "Amount" prev)
      ∷ ("amount_change", amount_change (get "Amount" prev) (get_field "Amount" opp))
      ∷ ("stage_name", get_field "StageName" opp)
      ∷ ("close_date", get_field "CloseDate" opp)
      ∷ ("owner_id", get_field "OwnerId" opp)
      ∷ [];
  key = concat ("amount_" ∷ to_text (get_field "Amount" opp) ∷ []);
}

-- A list of one or none.
abbrev pub only_if {ℓ} : {A : Type ℓ} → Bool → A → List A
only_if true a = a ∷ []
only_if false a = []

-- The main event, if there is one: the opportunity is new, or it was closed.
unfoldable pub main_changes : Value → Fields → List Change
main_changes prev opp =
    if not (truthy prev)
    then main_change opp "opportunity_created" ∷ []
    else only_if (truthy (get_field "IsClosed" opp) && not (truthy (get "IsClosed" prev))) (
        main_change opp (
          if truthy (get_field "IsWon" opp)
          then "opportunity_closed_won"
          else "opportunity_closed_lost"))

-- The events of a known opportunity whose stage or amount changed.
unfoldable pub other_changes : Value → Fields → List Change
unfolding strict_eq is_significant to_text
other_changes prev opp =
    if not (truthy prev)
    then []
    else only_if (not (strict_eq (get_field "StageName" opp) (get "StageName" prev)))
        (stage_change opp prev)
      ++ only_if (is_significant (get "Amount" prev) (get_field "Amount" opp))
          (amount_changed opp prev)

unfoldable pub opportunity_event : Fields → (user_id : String) → (stamp time : ℕ) → Change → Event
unfolding to_text
opportunity_event opp user_id stamp time c =
    let id = to_text (record_id opp) in
    record {
      id = concat ("salesforce_opp_" ∷ id ∷ "_" ∷ c.infix_id ∷ show_nat stamp ∷ []);
      source = "salesforce";
      event = c.type;
      timestamp = time;
      user_id = user_id;
      payload = object (("opportunity_id", record_id opp) ∷ c.rest);
      dedupe_key = some (concat ("salesforce:opp:" ∷ id ∷ ":" ∷ c.key ∷ []));
    }

module _ (outside : Outside) (user_id : String) (prev : Fields) where
  -- The events of the changes, each made at its time.
  unfoldable pub stamped : Fields → List Change → outside.World → List Event × outside.World
  unfolding opportunity_event
  stamped opp [] w = ([], w)
  stamped opp (c ∷ cs) w =
      let (stamp, w₁) = outside.now w in
      let (time, w₂) = outside.now w₁ in
      let (rest, w₃) = stamped opp cs w₂ in (opportunity_event opp user_id stamp time c ∷ rest, w₃)

  -- One turn of the loop. The main event is made last and put first.
  unfoldable pub shape_opportunity : Fields → Shaping outside → Shaping outside
  unfolding stamped main_changes other_changes
  shape_opportunity opp x =
      let id = to_text (record_id opp) in
      let (others, w₁) = stamped opp (other_changes (get_field id prev) opp) x.world in
      let (main, w₂) = stamped opp (main_changes (get_field id prev) opp) w₁ in
      if truthy (record_id opp)
      then record {
        events = x.events ++ main ++ others;
        new_state = set_field id (opportunity_snapshot opp) x.new_state;
        world = w₂;
      }
      else x

  unfoldable pub shape_opportunities : List Fields → Shaping outside → Shaping outside
  shape_opportunities [] x = x
  shape_opportunities (opp ∷ opps) x = shape_opportunities opps (shape_opportunity opp x)

unfoldable pub shape_opportunity_events :
    (outside : Outside) → Option Fields → List Fields → String → outside.World → Shaped outside
unfolding shape_opportunities
shape_opportunity_events outside state records user_id w =
    let x =
      shape_opportunities outside user_id (previous state) records
        (record { events = []; new_state = end; world = w }) in
    record { events = x.events; state = next_state state x.new_state; world = x.world }
