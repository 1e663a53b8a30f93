-- ===== src/Cortex/Types.antt =====
-- cortex/types.ts. A timestamp (an ISO text in the source, always made by `toISOString`) is its
-- number of milliseconds. `Record<string, any>` is an untyped object.
use app_intent_system_orches.Base.{ℕ, String, Bool, true, false, Option, List}
use app_intent_system_orches.Js.{Value, Fields}

pub record Event : Type 0 where
  pub id : String
  pub source : String
  pub event : String
  pub timestamp : ℕ
  pub user_id : String
  pub payload : Value
  pub dedupe_key : Option String

pub data SimpleTrigger : Type 0 where
  event : (source event : String) (filter : Option String) → SimpleTrigger
  schedule : (cron : String) (timezone : Option String) → SimpleTrigger

pub data Trigger : Type 0 where
  simple : SimpleTrigger → Trigger
  compound : (any all : Option (List SimpleTrigger)) → Trigger

-- `expect` is one text or, as evalSemantic allows, a list; `other` is a condition of any other type,
-- which the compiled JSON may hold.
pub data Condition : Type 0 where
  eval : (expr : String) → Condition
  semantic : (prompt input : Option String) (expect : List String) → Condition
  other : Condition

pub data CheckOutcome : Type 0 where
  continue stop : CheckOutcome

pub data Action : Type 0 where
  llm : (prompt : String) (input : Value) (store_as : Option String) → Action
  tool : (tool : String) (args : Value) (store_as : Option String) → Action
  notify : (message : String) → Action
  wait : (duration : String) → Action
  check : (that : String) (then otherwise : CheckOutcome) → Action
  fetch : (from query as_name : String) → Action
  lookup : (in_name find where_text as_name : String) → Action
  log : (message : String) → Action

pub data UnitStatus : Type 0 where
  active paused disabled : UnitStatus

pub record Raw : Type 0 where
  pub when : String
  pub if_text : Option String
  pub then_text : String

-- `Unit` of the source
pub record Automation : Type 0 where
  pub id : String
  pub owner : String
  pub name : String
  pub raw : Raw
  pub when : Trigger
  pub conditions : List Condition
  pub actions : List Action
  pub status : UnitStatus
  pub created_at : ℕ
  pub updated_at : ℕ

pub data RunStatus : Type 0 where
  pending running waiting success failed : RunStatus

pub record Run : Type 0 where
  pub id : String
  pub unit_id : String
  pub event_id : String
  pub user_id : String
  pub status : RunStatus
  pub step : ℕ
  pub context : Fields
  pub started_at : ℕ
  pub completed_at : Option ℕ
  pub resume_at : Option ℕ
  pub error : Option String

abbrev pub is_active : UnitStatus → Bool
is_active active = true
is_active _ = false

abbrev pub is_waiting : RunStatus → Bool
is_waiting waiting = true
is_waiting _ = false
