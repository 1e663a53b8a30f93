-- ===== src/Cortex/Store/Tables.antt =====
-- cortex/store.ts: the state of HybridStore and its rows.
use app_intent_system_orches.Base.{ℕ, String, Bool, ◌&&◌, Option, List, ◌==◌, string_eq, nat_eq}
use app_intent_system_orches.Js.{Value}
use app_intent_system_orches.Cortex.Types.{Automation, Run, Action}
use app_intent_system_orches.Cortex.Redis.{Redis}

pub record RunRow : Type 0 where
  pub run : Run
  pub original_event_payload : Option Value

pub data StepStatus : Type 0 where
  success failed : StepStatus

pub record StepRow : Type 0 where
  pub run_id : String
  pub step_index : ℕ
  pub action : Action
  pub status : StepStatus
  pub result : Option Value
  pub error : Option String

pub record Store (redis : Redis) : Type 0 where
  pub units : List Automation
  pub runs : List RunRow
  pub steps : List StepRow
  pub cache : redis.Data
  -- the messages published so far, with their channels
  pub published : List (String × String)

abbrev pub row_is : String → RunRow → Bool
row_is id row = row.run.id == id

abbrev pub unit_is : String → Automation → Bool
unit_is id unit = unit.id == id

abbrev pub step_is : String → ℕ → StepRow → Bool
step_is run_id index row = row.run_id == run_id && row.step_index == index
