-- ===== src/Cortex/Store/Units.antt =====
-- cortex/store.ts: the methods on units.
use app_intent_system_orches.Base.{
  ℕ, String, Bool, false, not, ◌&&◌, Option, none, some, List, [], ◌∷◌, any, keep, ◌==◌, string_eq,
  if◌then◌else◌,
}
use app_intent_system_orches.Cortex.Types.{
  event, schedule, Trigger, simple, compound, UnitStatus, Automation, is_active,
}
use app_intent_system_orches.Cortex.Redis.{Redis}
use app_intent_system_orches.Cortex.Store.Tables.{RunRow, Store, unit_is, row_is}

-- The columns trigger_source and trigger_event.
abbrev pub trigger_columns : Trigger → Option (String × String)
trigger_columns (simple (event source name filter)) = some (source, name)
trigger_columns (simple (schedule cron timezone)) = none
trigger_columns (compound any_of all_of) = none

abbrev pub has_trigger : String → String → Automation → Bool
has_trigger source name unit = elim (trigger_columns unit.when) [
  | none ↦ false
  | some (s, n) ↦ s == source && n == name
]

-- ON CONFLICT (id) DO UPDATE: the owner and the time of creation stay.
abbrev pub merge_unit : ℕ → Automation → Automation → Automation
merge_unit now new old = record old {
  name = new.name;
  raw = new.raw;
  when = new.when;
  conditions = new.conditions;
  actions = new.actions;
  status = new.status;
  updated_at = now;
}

abbrev pub upsert_unit : ℕ → Automation → List Automation → List Automation
upsert_unit now unit [] = unit ∷ []
upsert_unit now unit (u ∷ us) =
    if unit_is unit.id u then merge_unit now unit u ∷ us else u ∷ upsert_unit now unit us

abbrev pub find_unit : String → List Automation → Option Automation
find_unit id [] = none
find_unit id (u ∷ us) = if unit_is id u then some u else find_unit id us

abbrev set_status : ℕ → UnitStatus → Automation → Automation
set_status now status u = record u { status = status; updated_at = now }

abbrev pub update_status : ℕ → String → UnitStatus → List Automation → List Automation
update_status now id status [] = []
update_status now id status (u ∷ us) =
    (if unit_is id u then set_status now status u else u) ∷ update_status now id status us

-- The run exists in the table.
abbrev pub has_run : String → List RunRow → Bool
has_run id runs = any (row_is id) runs

module _ {redis : Redis} where
  unfoldable pub save_unit : ℕ → Automation → Store redis → Store redis
  save_unit now unit s = record s { units = upsert_unit now unit s.units }

  unfoldable pub get_unit : String → Store redis → Option Automation
  get_unit id s = find_unit id s.units

  -- SELECT without an order, which leaves it open: the rows in the order of their insertion.
  unfoldable pub get_units_by_trigger : String → String → Store redis → List Automation
  get_units_by_trigger source name s =
      keep (λ u. has_trigger source name u && is_active u.status) s.units

  unfoldable pub update_unit_status : ℕ → String → UnitStatus → Store redis → Store redis
  update_unit_status now id status s = record s { units = update_status now id status s.units }

  -- ON DELETE CASCADE takes the runs of the unit and their steps along.
  unfoldable pub delete_unit : String → Store redis → Store redis
  delete_unit id s =
      let runs' : List RunRow = keep (λ row. not (row.run.unit_id == id)) s.runs in
      record s {
        units = keep (λ u. not (unit_is id u)) s.units;
        runs = runs';
        steps = keep (λ step. has_run step.run_id runs') s.steps;
      }
