-- ===== src/Cortex/Store/Keys.antt =====
-- The keys and references of the rows of cortex/store.ts, table by table.
use app_intent_system_orches.Base.{
  ℕ, String, ◌≡◌, refl, Bool, true, false, not, ◌||◌, List, [], ◌∷◌, ◌++◌, keep, ◌==◌, string_eq,
  eq_iff, All, arith,
}
use app_intent_system_orches.Cortex.Types.{Automation, Run, UnitStatus}
use app_intent_system_orches.Cortex.Store.Tables.{RunRow, StepRow, unit_is}
use app_intent_system_orches.Cortex.Store.Units.{upsert_unit, update_status, has_run}
use app_intent_system_orches.Cortex.Store.Runs.{has_unit, update_run, upsert_step}

-- No two units, no two runs have the same id.
abbrev pub UniqueUnits : List Automation → Type 0
UniqueUnits [] = Unit
UniqueUnits (u ∷ us) = (has_unit u.id us ≡ false) × UniqueUnits us

abbrev pub UniqueRuns : List RunRow → Type 0
UniqueRuns [] = Unit
UniqueRuns (row ∷ rows) = (has_run row.run.id rows ≡ false) × UniqueRuns rows

pub has_unit-upsert :
    (now : ℕ) (u : Automation) (us : List Automation) (id : String)
    → has_unit id (upsert_unit now u us) ≡ (has_unit id us || (u.id == id))
has_unit-upsert now u [] id = ground arith
has_unit-upsert now u (v ∷ us) id =
    ground (arith, has_unit-upsert now u us id, eq_iff v.id u.id, eq_iff v.id id, eq_iff u.id id)

pub upsert_unit-Unique :
    (now : ℕ) (u : Automation) (us : List Automation)
    → UniqueUnits us
    → UniqueUnits (upsert_unit now u us)
upsert_unit-Unique now u [] h = (refl, tt)
upsert_unit-Unique now u (v ∷ us) h = ground (
  arith,
  upsert_unit-Unique now u us h.1,
  has_unit-upsert now u us v.id,
  eq_iff v.id u.id,
  eq_iff u.id v.id,
)

pub has_unit-update_status :
    (now : ℕ) (id : String) (st : UnitStatus) (us : List Automation) (j : String)
    → has_unit j (update_status now id st us) ≡ has_unit j us
has_unit-update_status now id st [] j = refl
has_unit-update_status now id st (u ∷ us) j = ground (arith, has_unit-update_status now id st us j)

pub update_status-Unique :
    (now : ℕ) (id : String) (st : UnitStatus) (us : List Automation)
    → UniqueUnits us
    → UniqueUnits (update_status now id st us)
update_status-Unique now id st [] h = tt
update_status-Unique now id st (u ∷ us) h =
    ground (arith, update_status-Unique now id st us h.1, has_unit-update_status now id st us u.id)

pub has_run-update_run :
    (run : Run) (rows : List RunRow) (id : String)
    → has_run id (update_run run rows) ≡ has_run id rows
has_run-update_run run [] id = refl
has_run-update_run run (row ∷ rows) id = ground (arith, has_run-update_run run rows id)

pub update_run-Unique :
    (run : Run) (rows : List RunRow) → UniqueRuns rows → UniqueRuns (update_run run rows)
update_run-Unique run [] h = tt
update_run-Unique run (row ∷ rows) h =
    ground (arith, update_run-Unique run rows h.1, has_run-update_run run rows row.run.id)

pub update_run-refer :
    (units : List Automation) (run : Run) (rows : List RunRow)
    → All (λ row. has_unit row.run.unit_id units ≡ true) rows
    → All (λ row. has_unit row.run.unit_id units ≡ true) (update_run run rows)
update_run-refer units run [] h = tt
update_run-refer units run (row ∷ rows) h = ground (arith, update_run-refer units run rows h.1)

pub has_run-snoc :
    (row : RunRow) (rows : List RunRow) (id : String)
    → has_run id (rows ++ row ∷ []) ≡ (has_run id rows || (row.run.id == id))
has_run-snoc row [] id = ground arith
has_run-snoc row (r ∷ rows) id = ground (arith, has_run-snoc row rows id)

pub UniqueRuns-snoc :
    (row : RunRow) (rows : List RunRow)
    → has_run row.run.id rows ≡ false
    → UniqueRuns rows
    → UniqueRuns (rows ++ row ∷ [])
UniqueRuns-snoc row [] new h = (refl, tt)
UniqueRuns-snoc row (r ∷ rows) new h = ground (
  arith,
  UniqueRuns-snoc row rows,
  h.1,
  has_run-snoc row rows r.run.id,
  eq_iff r.run.id row.run.id,
  eq_iff row.run.id r.run.id,
)

pub has_unit-keep :
    (p : Automation → Bool) (us : List Automation) (id : String)
    → has_unit id us ≡ false
    → has_unit id (keep p us) ≡ false
has_unit-keep p [] id h = refl
has_unit-keep p (u ∷ us) id h = ground (arith, has_unit-keep p us id)

pub has_run-keep :
    (p : RunRow → Bool) (rows : List RunRow) (id : String)
    → has_run id rows ≡ false
    → has_run id (keep p rows) ≡ false
has_run-keep p [] id h = refl
has_run-keep p (r ∷ rows) id h = ground (arith, has_run-keep p rows id)

pub UniqueUnits-keep :
    (p : Automation → Bool) (us : List Automation) → UniqueUnits us → UniqueUnits (keep p us)
UniqueUnits-keep p [] h = tt
UniqueUnits-keep p (u ∷ us) h =
    ground (arith, UniqueUnits-keep p us h.1, has_unit-keep p us u.id h.0)

pub UniqueRuns-keep :
    (p : RunRow → Bool) (rows : List RunRow) → UniqueRuns rows → UniqueRuns (keep p rows)
UniqueRuns-keep p [] h = tt
UniqueRuns-keep p (r ∷ rows) h =
    ground (arith, UniqueRuns-keep p rows h.1, has_run-keep p rows r.run.id h.0)

-- A unit that is not the deleted one is still there.
pub has_unit-delete :
    (id : String) (us : List Automation) (j : String)
    → has_unit j us ≡ true
    → not (j == id) ≡ true
    → has_unit j (keep (λ u. not (unit_is id u)) us) ≡ true
has_unit-delete id [] j h ne = cc
has_unit-delete id (u ∷ us) j h ne =
    ground (arith, has_unit-delete id us j, eq_iff u.id id, eq_iff j id, eq_iff u.id j)

pub All-test : (p : StepRow → Bool) (rows : List StepRow) → All (λ r. p r ≡ true) (keep p rows)
All-test p [] = tt
All-test p (r ∷ rows) = ground (arith, All-test p rows)

pub upsert_step-refer :
    (runs : List RunRow) (new : StepRow) (rows : List StepRow)
    → has_run new.run_id runs ≡ true
    → All (λ st. has_run st.run_id runs ≡ true) rows
    → All (λ st. has_run st.run_id runs ≡ true) (upsert_step new rows)
upsert_step-refer runs new [] h all = (h, tt)
upsert_step-refer runs new (old ∷ rows) h all =
    ground (arith, upsert_step-refer runs new rows h all.1)
