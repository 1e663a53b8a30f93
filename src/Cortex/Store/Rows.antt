-- ===== src/Cortex/Store/Rows.antt =====
-- What a run is after cortex/store.ts saved it.
use app_intent_system_orches.Base.{
  String, ◌≡◌, refl, ◌⊎◌, inl, inr, true, false, Option, none, some, List, [], ◌∷◌, ◌++◌, ◌==◌,
  string_eq, eq_iff, ok, err, OnOk, arith, if◌then◌else◌, Bool-cases, is_some,
}
use app_intent_system_orches.Js.{Value}
use app_intent_system_orches.Cortex.Types.{Run}
use app_intent_system_orches.Cortex.Redis.{Redis}
use app_intent_system_orches.Cortex.Store.Tables.{RunRow, Store}
use app_intent_system_orches.Cortex.Store.Units.{has_run}
use app_intent_system_orches.Cortex.Store.Runs.{
  columns, or_null, update_run, payload_column, unknown_unit, note_waiting, has_unit, find_row,
  save_run,
}

-- The row of a run after it was saved, by the row that was there.
abbrev pub saved_row : Run → Option Value → Option RunRow → RunRow
saved_row run payload none = record {
  run = record run { error = or_null run.error };
  original_event_payload = payload_column payload;
}
saved_row run payload (some old) = record {
  run = record {
    id = old.run.id;
    unit_id = old.run.unit_id;
    event_id = old.run.event_id;
    user_id = old.run.user_id;
    status = run.status;
    step = run.step;
    context = run.context;
    started_at = old.run.started_at;
    completed_at = run.completed_at;
    resume_at = run.resume_at;
    error = or_null run.error;
  };
  original_event_payload = old.original_event_payload;
}

pub has_run-find_row :
    (id : String) (rows : List RunRow) → has_run id rows ≡ is_some (find_row id rows)
has_run-find_row id [] = refl
has_run-find_row id (row ∷ rows) = ground (arith, has_run-find_row id rows)

pub find_row-none :
    (id : String) (rows : List RunRow) → has_run id rows ≡ false → find_row id rows ≡ none
find_row-none id rows h = ground (arith, has_run-find_row id rows)

find_row-update_run :
    (run : Run) (payload : Option Value) (rows : List RunRow) (j : String)
    → has_run run.id rows ≡ true
    → find_row j (update_run run rows) ≡ (
        if run.id == j
        then some (saved_row run payload (find_row run.id rows))
        else find_row j rows)
find_row-update_run run payload [] j h = cc
find_row-update_run run payload (row ∷ rows) j h = ground (
  arith,
  find_row-update_run run payload rows j,
  eq_iff row.run.id run.id,
  eq_iff row.run.id j,
  eq_iff run.id j,
)

find_row-snoc :
    (row : RunRow) (rows : List RunRow) (j : String)
    → has_run row.run.id rows ≡ false
    → find_row j (rows ++ row ∷ []) ≡ (if row.run.id == j then some row else find_row j rows)
find_row-snoc row [] j h = refl
find_row-snoc row (r ∷ rows) j h = ground (
  arith,
  find_row-snoc row rows j,
  eq_iff r.run.id row.run.id,
  eq_iff r.run.id j,
  eq_iff row.run.id j,
)

module _ {redis : Redis} where
  -- A saved run is the row with its id; the other rows are as they were.
  pub find_row-save_run :
      (run : Run) (payload : Option Value) (s : Store redis) (j : String)
      → OnOk
          (λ t. find_row j t.runs ≡ (
            if run.id == j
            then some (saved_row run payload (find_row run.id s.runs))
            else find_row j s.runs))
          (save_run run payload s)
  unfolding save_run
  find_row-save_run run payload s j = elim (Bool-cases (has_run run.id s.runs)) [
    | inl old ↦ rw old (find_row-update_run run payload s.runs j old)
    | inr new ↦ rw new (elim (Bool-cases (has_unit run.unit_id s.units)) [
      | inl known ↦ rw known (rw (find_row-none run.id s.runs new) (find_row-snoc _ s.runs j new))
      | inr dangling ↦ rw dangling tt
    ])
  ]

  abbrev updated : Run → Store redis → Store redis
  updated run s = record s { runs = update_run run s.runs; cache = note_waiting redis run s.cache }

  abbrev inserted : Run → Option Value → Store redis → Store redis
  inserted run payload s = record s {
    runs =
        s.runs
        ++ record { run = columns run; original_event_payload = payload_column payload } ∷ [];
    cache = note_waiting redis run s.cache;
  }

  pub save_run_cases :
      (run : Run) (payload : Option Value) (s : Store redis)
      → ((has_run run.id s.runs ≡ false)
          × (has_unit run.unit_id s.units ≡ false)
          × ((message : String) × (save_run run payload s ≡ err message)))
        ⊎ ((t : Store redis) × (save_run run payload s ≡ ok t)
            × ((j : String)
                → find_row j t.runs ≡ (
                    if run.id == j
                    then some (saved_row run payload (find_row run.id s.runs))
                    else find_row j s.runs))
            × (t.units ≡ s.units)
            × (t.steps ≡ s.steps))
  unfolding save_run
  save_run_cases run payload s =
      let rows = λ (j : String). find_row-save_run run payload s j in
      elim (Bool-cases (has_run run.id s.runs)) [
        | inl old ↦ inr (updated run s, rw old refl, (λ j. rw old at (rows j)), refl, refl)
        | inr new ↦ elim (Bool-cases (has_unit run.unit_id s.units)) [
          | inl known ↦ inr (
            inserted run payload s,
            rw (new, known) refl,
            (λ j. rw (new, known) at (rows j)),
            refl,
            refl,
          )
          | inr dangling ↦ inl (new, dangling, (unknown_unit, rw (new, dangling) refl))
        ]
      ]
