-- ===== src/Cortex/Store/Waiting.antt =====
-- The sorted set `runs:waiting` of cortex/store.ts as an index of the table of runs.
use app_intent_system_orches.Base.{
  ℕ, ◌≤◌, String, ◌≡◌, ◌↔◌, ◌∙◌, refl, ap, inl, inr, Bool, true, false, Option, none, some, List,
  [], ◌∷◌, keep, map, ◌==◌, string_eq, eq_iff, eq_refl, ok, OnOk, of_OnOk, All, All-mono,
  keep_congr, Bool_ext, arith, if◌then◌else◌, Bool-cases, Option-cases, is_some, leb,
}
use app_intent_system_orches.Js.{Value}
use app_intent_system_orches.Cortex.Types.{Run, Event, Action, is_waiting}
use app_intent_system_orches.Cortex.Redis.{Redis}
use app_intent_system_orches.Cortex.Store.Tables.{RunRow, StepStatus, Store}
use app_intent_system_orches.Cortex.Store.Units.{
  has_run, save_unit, update_unit_status, delete_unit,
}
use app_intent_system_orches.Cortex.Store.Events.{write_event, dedupe_of, dedupe_name}
use app_intent_system_orches.Cortex.Store.Runs.{
  has_unit, find_row, save_run, log_run_step, note_waiting, waiting_key, get_waiting_runs,
}
use app_intent_system_orches.Cortex.Store.Rows.{
  has_run-find_row, saved_row, find_row-save_run, find_row-none,
}
use app_intent_system_orches.Cortex.Store.Keys.{UniqueRuns, has_run-keep}
use app_intent_system_orches.Cortex.Store.Integrity.{
  IsConsistent, Changes, Change, Changes-IsConsistent, write_event_tables,
}

-- When a run is to be resumed, if it is waiting.
abbrev pub due_at : Run → Option ℕ
due_at run = if is_waiting run.status then run.resume_at else none

module _ (redis : Redis) where
  -- The score of a run in the sorted set.
  abbrev pub score : redis.Data → String → Option ℕ
  score cache id = redis.zscore cache waiting_key id

  score-zrem :
      (cache : redis.Data) (id j : String)
      → score (redis.zrem cache waiting_key id) j ≡ (if id == j then none else score cache j)
  score-zrem cache id j = redis.zscore-zrem cache waiting_key id waiting_key j

  score-zadd :
      (cache : redis.Data) (at : ℕ) (id j : String)
      → score (redis.zadd cache waiting_key at id) j ≡ (if id == j then some at else score cache j)
  score-zadd cache at id j = redis.zscore-zadd cache waiting_key at id waiting_key j

  score-note_waiting :
      (run : Run) (cache : redis.Data) (j : String)
      → score (note_waiting redis run cache) j ≡ (if run.id == j then due_at run else score cache j)
  score-note_waiting run cache j = elim (Bool-cases (is_waiting run.status)) [
    | inl w ↦ elim (Option-cases run.resume_at) [
      | inl e ↦ rw (w, e) (score-zrem cache run.id j)
      | inr (at, e) ↦ rw (w, e) (score-zadd cache at run.id j)
    ]
    | inr w ↦ rw w (score-zrem cache run.id j)
  ]

-- The set has a run that is in the table with the time at which it is due if it is waiting, and does
-- not have it otherwise.
pub record IsIndexed {redis : Redis} (s : Store redis) : Type 0 where
  pub at :
      (id : String) (row : RunRow)
      → find_row id s.runs ≡ some row
      → score redis s.cache id ≡ due_at row.run

due_at-saved_row :
    (run : Run) (payload : Option Value) (old : Option RunRow)
    → due_at (saved_row run payload old).run ≡ due_at run
due_at-saved_row run payload none = refl
due_at-saved_row run payload (some row) = refl

find_row-keep :
    (p : RunRow → Bool) (rows : List RunRow) (id : String) (row : RunRow)
    → UniqueRuns rows
    → find_row id (keep p rows) ≡ some row
    → find_row id rows ≡ some row
find_row-keep p [] id row h e = e
find_row-keep p (r ∷ rows) id row h e = ground (
  arith,
  find_row-keep p rows id row h.1,
  has_run-keep p rows id,
  find_row-none id (keep p rows),
  eq_iff r.run.id id,
)

module _ {redis : Redis} where
  score-save_run :
      (run : Run) (payload : Option Value) (s : Store redis) (j : String)
      → OnOk
          (λ t. score redis t.cache j ≡ (if run.id == j then due_at run else score redis s.cache j))
          (save_run run payload s)
  unfolding save_run
  score-save_run run payload s j = elim (Bool-cases (has_run run.id s.runs)) [
    | inl old ↦ rw old (score-note_waiting redis run s.cache j)
    | inr new ↦ rw new (elim (Bool-cases (has_unit run.unit_id s.units)) [
      | inl known ↦ rw known (score-note_waiting redis run s.cache j)
      | inr dangling ↦ rw dangling tt
    ])
  ]

  save_run-IsIndexed :
      (run : Run) (payload : Option Value) (s t : Store redis)
      → IsIndexed s
      → save_run run payload s ≡ ok t
      → IsIndexed t
  save_run-IsIndexed run payload s t h e = record {
    at = λ j row found.
        let stored = of_OnOk _ _ (find_row-save_run run payload s j) e in
        let scored = of_OnOk _ _ (score-save_run run payload s j) e in
        elim (Bool-cases (run.id == j)) [
          | inl same ↦ ground (arith, due_at-saved_row run payload (find_row run.id s.runs))
          | inr other ↦ ground (arith, h.at j row)
        ];
  }

  delete_unit-IsIndexed :
      (id : String) (s : Store redis) → IsConsistent s → IsIndexed s → IsIndexed (delete_unit id s)
  unfolding delete_unit
  delete_unit-IsIndexed id s c h = record {
    at = λ j row found. h.at j row (find_row-keep _ s.runs j row c.unique_runs found);
  }

  log_run_step_keeps :
      (id : String) (i : ℕ) (a : Action) (st : StepStatus) (result : Option Value)
      (error : Option String) (s : Store redis)
      → OnOk (λ t. (t.runs ≡ s.runs) × (t.cache ≡ s.cache)) (log_run_step id i a st result error s)
  unfolding log_run_step
  log_run_step_keeps id i a st result error s = elim (Bool-cases (has_run id s.runs)) [
    | inl known ↦ rw known (refl, refl)
    | inr dangling ↦ rw dangling tt
  ]

  score-write_event :
      (encode : Event → String) (event : Event) (s : Store redis) (j : String)
      → score redis (write_event encode event s).0.cache j ≡ score redis s.cache j
  unfolding write_event
  score-write_event encode event s j = elim (Option-cases (dedupe_of event.dedupe_key)) [
    | inl e ↦ rw (e, write_event) (redis.zscore-set _ _ _ _ _)
    | inr (key, e) ↦ elim (Bool-cases (is_some (redis.get s.cache (dedupe_name key)))) [
      | inl seen ↦ rw (e, write_event) (rw seen refl)
      | inr new ↦
          rw (e, write_event) (rw new (redis.zscore-set _ _ _ _ _ ∙ redis.zscore-set _ _ _ _ _))
    ]
  ]

  same_tables :
      (s t : Store redis)
      → t.runs ≡ s.runs
      → ((j : String) → score redis t.cache j ≡ score redis s.cache j)
      → IsIndexed s
      → IsIndexed t
  same_tables s t runs scores h = record {
    at = λ j row found. rw (scores j) (h.at j row (rw runs at found));
  }

  Change-IsIndexed :
      {encode : Event → String} {s t : Store redis}
      → Change encode s t
      → IsConsistent s
      → IsIndexed s
      → IsIndexed t
  unfolding save_unit update_unit_status
  Change-IsIndexed (Change.saves_unit {s = s} now u) c h = record { at = h.at }
  Change-IsIndexed (Change.updates_status {s = s} now id st) c h = record { at = h.at }
  Change-IsIndexed (Change.deletes_unit {s = s} id) c h = delete_unit-IsIndexed id s c h
  Change-IsIndexed (Change.saves_run {s = s} {t = t} run payload e) c h =
      save_run-IsIndexed run payload s t h e
  Change-IsIndexed (Change.logs_step {s = s} {t = t} id i a st result error e) c h =
      let (runs, cache) = of_OnOk _ _ (log_run_step_keeps id i a st result error s) e in
      same_tables s t runs (λ j. rw cache) h
  Change-IsIndexed {encode} (Change.writes_event {s = s} e) c h =
      same_tables s _ (write_event_tables encode e s).1 (score-write_event encode e s) h

  pub Changes-IsIndexed :
      {encode : Event → String} {s t : Store redis}
      → IsConsistent s
      → IsIndexed s
      → Changes encode s t
      → IsIndexed t
  Changes-IsIndexed c h Changes.here = h
  Changes-IsIndexed c h (Changes.next r d) =
      Change-IsIndexed d (Changes-IsConsistent c r) (Changes-IsIndexed c h r)

-- The run is waiting for a time that has come.
abbrev pub is_due : ℕ → Run → Bool
is_due before run = elim (due_at run) [ none ↦ false | some at ↦ leb at before ]

-- In a table with unique ids each row is found by its id.
find_row_self :
    (rows : List RunRow) → UniqueRuns rows → All (λ row. find_row row.run.id rows ≡ some row) rows
find_row_self [] h = tt
find_row_self (r ∷ rows) h = (
  rw (eq_refl r.run.id) refl,
  All-mono _ _ rows
      (λ row e. ground (arith, has_run-find_row r.run.id rows, eq_iff r.run.id row.run.id))
      (find_row_self rows h.1),
)

is_due_iff :
    (before : ℕ) (run : Run)
    → (is_due before run ≡ true) ↔ ((at : ℕ) × (due_at run ≡ some at) × (at ≤ before))
is_due_iff before run = elim (Option-cases (due_at run)) [
  | inl e ↦ rw e ((λ f. cc), (λ (at, f, le). cc))
  | inr (at, e) ↦ rw e ((λ f. (at, refl, ground arith)), (λ (a, f, le). ground arith))
]

module _ {redis : Redis} where
  pub get_waiting_runs_of_IsIndexed :
      (before : ℕ) (s : Store redis)
      → UniqueRuns s.runs
      → IsIndexed s
      → get_waiting_runs before s
        ≡ map (λ row. row.run) (keep (λ row. is_due before row.run) s.runs)
  unfolding get_waiting_runs
  get_waiting_runs_of_IsIndexed before s unique h = ap (map (λ row. row.run)) (
      keep_congr _ _ s.runs (
        All-mono _ _ s.runs
          (λ row found.
            let listed =
              rw (h.at row.run.id row found) at
                (redis.zrange_iff s.cache waiting_key before row.run.id) in
            let due = is_due_iff before row.run in
            Bool_ext _ _ ((λ e. due.1 (listed.0 e)), (λ e. listed.1 (due.0 e))))
          (find_row_self s.runs unique)))

  -- However methods of the store were called since a store whose tables and sorted set agree, the
  -- runs to resume are exactly those in the table that wait for a time that has come, in its order.
  pub get_waiting_runs-Changes :
      {encode : Event → String} {s t : Store redis} (before : ℕ)
      → IsConsistent s
      → IsIndexed s
      → Changes encode s t
      → get_waiting_runs before t
        ≡ map (λ row. row.run) (keep (λ row. is_due before row.run) t.runs)
  get_waiting_runs-Changes {t} before c h changes =
      get_waiting_runs_of_IsIndexed before t (Changes-IsConsistent c changes).unique_runs
        (Changes-IsIndexed c h changes)
