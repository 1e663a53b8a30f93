-- ===== src/Cortex/Runtime/Resuming.antt =====
-- What cortex/runtime.ts resumeWaitingRuns leaves as it was.
use app_intent_system_orches.Base.{
  ◌+◌, ℕ, ◌≡◌, refl, ap, ◌∙◌, inl, inr, String, Bool, false, ◌&&◌, none, some, List, [], ◌∷◌, any,
  map, keep, ◌==◌, string_eq, arith, Bool-cases, Option-cases,
}
use app_intent_system_orches.Cortex.Types.{Run, running}
use app_intent_system_orches.Cortex.Redis.{Redis}
use app_intent_system_orches.Cortex.World.{Outside}
use app_intent_system_orches.Cortex.Store.Tables.{RunRow, Store}
use app_intent_system_orches.Cortex.Store.Runs.{find_row, get_waiting_runs}
use app_intent_system_orches.Cortex.Store.Integrity.{IsConsistent, Changes-IsConsistent}
use app_intent_system_orches.Cortex.Store.Waiting.{
  IsIndexed, is_due, Changes-IsIndexed, get_waiting_runs_of_IsIndexed,
}
use app_intent_system_orches.Cortex.Runtime.Execute.{Sys, execute}
use app_intent_system_orches.Cortex.Runtime.Spec.{execute_plainly, execute-execute_plainly}
use app_intent_system_orches.Cortex.Runtime.Writes.{execute-Writes}
use app_intent_system_orches.Cortex.Runtime.Frame.{Writes-Changes, Writes-keep_others}
use app_intent_system_orches.Cortex.Runtime.Resume.{After, resume_runs, resume_waiting_runs}

-- Whether a run of the id is waiting for a time that has come.
abbrev pub has_due : ℕ → List RunRow → String → Bool
has_due time rows j = any (λ row. is_due time row.run && row.run.id == j) rows

any-due :
    (time : ℕ) (rows : List RunRow) (j : String)
    → any (λ run. run.id == j) (map (λ row. row.run) (keep (λ row. is_due time row.run) rows))
      ≡ has_due time rows j
any-due time [] j = refl
any-due time (row ∷ rows) j = elim (Bool-cases (is_due time row.run)) [
  | inl e ↦ rw (e, any-due time rows j) refl
  | inr e ↦ rw (e, any-due time rows j) refl
]

module _ {outside : Outside} {redis : Redis} where
  -- The tables are consistent, the set of waiting runs is their index, and the rows of other runs
  -- are as they were.
  record Keeps (resumed : List Run) (s : Store redis) (after : After outside redis) : Type 0 where
    consistent : IsConsistent after.store
    indexed : IsIndexed after.store
    others :
        (j : String)
        → any (λ run. run.id == j) resumed ≡ false
        → find_row j after.store.runs ≡ find_row j s.runs

  resume_runs-Keeps :
      (runs : List Run) (s : Store redis) (w : outside.World)
      → IsConsistent s
      → IsIndexed s
      → (after : After outside redis) × (resume_runs runs s w ≡ some after) × Keeps runs s after
  unfolding resume_runs
  resume_runs-Keeps [] s w c h = (
    record { store = s; world = w; thrown = none },
    refl,
    record { consistent = c; indexed = h; others = λ j none_of. refl },
  )
  resume_runs-Keeps (run ∷ runs) s w c h =
      let resumed : Sys outside redis = record {
        run = record run { status = running; step = run.step + 1 };
        store = s;
        world = w;
      } in
      let x = execute_plainly resumed in
      let ran : execute resumed ≡ some x = execute-execute_plainly resumed in
      let traced = execute-Writes resumed ran in
      let changes = Writes-Changes (λ e. "") traced.1 in
      let c' : IsConsistent x.sys.store = Changes-IsConsistent c changes in
      let h' : IsIndexed x.sys.store = Changes-IsIndexed c h changes in
      let kept : (j : String)
          → (run.id == j) ≡ false
          → find_row j x.sys.store.runs ≡ find_row j s.runs =
        λ j other. Writes-keep_others j traced.1 other in
      elim (Option-cases x.thrown) [
        | inl quiet ↦
            let (after, ends, keeps) = resume_runs-Keeps runs x.sys.store x.sys.world c' h' in
            (
              after,
              rw (resume_runs, ran, quiet) ends,
              record {
                consistent = keeps.consistent;
                indexed = keeps.indexed;
                others = λ j none_of. keeps.others j (ground arith) ∙ kept j (ground arith);
              },
            )
        | inr (m, loud) ↦ (
          record { store = x.sys.store; world = x.sys.world; thrown = some m },
          rw (resume_runs, ran, loud) refl,
          record { consistent = c'; indexed = h'; others = λ j none_of. kept j (ground arith) },
        )
      ]

  -- The scheduler's call always ends, whatever the outside answers and whether an execution throws or
  -- not. It leaves the tables consistent and the set of waiting runs an index of them, and it leaves
  -- as they are the rows of all runs but those that were waiting for a time that had come.
  pub resume_waiting_runs_keeps :
      (s : Store redis) (w : outside.World)
      → IsConsistent s
      → IsIndexed s
      → (after : After outside redis) × (resume_waiting_runs s w ≡ some after)
        × IsConsistent after.store
        × IsIndexed after.store
        × ((j : String)
            → has_due (outside.now w).0 s.runs j ≡ false
            → find_row j after.store.runs ≡ find_row j s.runs)
  unfolding resume_waiting_runs
  resume_waiting_runs_keeps s w c h =
      let time = (outside.now w).0 in
      let due = get_waiting_runs_of_IsIndexed time s c.unique_runs h in
      let (after, ends, keeps) =
        resume_runs-Keeps (get_waiting_runs time s) s (outside.now w).1 c h in
      (
        after,
        ends,
        keeps.consistent,
        keeps.indexed,
        λ j none_due.
            keeps.others j (ap (any (λ run. run.id == j)) due ∙ any-due time s.runs j ∙ none_due),
      )
