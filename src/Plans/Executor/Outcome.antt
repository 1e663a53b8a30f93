-- ===== src/Plans/Executor/Outcome.antt =====
-- What a run of a plan comes to.
use app_intent_system_orches.Base.{
  ℕ, zero, suc, ◌≤◌, ◌<◌, ◌≡◌, refl, inl, inr, ◌⊎◌, true, none, List, [], ◌∷◌, length, arith,
}
use app_intent_system_orches.Services.Runs.{Step, RunStatus}
use app_intent_system_orches.Cortex.Tools.{Orchestrator}
use app_intent_system_orches.Plans.Session.{Helpers, Setting, Sys}
use app_intent_system_orches.Plans.Progress.{Turn, goes_on, stops}
use app_intent_system_orches.Plans.Executor.{loop, complete, execute_plan, begin_run, end_run}
use app_intent_system_orches.Plans.Executor.Marks.{plan_of, mark_at, opens, finish}
use app_intent_system_orches.Plans.Executor.Loops.{LoopEnded, loop-LoopEnded}

module _ (orchestrator : Orchestrator) (helpers : Helpers orchestrator.World)
    (setting : Setting) where
  abbrev State : Type 0
  State = Sys orchestrator.World

  no_marks_behind : (plan : List Step) (j : ℕ) → length plan ≤ j → mark_at j plan ≡ none
  no_marks_behind [] j le = refl
  no_marks_behind (s ∷ plan) zero le = absurd (omega arith)
  no_marks_behind (s ∷ plan) (suc j) le = no_marks_behind plan j (omega arith)

  abbrev Outcome : List Step → State → Type 0
  Outcome plan after =
      ((after.run.status ≡ RunStatus.completed)
        × ((j : ℕ) → mark_at j (plan_of after) ≡ finish (mark_at j plan)))
      ⊎ ((after.run.status ≡ RunStatus.failed)
          × ((k : ℕ) × (opens (mark_at k plan) ≡ true)
              × ((j : ℕ) → j < k → mark_at j (plan_of after) ≡ finish (mark_at j plan))
              × ((j : ℕ) → k < j → mark_at j (plan_of after) ≡ mark_at j plan)))

  end_run_outcome :
      (plan : List Step) (out : Turn × State)
      → LoopEnded orchestrator helpers setting 0 plan out
      → Outcome plan (end_run orchestrator helpers setting out)
  unfolding complete
  end_run_outcome plan (goes_on, s) (inl (on, (later, earlier))) =
      inl (refl, (λ j. later j (omega arith)))
  end_run_outcome plan (goes_on, s) (inr (off, failed, found)) = absurd (cc)
  end_run_outcome plan (stops, s) (inl (on, finished)) = absurd (cc)
  end_run_outcome plan (stops, s) (inr (off, failed, (k, (le, open_k, mid, early, late)))) =
      inr (failed, (k, open_k, (λ j lt. mid j (omega arith) lt), late))

  -- Executing a plan always ends, whatever the tools, the language model and the other services
  -- answer or throw, in one of two ways. Either the run is completed, and every step that was
  -- pending or ready is completed with the result of a tool that succeeded. Or the run has failed
  -- at a step that was pending or ready: those before it are completed likewise, and no step behind
  -- it has changed its status or the status of its result. Any other step keeps both.
  pub execute_plan_outcome :
      (sys : State)
      → let after = execute_plan orchestrator helpers setting sys in
        ((after.run.status ≡ RunStatus.completed)
          × ((j : ℕ) → mark_at j (plan_of after) ≡ finish (mark_at j (plan_of sys))))
        ⊎ ((after.run.status ≡ RunStatus.failed)
            × ((k : ℕ) × (opens (mark_at k (plan_of sys)) ≡ true)
                × ((j : ℕ) → j < k → mark_at j (plan_of after) ≡ finish (mark_at j (plan_of sys)))
                × ((j : ℕ) → k < j → mark_at j (plan_of after) ≡ mark_at j (plan_of sys))))
  unfolding execute_plan complete
  execute_plan_outcome sys =
      end_run_outcome (plan_of sys)
        (loop orchestrator helpers setting (length (plan_of sys)) 0
          (begin_run orchestrator helpers setting sys))
        (loop-LoopEnded orchestrator helpers setting (length (plan_of sys)) 0
          (begin_run orchestrator helpers setting sys)
          (λ j le. no_marks_behind (plan_of sys) j (omega arith)))
