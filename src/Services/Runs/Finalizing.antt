-- ===== src/Services/Runs/Finalizing.antt =====
-- services/tool/RunManager.ts: how finalizeRun ends a run.
use app_intent_system_orches.Base.{
  ℕ, ◌≡◌, inl, inr, refl, String, Bool, true, false, not, ◌==◌, nat_eq, none, some, List, [], ◌∷◌,
  length, any, every, keep, length-keep-le, ltb, if◌then◌else◌, arith, Bool-cases, Option-cases,
}
use app_intent_system_orches.Services.Runs.{
  Step, PlanRun, RunStatus, completed, failed, partial_success, has_result, statuses, is_success,
  final_status, finalize_run,
}

-- The tool of the step has returned and did not fail.
abbrev pub has_succeeded : Step → Bool
has_succeeded step = elim step.result [ none ↦ false | some result ↦ is_success result.status ]

abbrev lacks_result : Step → Bool
lacks_result step = not (has_result step)

module _ (steps : List Step) where
  abbrev successes : ℕ
  successes = length (keep is_success (statuses steps))

length-statuses :
    (steps : List Step) → every has_result steps ≡ true → length (statuses steps) ≡ length steps
length-statuses [] h = refl
length-statuses (step ∷ steps) h = elim (Option-cases step.result) [
  | inl e ↦ absurd (ground arith)
  | inr (r, e) ↦ rw e (ground (arith, length-statuses steps))
]

all_successes :
    (steps : List Step)
    → every has_result steps ≡ true
    → (successes steps == length (statuses steps)) ≡ every has_succeeded steps
all_successes [] h = refl
all_successes (step ∷ steps) h = elim (Option-cases step.result) [
  | inl e ↦ absurd (ground arith)
  | inr (r, e) ↦
      rw e (ground (arith, all_successes steps, length-keep-le is_success (statuses steps)))
]

some_success : (steps : List Step) → ltb 0 (successes steps) ≡ any has_succeeded steps
some_success [] = refl
some_success (step ∷ steps) = elim (Option-cases step.result) [
  | inl e ↦ rw e (some_success steps)
  | inr (r, e) ↦ rw e (ground (arith, some_success steps))
]

every_or_any : (steps : List Step) → (any lacks_result steps) ≡ not (every has_result steps)
every_or_any [] = refl
every_or_any (step ∷ steps) = ground (arith, every_or_any steps)

-- How the steps of a plan decide the status of the run.
abbrev pub verdict : List Step → RunStatus
verdict [] = failed
verdict (step ∷ steps) =
    if every has_succeeded (step ∷ steps)
    then completed
    else if any has_succeeded (step ∷ steps)
    then partial_success
    else failed

final_status-verdict :
    (steps : List Step)
    → every has_result steps ≡ true
    → final_status (statuses steps) ≡ verdict steps
final_status-verdict [] h = refl
final_status-verdict (step ∷ steps) h =
    let all = step ∷ steps in
    ground (arith, length-statuses all h, all_successes all h, some_success all)

-- `finalizeRun` leaves a run as it is while a step of its plan lacks a result. Otherwise it sets the
-- time of completion, and the status: completed if every tool succeeded, partial success if only some
-- did, and failed if none did or the plan has no step; the plan stays as it is.
pub finalize_run_cases :
    (now : String) (run : PlanRun)
    → finalize_run now run ≡ (
        if any lacks_result run.tool_execution_plan
        then run
        else record run { completed_at = now; status = verdict run.tool_execution_plan })
unfolding finalize_run
finalize_run_cases now run = elim (Bool-cases (every has_result run.tool_execution_plan)) [
  | inl e ↦ rw (every_or_any, e, final_status-verdict run.tool_execution_plan e) refl
  | inr e ↦ rw (every_or_any, e) refl
]
