-- ===== src/Plans/Executor/Loops.antt =====
-- The loop over the steps of a plan.
use app_intent_system_orches.Base.{
  ℕ, zero, suc, ◌+◌, ◌≤◌, ◌<◌, ◌≡◌, ◌≢◌, refl, sym, ap, ◌∙◌, subst, inl, inr, ◌⊎◌, true, none, some,
  List, get_elem?, arith, Option-cases, Bool-cases, nat_beq, nat_beq_iff,
}
use app_intent_system_orches.Services.Runs.{Step, RunStatus}
use app_intent_system_orches.Cortex.Tools.{Orchestrator}
use app_intent_system_orches.Plans.Session.{Helpers, Setting, Sys}
use app_intent_system_orches.Plans.Progress.{Turn, goes_on, stops}
use app_intent_system_orches.Plans.Executor.{process_step, follow_completed, loop, go_on}
use app_intent_system_orches.Plans.Executor.Marks.{plan_of, mark_at, opens, finish, mark_at-none}
use app_intent_system_orches.Plans.Executor.Turns.{follow_completed-Alike, Went, process_step-Went}

-- Every step from the position on is finished, and those before it are as they were.
abbrev pub FinishedFrom : ℕ → (before after : List Step) → Type 0
FinishedFrom i before after =
    ((j : ℕ) → i ≤ j → mark_at j after ≡ finish (mark_at j before))
    × ((j : ℕ) → j < i → mark_at j after ≡ mark_at j before)

-- The run stopped at an open step: the steps between the positions are finished, those before and
-- behind are as they were.
abbrev pub StoppedAt : (i k : ℕ) → (before after : List Step) → Type 0
StoppedAt i k before after =
    (i ≤ k)
    × (opens (mark_at k before) ≡ true)
    × ((j : ℕ) → i ≤ j → j < k → mark_at j after ≡ finish (mark_at j before))
    × ((j : ℕ) → j < i → mark_at j after ≡ mark_at j before)
    × ((j : ℕ) → k < j → mark_at j after ≡ mark_at j before)

module _ (orchestrator : Orchestrator) (helpers : Helpers orchestrator.World)
    (setting : Setting) where
  abbrev State : Type 0
  State = Sys orchestrator.World

  abbrev pub LoopEnded : ℕ → List Step → Turn × State → Type 0
  LoopEnded i plan out =
      ((out.0 ≡ goes_on) × FinishedFrom i plan (plan_of out.1))
      ⊎ ((out.0 ≡ stops)
          × (out.1.run.status ≡ RunStatus.failed)
          × ((k : ℕ) × StoppedAt i k plan (plan_of out.1)))

  -- The step at the position is finished, and so is a later one that the rest finishes.
  finished_from :
      (i : ℕ) (plan plan' after : List Step)
      → ((j : ℕ) → i ≢ j → mark_at j plan' ≡ mark_at j plan)
      → mark_at i plan' ≡ finish (mark_at i plan)
      → ((j : ℕ) → j < suc i → mark_at j after ≡ mark_at j plan')
      → (j : ℕ) → i ≤ j
      → (suc i ≤ j → mark_at j after ≡ finish (mark_at j plan'))
      → mark_at j after ≡ finish (mark_at j plan)
  finished_from i plan plan' after other here earlier j le later = elim (Bool-cases (nat_beq i j)) [
    | inl e ↦
        let same : i ≡ j = (nat_beq_iff i j).0 e in
        subst (λ k. mark_at k after ≡ finish (mark_at k plan)) same (earlier i (omega arith) ∙ here)
    | inr e ↦
        let differ : i ≢ j = λ h. absurd (ground (arith, nat_beq_iff i j)) in
        later (omega arith) ∙ ap finish (other j differ)
  ]

  -- One more step before the others.
  LoopEnded-goes_on :
      (i : ℕ) (plan plan' : List Step) (out : Turn × State)
      → ((j : ℕ) → i ≢ j → mark_at j plan' ≡ mark_at j plan)
      → mark_at i plan' ≡ finish (mark_at i plan)
      → LoopEnded (suc i) plan' out
      → LoopEnded i plan out
  LoopEnded-goes_on i plan plan' out other here (inl (on, (later, earlier))) = inl (
    on,
    (
      (λ j le. finished_from i plan plan' (plan_of out.1) other here earlier j le (later j)),
      (λ j lt. earlier j (omega arith) ∙ other j (λ e. absurd (omega arith))),
    ),
  )
  LoopEnded-goes_on i plan plan' out other here
        (inr (off, failed, (k, (le, open_k, mid, early, late)))) =
      inr (
        off,
        failed,
        (
          k,
          (
            omega arith,
            (ap opens (sym (other k (λ e. absurd (omega arith)))) ∙ open_k),
            (λ j le_j lt.
                finished_from i plan plan' (plan_of out.1) other here early j le_j
                  (λ later. mid j later lt)),
            (λ j lt. early j (omega arith) ∙ other j (λ e. absurd (omega arith))),
            (λ j lt. late j lt ∙ other j (λ e. absurd (omega arith))),
          ),
        ),
      )

  -- A turn, and the rest of the loop after the follow-up.
  go_on-LoopEnded :
      (i : ℕ) (plan : List Step) (out : Turn × State) (rest : State → Turn × State)
      → Went orchestrator helpers setting i plan out
      → ((s : State)
          → ((j : ℕ) → i ≢ j → mark_at j (plan_of s) ≡ mark_at j plan)
          → LoopEnded (suc i) (plan_of s) (rest s))
      → LoopEnded i plan (go_on orchestrator helpers setting out rest)
  go_on-LoopEnded i plan (goes_on, s) rest (other, inl (on, here)) more =
      LoopEnded-goes_on i plan (plan_of s) (rest s) other here (more s other)
  go_on-LoopEnded i plan (goes_on, s) rest (other, inr (off, failed, open_i)) more = absurd (cc)
  go_on-LoopEnded i plan (stops, s) rest (other, inl (on, here)) more = absurd (cc)
  go_on-LoopEnded i plan (stops, s) rest (other, inr (off, failed, open_i)) more = inr (
    refl,
    failed,
    (
      i,
      (
        omega arith,
        open_i,
        (λ j le lt. absurd (omega arith)),
        (λ j lt. other j (λ e. absurd (omega arith))),
        (λ j lt. other j (λ e. absurd (omega arith))),
      ),
    ),
  )

  -- Only the marks of the plan count.
  LoopEnded-Alike :
      (i : ℕ) (plan plan' : List Step) (out : Turn × State)
      → ((j : ℕ) → mark_at j plan' ≡ mark_at j plan)
      → LoopEnded i plan' out
      → LoopEnded i plan out
  LoopEnded-Alike i plan plan' out alike (inl (on, (later, earlier))) =
      inl (on, ((λ j le. later j le ∙ ap finish (alike j)), (λ j lt. earlier j lt ∙ alike j)))
  LoopEnded-Alike i plan plan' out alike (inr (off, failed, (k, (le, open_k, mid, early, late)))) =
      inr (
        off,
        failed,
        (
          k,
          (
            le,
            ap opens (sym (alike k)) ∙ open_k,
            (λ j le_j lt. mid j le_j lt ∙ ap finish (alike j)),
            (λ j lt. early j lt ∙ alike j),
            (λ j lt. late j lt ∙ alike j),
          ),
        ),
      )

  loop-none :
      (left i : ℕ) (sys : State)
      → get_elem? (plan_of sys) i ≡ none
      → loop orchestrator helpers setting (suc left) i sys ≡ (goes_on, sys)
  unfolding loop
  loop-none left i sys e = rw (loop, e) refl

  abbrev rest_of : ℕ → ℕ → State → Turn × State
  rest_of left i s =
      loop orchestrator helpers setting left (suc i)
        (follow_completed orchestrator helpers setting i (get_elem? (plan_of s) i) s)

  loop-some :
      (left i : ℕ) (sys : State) (step : Step)
      → get_elem? (plan_of sys) i ≡ some step
      → loop orchestrator helpers setting (suc left) i sys
        ≡ go_on orchestrator helpers setting
            (process_step orchestrator helpers setting i step sys)
            (rest_of left i)
  unfolding loop
  loop-some left i sys step e = rw (loop, e) refl

  -- The loop from a position on, with at least as many rounds as steps are left.
  pub loop-LoopEnded :
      (left i : ℕ) (sys : State)
      → ((j : ℕ) → i + left ≤ j → mark_at j (plan_of sys) ≡ none)
      → LoopEnded i (plan_of sys) (loop orchestrator helpers setting left i sys)
  unfolding loop
  loop-LoopEnded zero i sys enough = inl (
    refl,
    (
      (λ j le.
          let gone : mark_at j (plan_of sys) ≡ none = enough j (omega arith) in
          gone ∙ sym (ap finish gone)),
      (λ j lt. refl),
    ),
  )
  loop-LoopEnded (suc left) i sys enough =
      let recur = loop-LoopEnded left (suc i) in
      elim (Option-cases (get_elem? (plan_of sys) i)) [
        | inl e ↦ subst (LoopEnded i (plan_of sys)) (sym (loop-none left i sys e)) (
            inl (
              refl,
              (
                (λ j le.
                    let gone : mark_at j (plan_of sys) ≡ none =
                      mark_at-none i j (plan_of sys) le e in
                    gone ∙ sym (ap finish gone)),
                (λ j lt. refl),
              ),
            ))
        | inr (step, e) ↦ subst (LoopEnded i (plan_of sys)) (sym (loop-some left i sys step e)) (
            go_on-LoopEnded i (plan_of sys) (process_step orchestrator helpers setting i step sys)
              (rest_of left i) (process_step-Went orchestrator helpers setting i step sys e)
              (λ s other.
                let next = get_elem? (plan_of s) i in
                let followed = follow_completed orchestrator helpers setting i next s in
                let alike = follow_completed-Alike orchestrator helpers setting i next s in
                LoopEnded-Alike (suc i) (plan_of s) (plan_of followed) (rest_of left i s) alike (
                  recur followed (λ j le.
                    alike j ∙ other j (λ h. absurd (omega arith)) ∙ enough j (omega arith)))))
      ]
