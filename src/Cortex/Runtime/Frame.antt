-- ===== src/Cortex/Runtime/Frame.antt =====
-- What an execution of cortex/runtime.ts leaves as it was, and what a rerun may do again.
use app_intent_system_orches.Base.{
  ℕ, ◌≡◌, ◌≢◌, refl, sym, ap, subst, ◌∙◌, ◌⊎◌, inl, inr, String, false, Option, none, some, OnOk,
  of_OnOk, arith, Bool-cases, Option-cases, ◌==◌, string_eq, eq_refl,
}
use app_intent_system_orches.Js.{Value, truthy}
use app_intent_system_orches.Cortex.Types.{Event, Action, Run}
use app_intent_system_orches.Cortex.Redis.{Redis}
use app_intent_system_orches.Cortex.World.{Outside}
use app_intent_system_orches.Cortex.Store.Tables.{RunRow, Store, StepStatus}
use app_intent_system_orches.Cortex.Store.Units.{has_run}
use app_intent_system_orches.Cortex.Store.Runs.{log_run_step, find_row, get_run_for_rerun}
use app_intent_system_orches.Cortex.Store.Integrity.{
  IsConsistent, Change, Changes, Changes-IsConsistent,
}
use app_intent_system_orches.Cortex.Store.Rows.{saved_row, find_row-save_run}
use app_intent_system_orches.Cortex.Runtime.Execute.{Sys, Executed, execute}
use app_intent_system_orches.Cortex.Runtime.Writes.{Write, Writes, execute-Writes}
use app_intent_system_orches.Cortex.Runtime.Resume.{Rerun, refused, ran, ran_out, rerun, rerun_of}

-- A stored row without an event payload.
abbrev Bare : Option RunRow → Type 0
Bare none = Unit
Bare (some row) = row.original_event_payload ≡ none

saved_row-Bare :
    (run : Run) (old : Option RunRow)
    → Bare old
    → (saved_row run none old).original_event_payload ≡ none
saved_row-Bare run none h = refl
saved_row-Bare run (some row) h = h

module _ {redis : Redis} where
  log_keeps_runs :
      (id : String) (i : ℕ) (a : Action) (st : StepStatus) (result : Option Value)
      (error : Option String) (s : Store redis)
      → OnOk (λ t. t.runs ≡ s.runs) (log_run_step id i a st result error s)
  unfolding log_run_step
  log_keeps_runs id i a st result error s = elim (Bool-cases (has_run id s.runs)) [
    | inl known ↦ rw known refl
    | inr dangling ↦ rw dangling tt
  ]

  pub Writes-Changes :
      (encode : Event → String) {id : String} {s t : Store redis}
      → Writes id s t
      → Changes encode s t
  Writes-Changes encode Writes.here = Changes.here
  Writes-Changes encode (Writes.next ws (Write.saves_run run same e)) =
      Changes.next (Writes-Changes encode ws) (Change.saves_run run none e)
  Writes-Changes encode {id} (Writes.next ws (Write.logs_step i a st result error e)) =
      Changes.next (Writes-Changes encode ws) (Change.logs_step id i a st result error e)

  -- The rows of other runs stay.
  pub Writes-keep_others :
      {id : String} {s t : Store redis} (j : String)
      → Writes id s t
      → (id == j) ≡ false
      → find_row j t.runs ≡ find_row j s.runs
  Writes-keep_others j Writes.here other = refl
  Writes-keep_others {id} j (Writes.next {t = u} ws (Write.saves_run run same e)) other =
      let here = of_OnOk _ _ (find_row-save_run run none u j) e in
      (rw (same, other) at here) ∙ Writes-keep_others j ws other
  Writes-keep_others {id} j (Writes.next {t = u} ws (Write.logs_step i a st result error e)) other =
      ap (find_row j) (of_OnOk _ _ (log_keeps_runs id i a st result error u) e)
      ∙ Writes-keep_others j ws other

  Writes-Bare :
      {id : String} {s t : Store redis}
      → Writes id s t
      → find_row id s.runs ≡ none
      → Bare (find_row id t.runs)
  Writes-Bare Writes.here h = rw h tt
  Writes-Bare {id} (Writes.next {t = u} ws (Write.saves_run run same e)) h =
      let here = of_OnOk _ _ (find_row-save_run run none u id) e in
      let kept = subst (λ k. Bare (find_row k u.runs)) (sym same) (Writes-Bare ws h) in
      subst Bare (sym (rw (ap (λ k. k == id) same ∙ eq_refl id) at here))
        (saved_row-Bare run (find_row run.id u.runs) kept)
  Writes-Bare {id} (Writes.next {t = u} ws (Write.logs_step i a st result error e)) h =
      subst Bare (sym (ap (find_row id) (of_OnOk _ _ (log_keeps_runs id i a st result error u) e)))
        (Writes-Bare ws h)

-- An execution leaves the rows of all other runs as they are and the tables consistent, whatever the
-- outside answers and whether it throws or not.
pub execute_keeps :
    {outside : Outside} {redis : Redis} (sys : Sys outside redis) {x : Executed outside redis}
    (j : String)
    → execute sys ≡ some x
    → IsConsistent sys.store
    → (sys.run.id == j) ≡ false
    → (find_row j x.sys.store.runs ≡ find_row j sys.store.runs) × IsConsistent x.sys.store
execute_keeps sys j executed consistent other =
    let (same, writes) = execute-Writes sys executed in
    (
      Writes-keep_others j writes other,
      Changes-IsConsistent consistent (Writes-Changes (λ e. "") writes),
    )

module _ {outside : Outside} {redis : Redis} where
  Bare-is_refused :
      (id : String) (s : Store redis) (w : outside.World)
      → Bare (find_row id s.runs)
      → rerun {outside = outside} id s w ≡ some refused
  unfolding rerun get_run_for_rerun
  Bare-is_refused id s w h = elim (Option-cases (find_row id s.runs)) [
    | inl e ↦ rw (e, rerun) refl
    | inr (row, e) ↦
        let bare : row.original_event_payload ≡ none = rw e at h in rw (e, rerun) (rw bare refl)
  ]

  -- A rerun is refused, or it executes a new run on the store.
  rerun_executes :
      (id : String) (s : Store redis) (w : outside.World)
      → (rerun {outside = outside} id s w ≡ some refused)
        ⊎ ((sys : Sys outside redis) × (sys.store ≡ s) × (rerun id s w ≡ ran_out (execute sys)))
  unfolding rerun get_run_for_rerun
  rerun_executes id s w = elim (Option-cases (find_row id s.runs)) [
    | inl e ↦ inl (rw (e, rerun) refl)
    | inr (row, e) ↦ elim (Option-cases row.original_event_payload) [
      | inl f ↦ inl (rw (e, rerun) (rw f refl))
      | inr (v, f) ↦ elim (Bool-cases (truthy v)) [
        | inr g ↦ inl (rw (e, rerun) (rw f (rw g refl)))
        | inl g ↦
            let (new_run, w') = rerun_of outside row.run v w in
            inr (
              record { run = new_run; store = s; world = w' },
              refl,
              rw (e, rerun) (rw f (rw g refl)),
            )
      ]
    ]
  ]

  of_ran_out :
      (o : Option (Executed outside redis)) (x : Executed outside redis)
      → ran_out o ≡ some (ran x)
      → o ≡ some x
  of_ran_out none x h = absurd (ground arith)
  of_ran_out (some y) x h = cc

  refused_not_ran :
      (x : Executed outside redis) (o : Option (Rerun outside redis))
      → o ≡ some refused
      → o ≢ some (ran x)
  refused_not_ran x o e h = ground arith

-- A run that a rerun made cannot be rerun itself: it is stored without an event payload, so that rerunning
-- it is refused.
pub rerun_once :
    {outside : Outside} {redis : Redis} (id : String) (s : Store redis) (w w' : outside.World)
    {x : Executed outside redis}
    → rerun id s w ≡ some (ran x)
    → find_row x.sys.run.id s.runs ≡ none
    → rerun {outside = outside} x.sys.run.id x.sys.store w' ≡ some refused
rerun_once {outside} id s w w' {x} again fresh = elim (rerun_executes {outside = outside} id s w) [
  | inl e ↦ absurd (refused_not_ran x _ e again)
  | inr (sys, e, f) ↦
      let executed = of_ran_out (execute sys) x (sym f ∙ again) in
      let (same, writes) = execute-Writes sys executed in
      Bare-is_refused x.sys.run.id x.sys.store w' (
        subst (λ k. Bare (find_row k x.sys.store.runs)) (sym same)
          (Writes-Bare writes (rw (same, ← e) at fresh)))
]
