-- ===== src/Services/Runs/Recording.antt =====
-- services/tool/RunManager.ts: what recording the results of the tools does to the plan.
use app_intent_system_orches.Base.{
  ℕ, suc, ◌≡◌, inl, inr, refl, sym, ap, subst, ◌∙◌, String, Bool, true, false, ◌||◌, string_eq,
  eq_iff, none, some, List, [], ◌∷◌, every, includes, arith, Bool-cases,
}
use app_intent_system_orches.Services.Runs.{
  Step, PlanRun, ToolResult, has_result, call_is, has_call, update_first, find_index, update_at,
  finish, add_tool_result, record_tool_result,
}

update_found :
    (id : String) (f : Step → Step) (steps : List Step)
    → has_call id steps ≡ true
    → (i : ℕ) × (find_index id steps ≡ some i) × (update_at i f steps ≡ update_first id f steps)
update_found id f [] h = absurd (ground arith)
update_found id f (step ∷ steps) h = elim (Bool-cases (call_is id step)) [
  | inl e ↦ (0, rw e refl, rw e refl)
  | inr e ↦
      let (i, found, same) = update_found id f steps (rw e at h) in
      (suc i, rw (e, found) refl, rw (e, same) refl)
]

missing : (id : String) (steps : List Step) → has_call id steps ≡ false → find_index id steps ≡ none
missing id [] h = refl
missing id (step ∷ steps) h = elim (Bool-cases (call_is id step)) [
  | inl e ↦ absurd (ground arith)
  | inr e ↦ rw (e, missing id steps (rw e at h)) refl
]

-- The two methods that put the result of a tool into a run do the same.
pub add_tool_result-record_tool_result :
    (now : String) (run : PlanRun) (id : String) (result : ToolResult)
    → add_tool_result now run id result ≡ record_tool_result now run id result
unfolding add_tool_result record_tool_result
add_tool_result-record_tool_result now run id result =
    elim (Bool-cases (has_call id run.tool_execution_plan)) [
      | inl e ↦
          let (i, found, same) = update_found id (finish now result) run.tool_execution_plan e in
          rw (e, found, add_tool_result) (rw same refl)
      | inr e ↦ rw (e, missing id run.tool_execution_plan e, add_tool_result) refl
    ]

-- No two steps have the same call id.
abbrev pub IsUnique : List Step → Type 0
IsUnique [] = Unit
IsUnique (step ∷ steps) = (has_call step.tool_call.id steps ≡ false) × IsUnique steps

has_call-update_first :
    (j id : String) (now : String) (r : ToolResult) (steps : List Step)
    → has_call j (update_first id (finish now r) steps) ≡ has_call j steps
has_call-update_first j id now r [] = refl
has_call-update_first j id now r (step ∷ steps) =
    ground (arith, has_call-update_first j id now r steps)

update_first-IsUnique :
    (id : String) (now : String) (r : ToolResult) (steps : List Step)
    → IsUnique steps
    → IsUnique (update_first id (finish now r) steps)
update_first-IsUnique id now r [] h = tt
update_first-IsUnique id now r (step ∷ steps) h = elim (Bool-cases (call_is id step)) [
  | inl e ↦ rw e h
  | inr e ↦ rw e (
    rw (has_call-update_first step.tool_call.id id now r steps) h.0,
    update_first-IsUnique id now r steps h.1,
  )
]

-- The step has a result, or its call is among the ids.
abbrev pub is_answered : List String → Step → Bool
is_answered ids step = has_result step || includes ids step.tool_call.id

answered_elsewhere :
    (id : String) (ids : List String) (steps : List Step)
    → has_call id steps ≡ false
    → every (is_answered (id ∷ ids)) steps ≡ every (is_answered ids) steps
answered_elsewhere id ids [] h = refl
answered_elsewhere id ids (step ∷ steps) h = ground (
  arith,
  answered_elsewhere id ids steps,
  eq_iff id step.tool_call.id,
  eq_iff step.tool_call.id id,
)

update_first_answers :
    (id : String) (ids : List String) (now : String) (r : ToolResult) (steps : List Step)
    → IsUnique steps
    → every (is_answered ids) (update_first id (finish now r) steps)
      ≡ every (is_answered (id ∷ ids)) steps
update_first_answers id ids now r [] h = refl
update_first_answers id ids now r (step ∷ steps) h = ground (
  arith,
  update_first_answers id ids now r steps h.1,
  answered_elsewhere id ids steps,
  eq_iff id step.tool_call.id,
  eq_iff step.tool_call.id id,
)

-- Results recorded one after the other, each at its time.
unfoldable pub record_all : List (String × String × ToolResult) → PlanRun → PlanRun
record_all [] run = run
record_all ((now, id, r) ∷ rs) run = record_all rs (record_tool_result now run id r)

abbrev pub ids_of : List (String × String × ToolResult) → List String
ids_of [] = []
ids_of ((now, id, r) ∷ rs) = id ∷ ids_of rs

not_called :
    (id : String) (f : Step → Step) (steps : List Step)
    → has_call id steps ≡ false
    → steps ≡ update_first id f steps
not_called id f [] h = refl
not_called id f (step ∷ steps) h = ground (arith, not_called id f steps)

record_plan :
    (now : String) (run : PlanRun) (id : String) (r : ToolResult)
    → (record_tool_result now run id r).tool_execution_plan
      ≡ update_first id (finish now r) run.tool_execution_plan
unfolding record_tool_result
record_plan now run id r = elim (Bool-cases (has_call id run.tool_execution_plan)) [
  | inl e ↦ rw (e, record_tool_result) refl
  | inr e ↦ rw (e, record_tool_result) (not_called id _ run.tool_execution_plan e)
]

no_ids : (steps : List Step) → every has_result steps ≡ every (is_answered []) steps
no_ids [] = refl
no_ids (step ∷ steps) = ground (arith, no_ids steps)

-- In a plan whose call ids differ, recording results, in whatever order and however often, answers
-- exactly the calls that the results name: all steps have a result afterwards if and only if each
-- had one before or is named.
pub every-record_all :
    (rs : List (String × String × ToolResult)) (run : PlanRun)
    → IsUnique run.tool_execution_plan
    → every has_result (record_all rs run).tool_execution_plan
      ≡ every (is_answered (ids_of rs)) run.tool_execution_plan
unfolding record_all
every-record_all [] run h = no_ids run.tool_execution_plan
every-record_all ((now, id, r) ∷ rs) run h =
    let plan = run.tool_execution_plan in
    every-record_all rs (record_tool_result now run id r)
      (subst IsUnique (sym (record_plan now run id r)) (update_first-IsUnique id now r plan h))
    ∙ ap (every (is_answered (ids_of rs))) (record_plan now run id r)
    ∙ update_first_answers id (ids_of rs) now r plan h
