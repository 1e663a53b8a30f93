-- ===== src/Services/Decision.antt =====
-- services/ExecutionDecisionService.ts: whether a plan runs without asking the user.
use app_intent_system_orches.Base.{
  ℕ, ◌≡◌, inl, inr, refl, String, Bool, true, false, ◌&&◌, ◌||◌, not, Option, none, some, List, [],
  ◌∷◌, length, any, map, includes, ltb, ◌==◌, nat_eq, string_eq, to_lower_case, text_includes,
  if◌then◌else◌, arith, Bool-cases,
}

pub record Decision : Type 0 where
  pub should_auto_execute : Bool
  pub reason : String
  pub needs_user_input : Bool
  pub needs_confirmation : Bool

pub record PlanAnalysis : Type 0 where
  pub action_count : ℕ
  pub has_missing_params : Bool
  pub is_single_cache_tool : Bool
  pub is_destructive : Bool
  pub tool_names : List String

pub record PlannedAction : Type 0 where
  pub name : String
  pub status : Option String

abbrev pub read_only_tools : List String
read_only_tools =
    "fetch_emails" ∷ "fetch_calendar_events" ∷ "fetch_entity" ∷ "fetch_outlook_entity"
    ∷ "fetch_outlook_event_body" ∷ "fetch_notion_page" ∷ []

abbrev pub destructive_keywords : List String
destructive_keywords = "delete" ∷ "remove" ∷ "drop" ∷ "destroy" ∷ "purge" ∷ "wipe" ∷ []

unfoldable pub should_auto_execute : PlanAnalysis → Decision
should_auto_execute plan =
    if plan.is_destructive
    then record {
      should_auto_execute = false;
      reason = "Destructive action requires user confirmation";
      needs_user_input = false;
      needs_confirmation = true;
    }
    else if plan.has_missing_params
    then record {
      should_auto_execute = false;
      reason = "Missing required parameters";
      needs_user_input = true;
      needs_confirmation = false;
    }
    else if plan.action_count == 1 && plan.is_single_cache_tool
    then record {
      should_auto_execute = true;
      reason = "Single read-only cache fetch";
      needs_user_input = false;
      needs_confirmation = false;
    }
    else if ltb 1 plan.action_count
    then record {
      should_auto_execute = false;
      reason = "Multi-step plan requires confirmation";
      needs_user_input = false;
      needs_confirmation = true;
    }
    else record {
      should_auto_execute = false;
      reason = "Single action requires confirmation";
      needs_user_input = false;
      needs_confirmation = true;
    }

unfoldable pub is_read_only_tool : String → Bool
is_read_only_tool name = includes read_only_tools name

unfoldable pub is_destructive_tool : String → Bool
unfolding to_lower_case
is_destructive_tool name =
    let lower = to_lower_case name in any (text_includes lower) destructive_keywords

-- a.status === 'collecting_parameters'
abbrev pub is_collecting : PlannedAction → Bool
is_collecting a = elim a.status [ none ↦ false | some status ↦ status == "collecting_parameters" ]

abbrev single_read_only : List PlannedAction → Bool
single_read_only (a ∷ []) = is_read_only_tool a.name
single_read_only _ = false

unfoldable pub analyze_plan : List PlannedAction → PlanAnalysis
analyze_plan actions = record {
  action_count = length actions;
  has_missing_params = any is_collecting actions;
  is_single_cache_tool = single_read_only actions;
  is_destructive = any (λ a. is_destructive_tool a.name) actions;
  tool_names = map (λ a. a.name) actions;
}

-- `is_only p actions`: there is one action, and it has the property.
abbrev pub is_only : (PlannedAction → Bool) → List PlannedAction → Bool
is_only p (a ∷ []) = p a
is_only p _ = false

-- A tool that only reads, whose name holds no destructive word, with all its parameters.
abbrev pub is_harmless : PlannedAction → Bool
is_harmless a =
    is_read_only_tool a.name && not (is_destructive_tool a.name) && not (is_collecting a)

-- A plan is run without asking exactly if it is one action, with a tool that only reads, whose name
-- holds no destructive word and which is not collecting parameters.
pub should_auto_execute-is_only :
    (actions : List PlannedAction)
    → (should_auto_execute (analyze_plan actions)).should_auto_execute ≡ is_only is_harmless actions
unfolding should_auto_execute analyze_plan
should_auto_execute-is_only [] = refl
should_auto_execute-is_only (a ∷ []) = elim (Bool-cases (is_destructive_tool a.name)) [
  | inl e ↦ rw e (ground arith)
  | inr e ↦ rw e (ground arith)
]
should_auto_execute-is_only (a ∷ b ∷ rest) = ground arith

-- Exactly one of three things is decided: run the plan, ask for parameters, or ask for confirmation.
-- A destructive plan is always confirmed, whatever it lacks; any other plan that lacks parameters
-- asks for them; and a plan of two actions or more never runs without asking.
pub should_auto_execute_cases :
    (plan : PlanAnalysis)
    → let d = should_auto_execute plan in
      (d.needs_confirmation ≡ not (d.should_auto_execute || d.needs_user_input))
      × (d.needs_user_input ≡ plan.has_missing_params && not plan.is_destructive)
      × (d.should_auto_execute
          ≡ plan.action_count == 1
            && plan.is_single_cache_tool
            && not plan.has_missing_params
            && not plan.is_destructive)
unfolding should_auto_execute
should_auto_execute_cases plan = ground arith
