-- ===== src/Cortex/Tools.antt =====
-- cortex/tools.ts: CortexToolExecutor, the tools of the runtime on top of the tool orchestrator.
pub mod Laws
use app_intent_system_orches.Base.{
  ℕ, String, Bool, true, false, Option, none, some, List, [], ◌∷◌, concat, show_nat, lookup_text,
  is_empty, Result, ok, err, if◌then◌else◌,
}
use app_intent_system_orches.Js.{Value, object}
use app_intent_system_orches.Services.Runs.{ResultStatus, ToolResult, ToolCall}

-- A tool of the orchestrator and its provider.
pub record Target : Type 0 where
  pub name : String
  pub provider : String

abbrev to : String → String → Target
to name provider = record { name = name; provider = provider }

abbrev salesforce : String → Target
salesforce name = to name "salesforce-ybzg"

abbrev pub mapping : List (String × Target)
mapping =
    ("gmail.send", to "send_email" "google-mail")
    ∷ ("gmail.reply", to "send_email" "google-mail")
    ∷ ("gmail.fetch", to "fetch_emails" "google-mail")
    ∷ ("email.send", to "send_email" "google-mail")
    ∷ ("email.fetch", to "fetch_emails" "google-mail")
    ∷ ("calendar.create", to "create_calendar_event" "google-calendar")
    ∷ ("calendar.create_event", to "create_calendar_event" "google-calendar")
    ∷ ("calendar.update", to "update_calendar_event" "google-calendar")
    ∷ ("calendar.update_event", to "update_calendar_event" "google-calendar")
    ∷ ("calendar.fetch", to "fetch_calendar_events" "google-calendar")
    ∷ ("calendar.fetch_events", to "fetch_calendar_events" "google-calendar")
    ∷ ("salesforce.create_lead", salesforce "create_entity")
    ∷ ("salesforce.create_contact", salesforce "create_entity")
    ∷ ("salesforce.create_account", salesforce "create_entity")
    ∷ ("salesforce.create_opportunity", salesforce "create_entity")
    ∷ ("salesforce.create_case", salesforce "create_entity")
    ∷ ("salesforce.create_task", salesforce "create_entity")
    ∷ ("salesforce.update_lead", salesforce "update_entity")
    ∷ ("salesforce.update_contact", salesforce "update_entity")
    ∷ ("salesforce.update_account", salesforce "update_entity")
    ∷ ("salesforce.update_opportunity", salesforce "update_entity")
    ∷ ("salesforce.update_case", salesforce "update_entity")
    ∷ ("salesforce.fetch_lead", salesforce "fetch_entity")
    ∷ ("salesforce.fetch_contact", salesforce "fetch_entity")
    ∷ ("salesforce.fetch_account", salesforce "fetch_entity")
    ∷ ("salesforce.fetch_opportunity", salesforce "fetch_entity")
    ∷ ("salesforce.fetch_case", salesforce "fetch_entity")
    ∷ ("notion.create_page", to "create_notion_page" "notion")
    ∷ ("notion.update_page", to "update_notion_page" "notion")
    ∷ ("notion.fetch_page", to "fetch_notion_page" "notion")
    ∷ ("outlook.send_email", to "create_outlook_entity" "outlook")
    ∷ ("outlook.create_event", to "create_outlook_entity" "outlook")
    ∷ ("outlook.create_contact", to "create_outlook_entity" "outlook")
    ∷ ("outlook.update_email", to "update_outlook_entity" "outlook")
    ∷ ("outlook.update_event", to "update_outlook_entity" "outlook")
    ∷ ("outlook.update_contact", to "update_outlook_entity" "outlook")
    ∷ ("outlook.fetch_email", to "fetch_outlook_entity" "outlook")
    ∷ ("outlook.fetch_event", to "fetch_outlook_entity" "outlook")
    ∷ ("outlook.fetch_contact", to "fetch_outlook_entity" "outlook")
    ∷ ("slack.send", to "send_message" "slack")
    ∷ []

-- The orchestrator and the clock.
pub record Orchestrator : Type 1 where
  pub World : Type 0
  pub now : World → ℕ × World
  pub execute_tool : ToolCall → (plan_id step_id : String) → World → Result ToolResult × World

-- result.error || 'Tool execution failed'
abbrev pub failure_text : Option String → String
failure_text none = "Tool execution failed"
failure_text (some m) = if is_empty m then "Tool execution failed" else m

-- What the executor makes of the answer of the orchestrator.
abbrev pub outcome_of : Result ToolResult → Result Value
outcome_of (err m) = err m
outcome_of (ok result) = elim result.status [
  | ResultStatus.failed ↦ err (failure_text result.error)
  | ResultStatus.success ↦ ok result.data_value
]

abbrev pub stamped : String → ℕ → String
stamped prefix time = concat (prefix ∷ show_nat time ∷ [])

module _ (orchestrator : Orchestrator) where
  open orchestrator use {World, now, execute_tool}

  unfoldable pub execute : String → Value → String → World → Result Value × World
  unfolding show_nat
  execute tool args user_id w = elim (lookup_text tool mapping) [
    | none ↦ (err (concat ("Unknown tool: " ∷ tool ∷ [])), w)
    | some m ↦
        let (t₁, w₁) = now w in
        let (t₂, w₂) = now w₁ in
        let (t₃, w₃) = now w₂ in
        let (answer, w₄) =
          execute_tool
            (record {
              id = stamped "tool_" t₁;
              name = m.name;
              arguments = object (("input", args) ∷ []);
              session_id = "cortex-session";
              user_id = user_id;
            })
            (stamped "cortex_plan_" t₂) (stamped "cortex_step_" t₃) w₃ in
        (outcome_of answer, w₄)
  ]
