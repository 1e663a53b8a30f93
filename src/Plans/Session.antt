-- ===== src/Plans/Session.antt =====
-- What the executor of plans works on, and services/PlannerService.ts: streamStepAnnouncement and
-- streamStepCompletion. The text of a prompt is left out: a prompt is what it is made from.
use app_intent_system_orches.Base.{
  ℕ, String, Bool, Option, none, some, List, [], ◌∷◌, ◌++◌, is_empty, concat, lookup_text,
  replace_char, if◌then◌else◌,
}
use app_intent_system_orches.Js.{Value, stringify}
use app_intent_system_orches.Services.Runs.{PlanRun, Step}
use app_intent_system_orches.Catalog.Config.{Categories, SchemaChecker, text_or}
use app_intent_system_orches.Plans.Launcher.{Launcher, spaced}

-- What the client of a session is sent.
pub data Chunk : Type 0 where
  run_updated : PlanRun → Chunk
  failure : (content message_id : String) → Chunk
  stream_start : (message_id : String) → Chunk
  streaming : (segment message_id : String) → Chunk
  stream_end : (message_id : String) → Chunk

-- `resolved` says whether results of earlier steps were put into the arguments.
pub data Prompt : Type 0 where
  announcement : (tool : String) → (arguments : Value) → (resolved : Bool) → Prompt
  confirmation : (tool : String) → (result : Value) → Prompt

-- The pieces of an answer of the language model, and whether it broke off with an exception.
pub record Streamed : Type 0 where
  pub pieces : List String
  pub broken : Bool

pub record FollowUp : Type 0 where
  pub summary : Option String
  pub next_arguments : Value

-- An entry of the history, as `recordToolCall` is given it.
pub record ToolCallEntry : Type 0 where
  pub tool_name : String
  pub summary : String
  pub arguments : Value
  pub result : Value
  pub succeeded : Bool
  pub step_id : Option String

-- What the executor asks of the services behind it. None of these calls changes the run.
pub record Helpers (World : Type 0) : Type 0 where
  pub uuid : World → String × World
  -- new Date().toISOString()
  pub iso_now : World → String × World
  -- llmClient.chatStream
  pub chat_stream : Prompt → World → Streamed × World
  -- The arguments that the language model proposes instead of the invalid ones, unless that throws.
  pub correct_arguments : PlanRun → ℕ → Value → (error : String) → World → Option Value × World
  -- followUpService.generateFollowUp, unless it throws
  pub generate_follow_up : PlanRun → Step → World → Option FollowUp × World
  -- historyService.recordToolCall and updateHistoryItem, whose exceptions are only logged
  pub record_tool_call : ToolCallEntry → World → World
  pub update_history : (history_id : String) → World → World

pub record Setting : Type 0 where
  pub configs : Categories
  pub check : SchemaChecker
  pub llm_fix_enabled : Bool
  pub history_id : Option String
  pub user_id : String

pub record Sys (World : Type 0) : Type 0 where
  pub run : PlanRun
  pub launcher : Launcher
  pub chunks : List Chunk
  pub world : World

abbrev friendly_names : List (String × String)
friendly_names =
    ("fetch_emails", "email fetching")
    ∷ ("sendEmail", "email sending")
    ∷ ("createCalendarEvent", "calendar event creation")
    ∷ ("updateSalesforceContact", "Salesforce update")
    ∷ ("searchContacts", "contact search")
    ∷ []

unfoldable pub get_tool_friendly_name : String → String
unfolding replace_char
get_tool_friendly_name name = text_or (lookup_text name friendly_names) (spaced name)

abbrev segments : (message_id : String) → List String → List Chunk
segments id [] = []
segments id (piece ∷ pieces) =
    if is_empty piece then segments id pieces else streaming piece id ∷ segments id pieces

-- The chunks of a message that is streamed, with a text in its place if the model breaks off.
abbrev message_chunks : (message_id fallback : String) → Streamed → List Chunk
message_chunks id fallback answer =
    stream_start id
    ∷ (segments id answer.pieces
        ++ (if answer.broken
            then stream_start id ∷ streaming fallback id ∷ stream_end id ∷ []
            else stream_end id ∷ []))

module _ {World : Type 0} where
  abbrev pub send : Chunk → Sys World → Sys World
  send chunk sys = record sys { chunks = sys.chunks ++ (chunk ∷ []) }

  -- streamManager.sendChunk(…, { type: 'run_updated', content: run })
  abbrev pub send_run : Sys World → Sys World
  send_run sys = send (run_updated sys.run) sys

  module _ (helpers : Helpers World) where
    unfoldable pub stream_message : Prompt → (fallback : String) → Sys World → Sys World
    stream_message prompt fallback sys =
        let (id, w₁) = helpers.uuid sys.world in
        let (answer, w₂) = helpers.chat_stream prompt w₁ in
        record sys { chunks = sys.chunks ++ message_chunks id fallback answer; world = w₂ }

    unfoldable pub stream_step_announcement :
        (tool : String) → (arguments : Value) → (resolved : Bool) → Sys World → Sys World
    unfolding get_tool_friendly_name
    stream_step_announcement tool args resolved sys =
        stream_message (announcement tool args resolved)
          (concat ("Executing " ∷ get_tool_friendly_name tool ∷ "..." ∷ [])) sys

    -- A result that is undefined has no JSON, and the prompt cannot be made: that throws.
    unfoldable pub stream_step_completion :
        (tool : String) → (result : Value) → Sys World → Option String × Sys World
    unfolding stringify get_tool_friendly_name
    stream_step_completion tool result sys = elim (stringify result) [
      | none ↦ (
        some "Cannot read properties of undefined (reading 'slice')",
        record sys { world = (helpers.uuid sys.world).1 },
      )
      | some json ↦ (
        none,
        stream_message (confirmation tool result)
            (concat ("✓ " ∷ get_tool_friendly_name tool ∷ " completed" ∷ [])) sys,
      )
    ]
