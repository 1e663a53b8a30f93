-- ===== src/Cortex/World.antt =====
-- What the cortex modules ask of the outside: the clock, random ids, the language model (groq-sdk),
-- the tools behind the interface ToolExecutor, and the evaluation of an expression given as text
-- (`new Function`). The answers may depend on all that was asked before.
use app_intent_system_orches.Base.{ℕ, String, Bool, Option, List, Result}
use app_intent_system_orches.Js.{Value}

-- A message: its role and its content.
pub record Message : Type 0 where
  pub role : String
  pub content : String

pub record ChatRequest : Type 0 where
  pub model : String
  pub messages : List Message
  pub max_tokens : ℕ

pub record Outside : Type 1 where
  pub World : Type 0
  -- Date.now()
  pub now : World → ℕ × World
  -- `run_${Date.now().toString(36)}_${Math.random().toString(36).slice(2, 6)}`
  pub run_id : World → String × World
  -- groq.chat.completions.create, up to `response.choices[0]?.message?.content`
  pub chat : ChatRequest → World → Result (Option String) × World
  -- tools.execute(tool, args, userId)
  pub execute_tool : String → Value → String → World → Result Value × World
  -- Boolean(expr) with `payload` in scope, false if it throws or is no expression; a function of both:
  -- expressions are taken to read no clock and to leave the payload as it is
  pub eval_expr : String → Value → Bool
