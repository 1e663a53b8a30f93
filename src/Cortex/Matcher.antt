-- ===== src/Cortex/Matcher.antt =====
-- cortex/matcher.ts: Matcher.
pub mod Laws
use Prim.Native.String.{count}
use app_intent_system_orches.Base.{
  ℕ, zero, suc, String, Bool, true, false, Option, none, some, List, [], ◌∷◌, ◌++◌, any, map, ◌==◌,
  string_eq, Result, ok, err, is_empty, to_lower_case, text_includes, trim, slice_text, lookup_text,
  if◌then◌else◌,
}
use app_intent_system_orches.Js.{Value, object, fields, render}
use app_intent_system_orches.Cortex.Types.{
  Event, SimpleTrigger, event, schedule, Trigger, simple, compound, Condition, eval, semantic,
  other, Automation, Run, pending, is_active,
}
use app_intent_system_orches.Cortex.Redis.{Redis}
use app_intent_system_orches.Cortex.World.{Outside}
use app_intent_system_orches.Cortex.Store.Tables.{Store}
use app_intent_system_orches.Cortex.Store.Units.{get_units_by_trigger}
use app_intent_system_orches.Cortex.Store.Runs.{save_run}

-- x || d for a text
abbrev pub text_or : Option String → String → String
text_or none d = d
text_or (some s) d = if is_empty s then d else s

abbrev pub prompts : List (String × String)
prompts =
    ("detect_urgency", "Is this message urgent? Reply with only \"urgent\" or \"normal\".")
    ∷ (
      "detect_sentiment",
      "What is the sentiment? Reply with only \"positive\", \"negative\", or \"neutral\".",
    )
    ∷ ("is_question", "Is this a question? Reply with only \"yes\" or \"no\".")
    ∷ ("is_request", "Is this a request for action? Reply with only \"yes\" or \"no\".")
    ∷ []

-- prompts[promptKey] || cond.prompt || 'Classify this. …'
abbrev pub system_prompt : Option String → String
system_prompt prompt = elim (lookup_text (text_or prompt "custom") prompts) [
  | some p ↦ p
  | none ↦ text_or prompt "Classify this. Reply with one word only."
]

-- The reply, trimmed and in lower case, holds one of the expected texts.
unfoldable pub meets : List String → Option String → Bool
unfolding to_lower_case trim
meets expect content =
    let result = to_lower_case (trim (text_or content "")) in
    any (λ e. text_includes result (to_lower_case e)) expect

-- What `match` leaves behind, also where it throws.
pub record Matched (outside : Outside) (redis : Redis) : Type 0 where
  pub result : Result (List Run)
  pub store : Store redis
  pub world : outside.World

module _ (outside : Outside) where
  open outside use {World, now, run_id, chat, eval_expr}

  abbrev pub passes_filter : Trigger → Value → Bool
  passes_filter (simple (event source name (some filter))) payload =
      if is_empty filter then true else eval_expr filter payload
  passes_filter (simple (event source name none)) payload = true
  passes_filter (simple (schedule cron timezone)) payload = true
  passes_filter (compound any_of all_of) payload = true

  unfoldable pub eval_semantic :
      Option String → Option String → List String → Value → World → Result Bool × World
  unfolding meets
  eval_semantic prompt input expect payload w =
      let text =
        render (object (("payload", payload) ∷ [])) (text_or input "{{payload.body_text}}") in
      let (reply, w') =
        chat
          (record {
            model = "llama-3.1-8b-instant";
            messages =
                record { role = "system"; content = system_prompt prompt }
                ∷ record { role = "user"; content = slice_text 2000 text }
                ∷ [];
            max_tokens = 10;
          })
          w in
      elim reply [ ok content ↦ (ok (meets expect content), w') | err e ↦ (err e, w') ]

  unfoldable pub eval_condition : Condition → Value → World → Result Bool × World
  unfolding eval_semantic
  eval_condition (eval expr) payload w = (ok (eval_expr expr payload), w)
  eval_condition (semantic prompt input expect) payload w =
      eval_semantic prompt input expect payload w
  eval_condition other payload w = (ok true, w)

  -- The loop over the conditions: it ends at the first that does not hold.
  unfoldable pub eval_all : List Condition → Value → World → Result Bool × World
  unfolding eval_condition
  eval_all [] payload w = (ok true, w)
  eval_all (c ∷ cs) payload w =
      let (result, w') = eval_condition c payload w in
      elim result [
        | ok true ↦ eval_all cs payload w'
        | ok false ↦ (ok false, w')
        | err e ↦ (err e, w')
      ]

  unfoldable pub evaluate : Automation → Value → World → Result Bool × World
  unfolding eval_all
  evaluate unit payload w =
      if passes_filter unit.when payload then eval_all unit.conditions payload w else (ok false, w)

  unfoldable pub create_run : Automation → Event → World → Run × World
  create_run unit e w =
      let (id, w₁) = run_id w in
      let (started, w₂) = now w₁ in
      (
        record {
          id = id;
          unit_id = unit.id;
          event_id = e.id;
          user_id = e.user_id;
          status = pending;
          step = 0;
          context = fields (("payload", e.payload) ∷ []);
          started_at = started;
          completed_at = none;
          resume_at = none;
          error = none;
        },
        w₂,
      )

  module _ {redis : Redis} where
    -- The loop over the units; `runs` are those created so far.
    unfoldable pub match_units :
        Event → List Automation → List Run → Store redis → World → Matched outside redis
    match_units e [] runs s w = record { result = ok runs; store = s; world = w }
    match_units e (unit ∷ units) runs s w = elim (is_active unit.status) [
      | false ↦ match_units e units runs s w
      | true ↦
          let (pass, w₁) = evaluate unit e.payload w in
          elim pass [
            | err message ↦ record { result = err message; store = s; world = w₁ }
            | ok false ↦ match_units e units runs s w₁
            | ok true ↦
                let (run, w₂) = create_run unit e w₁ in
                elim (save_run run (some e.payload) s) [
                  | err message ↦ record { result = err message; store = s; world = w₂ }
                  | ok s' ↦ match_units e units (runs ++ run ∷ []) s' w₂
                ]
          ]
    ]

    unfoldable pub match : Event → Store redis → World → Matched outside redis
    unfolding match_units get_units_by_trigger
    match e s w = match_units e (get_units_by_trigger e.source e.event s) [] s w
