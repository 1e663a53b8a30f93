-- ===== src/Cortex/Runtime/Steps.antt =====
-- cortex/runtime.ts: executeAction and what it calls.
use Prim.Native.Char.{Char, code}
use app_intent_system_orches.Base.{
  ℕ, ◌+◌, ◌-◌, ◌*◌, String, Bool, ◌&&◌, Option, none, some, List, [], ◌∷◌, ◌==◌, nat_eq, leb,
  Result, ok, err, concat, lookup_text, if◌then◌else◌,
}
use app_intent_system_orches.Js.{Value, undefined, str, obj, stringify, resolve_args}
use app_intent_system_orches.Cortex.Types.{Action, llm, tool, wait, Run}
use app_intent_system_orches.Cortex.World.{Outside}

abbrev pub is_digit : Char → Bool
is_digit c = leb b'0' (code c) && leb (code c) b'9'

-- The milliseconds of a unit of time: m, h, d or w, then the end of the text.
abbrev pub unit_ms : Char → Option ℕ
unit_ms c =
    if code c == b'm'
    then some (60 * 1000)
    else if code c == b'h'
    then some (60 * 60 * 1000)
    else if code c == b'd'
    then some (24 * 60 * 60 * 1000)
    else if code c == b'w'
    then some (7 * 24 * 60 * 60 * 1000)
    else none

abbrev times : Option ℕ → ℕ → ℕ
times none n = 0
times (some ms) n = n * ms

-- The digits read so far and their value, if there is one.
unfoldable pub duration_from : Option ℕ → String → ℕ
duration_from read String.[] = 0
duration_from read (String.◌∷◌ c s) =
    let digit = code c - b'0' in
    let longer =
      duration_from (elim read [ none ↦ some digit | some n ↦ some (n * 10 + digit) ]) s in
    if is_digit c then longer else elim read [
      | none ↦ 0
      | some n ↦ elim s [ String.[] ↦ times (unit_ms c) n | String.◌∷◌ d t ↦ 0 ]
    ]

-- /^(\d+)(m|h|d|w)$/, and 0 for any other text
unfoldable pub parse_duration : String → ℕ
unfolding duration_from
parse_duration duration = duration_from none duration

abbrev pub prompt_heads : List (String × String)
prompt_heads =
    ("summarize", "Summarize this concisely in 2-3 sentences")
    ∷ ("draft_reply", "Draft a professional, friendly reply to this email")
    ∷ ("extract_action_items", "List the action items from this text as bullet points")
    ∷ ("analyze_sentiment", "Analyze the sentiment and key points")
    ∷ []

unfoldable pub user_prompt : String → Value → String
unfolding stringify
user_prompt prompt input =
    let head : String = elim (lookup_text prompt prompt_heads) [ none ↦ prompt | some h ↦ h ] in
    let text : String = elim (stringify input) [ none ↦ "undefined" | some t ↦ t ] in
    concat (head ∷ ":\n\n" ∷ text ∷ [])

-- The object that executeAction returns: a time to resume at for a wait, else a value to store.
pub record StepResult : Type 0 where
  pub wait_until : Option ℕ
  pub store_as : Option String
  pub value : Value

-- response.choices[0]?.message?.content || ''
abbrev pub content_or_empty : Option String → String
content_or_empty none = ""
content_or_empty (some s) = s

-- The greatest time that a Date can stand for; toISOString throws beyond it.
abbrev pub last_date : ℕ
last_date = 8640000000000000

abbrev pub wait_result : ℕ → Result StepResult
wait_result time =
    if leb time last_date
    then ok (record { wait_until = some time; store_as = none; value = undefined })
    else err "Invalid time value"

module _ (outside : Outside) where
  open outside use {World, now, chat, execute_tool}

  unfoldable pub call_llm : String → Value → World → Result String × World
  unfolding user_prompt
  call_llm prompt input w =
      let (reply, w') =
        chat
          (record {
            model = "llama-3.3-70b-versatile";
            messages = record { role = "user"; content = user_prompt prompt input } ∷ [];
            max_tokens = 1000;
          })
          w in
      elim reply [ ok content ↦ (ok (content_or_empty content), w') | err e ↦ (err e, w') ]

  unfoldable pub execute_action : Action → Run → World → Result StepResult × World
  unfolding call_llm resolve_args parse_duration
  execute_action (wait duration) run w =
      let (time, w') = now w in (wait_result (time + parse_duration duration), w')
  execute_action (llm prompt input store_as) run w =
      let (reply, w') = call_llm prompt (resolve_args (obj run.context) input) w in
      elim reply [
        | ok text ↦ (ok (record { wait_until = none; store_as = store_as; value = str text }), w')
        | err e ↦ (err e, w')
      ]
  execute_action (tool name args store_as) run w =
      let (reply, w') = execute_tool name (resolve_args (obj run.context) args) run.user_id w in
      elim reply [
        | ok data_value ↦
            (ok (record { wait_until = none; store_as = store_as; value = data_value }), w')
        | err e ↦ (err e, w')
      ]
  execute_action _ run w =
      (ok (record { wait_until = none; store_as = none; value = undefined }), w)
