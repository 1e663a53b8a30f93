-- ===== src/Orchestration/Fallback.antt =====
-- services/tool/ToolOrchestrator.ts: the end of executeCacheTool, from the filtered records on.
pub mod Reached
use app_intent_system_orches.Base.{
  ℕ, String, Option, none, some, List, [], ◌∷◌, length, ◌==◌, string_eq, concat, if◌then◌else◌,
}
use app_intent_system_orches.Js.{Value, str, get, ◌or_else◌, to_text, stringify}
use app_intent_system_orches.Orchestration.Samples.{sample_entities, sample_emails}
use app_intent_system_orches.Orchestration.Demo.{demo_fallback_data, demo_emails}

pub record CacheAnswer : Type 0 where
  pub records : List Value
  pub total : ℕ
  pub source : String
  pub next_cursor : Value
  pub note : Option String

-- if (filteredRecords.length === 0) filteredRecords = …
unfoldable pub with_samples : (tool : String) → (filtered : List Value) → List Value
with_samples tool [] =
    if tool == "fetch_entity"
    then sample_entities
    else if tool == "fetch_emails"
    then sample_emails
    else []
with_samples tool (r ∷ rs) = r ∷ rs

-- `${JSON.stringify(v)}`
abbrev json_text : Option String → String
json_text none = "undefined"
json_text (some s) = s

unfoldable pub filter_note : (args : Value) → String
unfolding get stringify to_text
filter_note args = concat (
    "Your filter \""
    ∷ json_text (stringify (get "filters" args))
    ∷ "\" returned no matches. Showing all "
    ∷ to_text (get "entityType" args or_else str "records")
    ∷ " from cache instead."
    ∷ [])

-- if (finalRecords.length === 0 && records.length > 0) …
abbrev pub with_matched :
    (args : Value) → (records filtered : List Value) → List Value × Option String
with_matched args records (r ∷ rs) = (r ∷ rs, none)
with_matched args [] [] = ([], none)
with_matched args (r ∷ rs) [] = (r ∷ rs, some (filter_note args))

-- if (finalRecords.length === 0) …
unfoldable pub with_demo :
    (tool : String) → (args : Value) → List Value × Option String → List Value × Option String
unfolding get to_text
with_demo tool args (r ∷ rs, note) = (r ∷ rs, note)
with_demo tool args ([], note) =
    if tool == "fetch_entity"
    then (
      demo_fallback_data (to_text (get "entityType" args or_else str "Account")),
      some "No cached data found. Showing demo data for demonstration purposes.",
    )
    else if tool == "fetch_emails"
    then (demo_emails, some "No cached emails found. Showing demo data for demonstration purposes.")
    else ([], note)

-- `records` are those of the entity type, `filtered` those of them that pass the filters.
unfoldable pub cache_answer :
    (tool : String)
    → (args : Value) → (records filtered : List Value) → (cursor : Value) → CacheAnswer
unfolding with_samples with_demo filter_note
cache_answer tool args records filtered cursor =
    let (final, note) =
      with_demo tool args (with_matched args records (with_samples tool filtered)) in
    record {
      records = final;
      total = length final;
      source = "cache";
      next_cursor = cursor;
      note = note;
    }
