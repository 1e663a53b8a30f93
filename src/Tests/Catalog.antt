-- ===== src/Tests/Catalog.antt =====
-- The theorems on the catalogue of tools at concrete inputs.
use app_intent_system_orches.Base.{
  ℕ, ◌+◌, ◌*◌, ◌≡◌, refl, String, true, Option, none, some, List, [], ◌∷◌, map, ◌==◌, string_eq,
  if◌then◌else◌,
}
use app_intent_system_orches.Catalog.Config.{Categories, ToolConfig, ToolEntry, tool_of}
use app_intent_system_orches.Catalog.Access.{ToolCache, get_available_tools_for_user, cache_key}
use app_intent_system_orches.Catalog.Access.Caching.{
  Call, asks, invalidates, follow_calls, remembered, Memory, alive, or_fresh, usable_tools,
  get_available_tools-remembered,
}
use app_intent_system_orches.Cortex.Shaper.Webhook.{Connection}

abbrev entry : (name provider : String) → (category : Option String) → ToolEntry
entry name provider category = record {
  name = name;
  description = "";
  category = category;
  display_name = none;
  provider_config_key = some provider;
  parameters = none;
  source = none;
  cache_model = none;
}

abbrev entries : List ToolEntry
entries =
    entry "send_email" "google-mail-ynxw" (some "Email")
    ∷ entry "create_entity" "salesforce-2" none
    ∷ entry "fetch_emails" "google-mail-ynxw" (some "Email")
    ∷ []

-- A cache that is an association list, where what is written later stands before, with the times until
-- which it is kept.
abbrev Entries : Type 0
Entries = List (String × Memory)

abbrev look : (now : ℕ) → Entries → String → Option (List ToolConfig)
look now [] j = none
look now ((k, memory) ∷ d) j = if k == j then alive now memory else look now d j

abbrev listed_cache : ToolCache
listed_cache = record {
  Data = Entries;
  get = look;
  setex = λ now d k ttl v. (k, some (v, now + 1000 * ttl)) ∷ d;
  del = λ d k. (k, none) ∷ d;
  get-setex = λ t now d k ttl v j. refl;
  get-del = λ t d k j. refl;
}

abbrev catalogue : Categories
catalogue = ("Email", map tool_of entries) ∷ []

abbrev connection : (user_id provider : String) → Connection
connection user_id provider = record {
  id = "1";
  user_id = user_id;
  provider = provider;
  connection_id = "c";
  enabled = true;
  last_poll_at = none;
  error_count = 0;
  last_error = none;
}

abbrev calls : List Call
calls =
    asks 1000 "u" (connection "u" "gmail" ∷ [])
    ∷ invalidates "v"
    ∷ asks 2000 "u" (connection "u" "salesforce" ∷ [])
    ∷ []

get_available_tools-remembered_example :
    (get_available_tools_for_user listed_cache catalogue [] 300000 "u"
      (follow_calls listed_cache catalogue calls [])).0
    ≡ or_fresh
        (alive 300000 (remembered catalogue (cache_key "u") calls none))
        (usable_tools catalogue "u" [])
get_available_tools-remembered_example =
    get_available_tools-remembered listed_cache catalogue calls [] 300000 "u" [] (λ t. refl)
