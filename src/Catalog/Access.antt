-- ===== src/Catalog/Access.antt =====
-- services/tool/ProviderAwareToolFilter.ts with services/tool/providerAliases.ts and the cache of
-- services/tool/UserToolCacheService.ts. A set is the list of its members in the order of their
-- insertion. The table of connections is that of the poller and of the webhooks.
pub mod Laws
pub mod Caching
use app_intent_system_orches.Base.{
  ℕ, ◌+◌, ◌*◌, ltb, ◌≡◌, String, Bool, true, false, not, ◌&&◌, Option, none, some, List, [], ◌∷◌,
  ◌++◌, any, keep, map, includes, ◌==◌, string_eq, is_empty, concat, if◌then◌else◌,
}
use app_intent_system_orches.Cortex.Shaper.Webhook.{Connection}
use app_intent_system_orches.Catalog.Config.{
  ToolConfig, Categories, get_all_tools, find_tool, normalized,
}

abbrev pub equivalence_groups : List (List String)
equivalence_groups =
    ("google-mail-ynxw" ∷ "google-mail" ∷ "gmail" ∷ [])
    ∷ ("salesforce-ybzg" ∷ "salesforce-2" ∷ "salesforce" ∷ [])
    ∷ []

-- The groups are in lower case as they stand.
unfoldable pub chain_in : List (List String) → String → List String
chain_in [] key = key ∷ []
chain_in (group ∷ groups) key = if includes group key then group else chain_in groups key

unfoldable pub get_canonical_provider_chain : String → List String
unfolding chain_in normalized
get_canonical_provider_chain provider =
    if is_empty provider then [] else chain_in equivalence_groups (normalized provider)

-- Set.prototype.add
abbrev pub add_to_set : List String → String → List String
add_to_set set key = if includes set key then set else set ++ (key ∷ [])

abbrev pub add_all : List String → List String → List String
add_all set [] = set
add_all set (key ∷ keys) = add_all (add_to_set set key) keys

-- SELECT DISTINCT provider FROM connections WHERE user_id = …, and the chains of the providers
unfoldable pub providers_from : List String → String → List Connection → List String
providers_from set user_id [] = set
providers_from set user_id (c ∷ cs) =
    providers_from
      (if c.user_id == user_id then add_all set (get_canonical_provider_chain c.provider) else set)
      user_id cs

abbrev pub get_active_providers : String → List Connection → List String
get_active_providers user_id connections = providers_from [] user_id connections

-- if (!tool.providerConfigKey) return false; …
abbrev pub is_connected_tool : List String → ToolConfig → Bool
is_connected_tool providers tool = elim tool.provider_config_key [
  | none ↦ false
  | some key ↦ not (is_empty key) && includes providers (normalized key)
]

-- The commands of Redis that the cache of tools sends, with what the documentation says of them. The
-- lists of tools are kept as values. Times are in milliseconds and times to live in seconds.
pub record ToolCache : Type 1 where
  pub Data : Type 0
  -- GET, SETEX and DEL; `now` is the time of the command
  pub get : (now : ℕ) → Data → String → Option (List ToolConfig)
  pub setex : (now : ℕ) → Data → String → (ttl : ℕ) → List ToolConfig → Data
  pub del : Data → String → Data
  pub get-setex :
      (t now : ℕ) (d : Data) (k : String) (ttl : ℕ) (v : List ToolConfig) (j : String)
      → get t (setex now d k ttl v) j
        ≡ (if k == j then (if ltb t (now + 1000 * ttl) then some v else none) else get t d j)
  pub get-del :
      (t : ℕ) (d : Data) (k j : String) → get t (del d k) j ≡ (if k == j then none else get t d j)

-- CACHE_TTL, in seconds
abbrev pub cache_ttl : ℕ
cache_ttl = 300

abbrev pub cache_key : String → String
cache_key user_id = concat ("user_tools:" ∷ user_id ∷ [])

-- Whether a tool can be used, and why not.
pub record ToolAvailability : Type 0 where
  pub tool : ToolConfig
  pub available : Bool
  pub reason : Option String

abbrev unknown_tool : String → ToolConfig
unknown_tool name = record {
  name = name;
  description = "Unknown tool";
  category = "Unknown";
  display_name = none;
  provider_config_key = none;
  parameters = none;
  source = none;
  cache_model = none;
}

abbrev pub missing_reason : ToolConfig → String
missing_reason tool = elim tool.provider_config_key [
  | none ↦ "No provider configured for this tool"
  | some key ↦
      if is_empty key
      then "No provider configured for this tool"
      else concat ("Provider '" ∷ key ∷ "' not connected" ∷ [])
]

abbrev pub availability : Bool → ToolConfig → ToolAvailability
availability available tool = record {
  tool = tool;
  available = available;
  reason = if available then none else some (missing_reason tool);
}

abbrev pub is_named : String → ToolConfig → Bool
is_named name tool = tool.name == name

-- What the database gives.
abbrev pub connected_tools : Categories → List Connection → String → List ToolConfig
connected_tools configs connections user_id =
    keep (is_connected_tool (get_active_providers user_id connections)) (get_all_tools configs)

-- `now` is the time at which the handler runs.
module _ (cache : ToolCache) (configs : Categories) (connections : List Connection) (now : ℕ) where
  unfoldable pub get_available_tools_for_user : String → cache.Data → List ToolConfig × cache.Data
  get_available_tools_for_user user_id d = elim (cache.get now d (cache_key user_id)) [
    | some tools ↦ (tools, d)
    | none ↦
        let tools = connected_tools configs connections user_id in
        (tools, cache.setex now d (cache_key user_id) cache_ttl tools)
  ]

  unfoldable pub get_tools_by_categories_for_user :
      String → List String → cache.Data → List ToolConfig × cache.Data
  get_tools_by_categories_for_user user_id categories d =
      let (tools, d') = get_available_tools_for_user user_id d in
      (keep (λ tool. includes categories tool.category) tools, d')

  unfoldable pub is_tool_available : String → String → cache.Data → ToolAvailability × cache.Data
  is_tool_available user_id name d =
      let (tools, d') = get_available_tools_for_user user_id d in
      (
        elim (find_tool name (get_all_tools configs)) [
          | none ↦ record {
            tool = unknown_tool name;
            available = false;
            reason = some "Tool not found in configuration";
          }
          | some tool ↦ availability (any (is_named name) tools) tool
        ],
        d',
      )

  unfoldable pub get_all_tools_with_availability :
      String → cache.Data → List ToolAvailability × cache.Data
  get_all_tools_with_availability user_id d =
      let (tools, d') = get_available_tools_for_user user_id d in
      (map (λ tool. availability (any (is_named tool.name) tools) tool) (get_all_tools configs), d')

-- Called when the connections of a user have changed.
unfoldable pub invalidate_cache : (cache : ToolCache) → String → cache.Data → cache.Data
invalidate_cache cache user_id d = cache.del d (cache_key user_id)
