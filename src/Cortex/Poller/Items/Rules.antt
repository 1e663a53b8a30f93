-- ===== src/Cortex/Poller/Items/Rules.antt =====
-- The types of event that cortex/poller.ts pollProvider gives to the items of a provider, as tables of
-- rules.
use app_intent_system_orches.Base.{
  ◌≡◌, refl, sym, subst, ◌∙◌, eq_iff, inl, inr, String, Bool, true, not, ◌&&◌, some, List, [], ◌∷◌,
  All, Bool-cases, string_eq, ◌==◌, lookup_text, arith, if◌then◌else◌,
}
use app_intent_system_orches.Js.{Value, str, get, truthy, strict_eq}
use app_intent_system_orches.Cortex.Poller.Items.{
  detect_gmail_event, detect_salesforce_event, map_provider_source, event_type,
}

-- A test of an item, with the type of the event that it gives.
abbrev pub Rule : Type 0
Rule = (Value → Bool) × String

abbrev pub has : String → Value → Bool
has k item = truthy (get k item)

abbrev pub is_kind : String → Value → Bool
is_kind kind item = strict_eq (get "type" item) (str kind)

abbrev pub changed : String → String → Value → Bool
changed before after item = not (strict_eq (get before item) (get after item))

abbrev pub otherwise : Value → Bool
otherwise item = true

abbrev pub mail_rules : List Rule
mail_rules =
    (has "from_me", "email_sent")
    ∷ (has "in_reply_to", "email_reply_received")
    ∷ (otherwise, "email_received")
    ∷ []

abbrev pub calendar_rules : List Rule
calendar_rules =
    (λ item. strict_eq (get "status" item) (str "cancelled"), "event_deleted")
    ∷ (changed "updated_at" "created_at", "event_updated")
    ∷ (otherwise, "event_created")
    ∷ []

abbrev lead_rule : (Value → Bool) → String → Rule
lead_rule test type = (λ item. is_kind "Lead" item && test item, type)

abbrev deal_rule : (Value → Bool) → String → Rule
deal_rule test type = (λ item. is_kind "Opportunity" item && test item, type)

abbrev pub salesforce_rules : List Rule
salesforce_rules =
    lead_rule (has "is_converted") "lead_converted"
    ∷ lead_rule (changed "previous_stage" "stage") "lead_stage_changed"
    ∷ lead_rule otherwise "lead_created"
    ∷ deal_rule (λ item. has "is_closed" item && has "is_won" item) "opportunity_closed_won"
    ∷ deal_rule (has "is_closed") "opportunity_closed_lost"
    ∷ deal_rule (changed "previous_amount" "amount") "opportunity_amount_changed"
    ∷ deal_rule (changed "previous_stage" "stage") "opportunity_stage_changed"
    ∷ deal_rule otherwise "opportunity_created"
    ∷ (otherwise, "unknown")
    ∷ []

-- The first rule whose test an item passes.
abbrev pub type_by : List Rule → Value → String
type_by [] item = "unknown"
type_by ((test, type) ∷ rules) item = if test item then type else type_by rules item

-- The source and the rules of each provider.
abbrev pub tables : List (String × (String × List Rule))
tables =
    ("google-mail", ("gmail", mail_rules))
    ∷ ("google-calendar", ("google-calendar", calendar_rules))
    ∷ ("salesforce-ybzg", ("salesforce", salesforce_rules))
    ∷ ("salesforce-2", ("salesforce", salesforce_rules))
    ∷ ("salesforce", ("salesforce", salesforce_rules))
    ∷ []

salesforce_type : (item : Value) → detect_salesforce_event item ≡ type_by salesforce_rules item
unfolding detect_salesforce_event
salesforce_type item = elim (Bool-cases (is_kind "Lead" item)) [
  | inl lead ↦ rw (lead, detect_salesforce_event) (ground arith)
  | inr other ↦ elim (Bool-cases (is_kind "Opportunity" item)) [
    | inl deal ↦ rw (other, deal, detect_salesforce_event) (ground arith)
    | inr neither ↦ rw (other, neither, detect_salesforce_event) refl
  ]
]

mail_type : (item : Value) → detect_gmail_event item ≡ type_by mail_rules item
unfolding detect_gmail_event
mail_type item = ground arith

pub lookup-All :
    {A : Type 0} (P : String × A → Type 0) (entries : List (String × A)) (k : String) (v : A)
    → All P entries
    → lookup_text k entries ≡ some v
    → P (k, v)
lookup-All P [] k v h found = cc
lookup-All P ((j, a) ∷ entries) k v h found = elim (Bool-cases (j == k)) [
  | inl e ↦
      let same : some a ≡ some v = sym (rw e refl) ∙ found in
      subst (λ x. P (x, v)) ((eq_iff j k).0 e) (subst (λ x. P (j, x)) (ground (arith, same)) h.0)
  | inr e ↦ lookup-All P entries k v h.1 (sym (rw e refl) ∙ found)
]

-- The source and the types of a provider's events are those of its table.
abbrev pub IsTabled : String × (String × List Rule) → Type 0
IsTabled (provider, table) =
    (map_provider_source provider ≡ table.0)
    × ((item : Value) → event_type provider item ≡ type_by table.1 item)

pub tables-IsTabled : All IsTabled tables
unfolding map_provider_source event_type
tables-IsTabled = (
  (refl, mail_type),
  (
    (refl, λ item. ground arith),
    ((refl, salesforce_type), ((refl, salesforce_type), ((refl, salesforce_type), tt))),
  ),
)
