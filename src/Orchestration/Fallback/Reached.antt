-- ===== src/Orchestration/Fallback/Reached.antt =====
-- Which records a tool that reads from the cache gives.
use app_intent_system_orches.Base.{
  ◌≡◌, refl, inl, inr, String, Bool, true, false, Option, none, some, List, [], ◌∷◌, length, ◌==◌,
  string_eq, Bool-cases, if◌then◌else◌,
}
use app_intent_system_orches.Js.{Value}
use app_intent_system_orches.Orchestration.Samples.{sample_entities, sample_emails}
use app_intent_system_orches.Orchestration.Fallback.{
  with_samples, with_demo, filter_note, cache_answer,
}

abbrev pub is_missing : List Value → Bool
is_missing [] = true
is_missing (r ∷ rs) = false

-- The tools that have sample records, with those of the tool.
abbrev pub samples_of : String → Option (List Value)
samples_of tool =
    if tool == "fetch_entity"
    then some sample_entities
    else if tool == "fetch_emails"
    then some sample_emails
    else none

abbrev pub or_records : Option (List Value) → List Value → List Value
or_records none records = records
or_records (some samples) records = samples

-- The note that stands in the answer when no record passed the filters.
abbrev pub note_for : Option (List Value) → (args : Value) → (records : List Value) → Option String
note_for (some samples) args records = none
note_for none args [] = none
note_for none args (r ∷ rs) = some (filter_note args)

-- A tool that reads from the cache gives the records that pass the filters, if there are any,
-- without a note. If there are none, entities and emails are answered by the built-in samples
-- without a note, whether or not the cache has records: neither its records nor the demo data are
-- ever reached for them. Any other tool is answered by the records of the cache, with a note on the
-- filter if there are some.
pub cache_answer_cases :
    (tool : String) (args : Value) (records filtered : List Value) (cursor : Value)
    → let answer = cache_answer tool args records filtered cursor in
      (answer.records
        ≡ (if is_missing filtered then or_records (samples_of tool) records else filtered))
      × (answer.note
          ≡ (if is_missing filtered then note_for (samples_of tool) args records else none))
      × (answer.total ≡ length answer.records)
unfolding cache_answer with_samples with_demo
cache_answer_cases tool args records (r ∷ rs) cursor = (refl, refl, refl)
cache_answer_cases tool args [] [] cursor = elim (Bool-cases (tool == "fetch_entity")) [
  | inl e ↦ rw (cache_answer, with_samples, with_demo, e) (refl, refl, refl)
  | inr e ↦ elim (Bool-cases (tool == "fetch_emails")) [
    | inl f ↦ rw (cache_answer, with_samples, with_demo, e, f) (refl, refl, refl)
    | inr f ↦ rw (cache_answer, with_samples, with_demo, e, f) (rw (e, f) (refl, refl, refl))
  ]
]
cache_answer_cases tool args (r ∷ rs) [] cursor = elim (Bool-cases (tool == "fetch_entity")) [
  | inl e ↦ rw (cache_answer, with_samples, with_demo, e) (refl, refl, refl)
  | inr e ↦ elim (Bool-cases (tool == "fetch_emails")) [
    | inl f ↦ rw (cache_answer, with_samples, with_demo, e, f) (refl, refl, refl)
    | inr f ↦ rw (cache_answer, with_samples, with_demo, e, f) (refl, refl, refl)
  ]
]
