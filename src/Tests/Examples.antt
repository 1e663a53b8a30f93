-- ===== src/Tests/Examples.antt =====
-- A unit, an event and a run, and stores that hold them.
use app_intent_system_orches.Base.{refl, String, none, some, [], ◌∷◌}
use app_intent_system_orches.Js.{fields, object, str}
use app_intent_system_orches.Cortex.Types.{
  Event, event, simple, eval, llm, tool, wait, Automation, active, Run, pending,
}
use app_intent_system_orches.Cortex.Store.Tables.{Store}
use app_intent_system_orches.Cortex.Store.Integrity.{IsConsistent}
use app_intent_system_orches.Tests.Clients.{logged_redis}

abbrev pub example_unit : Automation
example_unit = record {
  id = "u1";
  owner = "ann";
  name = "Answer";
  raw = record { when = "a mail comes"; if_text = none; then_text = "answer it" };
  when = simple (event "gmail" "email_received" (some "true"));
  conditions = eval "true" ∷ [];
  actions =
      llm "summarize" (str "{{payload.text}}") (some "summary")
      ∷ wait "1h"
      ∷ tool "gmail.send" (object (("body", str "{{summary}}") ∷ [])) none
      ∷ [];
  status = active;
  created_at = 0;
  updated_at = 0;
}

abbrev pub empty_store : Store logged_redis
empty_store = record { units = []; runs = []; steps = []; cache = ([], []); published = [] }

abbrev pub example_store : Store logged_redis
example_store = record {
  units = example_unit ∷ [];
  runs = [];
  steps = [];
  cache = ([], []);
  published = [];
}

abbrev pub example_event : Event
example_event = record {
  id = "e1";
  source = "gmail";
  event = "email_received";
  timestamp = 5;
  user_id = "ann";
  payload = object (("text", str "hello") ∷ []);
  dedupe_key = some "mail-1";
}

abbrev pub example_run : Run
example_run = record {
  id = "run_1";
  unit_id = "u1";
  event_id = "e1";
  user_id = "ann";
  status = pending;
  step = 0;
  context = fields (("payload", example_event.payload) ∷ []);
  started_at = 1;
  completed_at = none;
  resume_at = none;
  error = none;
}

-- The store that holds the run, with the payload of its event.
abbrev pub run_store : Store logged_redis
run_store = record example_store {
  runs = record { run = example_run; original_event_payload = some example_event.payload } ∷ [];
}

abbrev pub encode_id : Event → String
encode_id e = e.id

pub example_store-IsConsistent : IsConsistent example_store
example_store-IsConsistent = record {
  unique_units = (refl, tt);
  unique_runs = tt;
  runs_refer = tt;
  steps_refer = tt;
}

pub run_store-IsConsistent : IsConsistent run_store
run_store-IsConsistent = record {
  unique_units = (refl, tt);
  unique_runs = (refl, tt);
  runs_refer = (refl, tt);
  steps_refer = tt;
}
