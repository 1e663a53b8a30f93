-- ===== src/Cortex/Dispatch.antt =====
-- index.ts: processCortexEvent, which takes an event from the event shaper to the matcher. It starts
-- the execution of each run without awaiting it: the runs it starts are its result, and their
-- executions are steps of their own.
pub mod Laws
use app_intent_system_orches.Base.{
  String, Bool, true, false, Option, none, some, List, [], Result, ok, err,
}
use app_intent_system_orches.Cortex.Types.{Event, Run}
use app_intent_system_orches.Cortex.Redis.{Redis}
use app_intent_system_orches.Cortex.World.{Outside}
use app_intent_system_orches.Cortex.Store.Tables.{Store}
use app_intent_system_orches.Cortex.Store.Events.{write_event}
use app_intent_system_orches.Cortex.Matcher.{Matched, match}

-- What `processCortexEvent` leaves behind: it logs an error and does not throw.
pub record Dispatched (outside : Outside) (redis : Redis) : Type 0 where
  pub started : List Run
  pub logged : Option String
  pub store : Store redis
  pub world : outside.World

unfoldable pub process_event :
    (outside : Outside) {redis : Redis} (encode : Event → String)
    → Event
    → Store redis
    → outside.World
    → Dispatched outside redis
unfolding match write_event
process_event outside encode e s w =
    let (s', written) = write_event encode e s in
    elim written [
      | false ↦ record { started = []; logged = none; store = s'; world = w }
      | true ↦
          let found = match outside e s' w in
          elim found.result [
            | ok runs ↦ record {
              started = runs;
              logged = none;
              store = found.store;
              world = found.world;
            }
            | err m ↦ record {
              started = [];
              logged = some m;
              store = found.store;
              world = found.world;
            }
          ]
    ]
