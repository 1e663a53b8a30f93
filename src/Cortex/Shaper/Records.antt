-- ===== src/Cortex/Shaper/Records.antt =====
-- cortex/event-shaper.ts: what the functions that shape records share. A record is an untyped object.
use app_intent_system_orches.Base.{String, Bool, true, ◌≡◌, refl, arith, Option, none, some, List}
use app_intent_system_orches.Js.{Value, Fields, end, field, get_field, truthy, ◌or_else◌}
use app_intent_system_orches.Cortex.Types.{Event}
use app_intent_system_orches.Cortex.World.{Outside}

-- The state read from Redis: an object, or {} if there is none.
abbrev pub previous : Option Fields → Fields
previous none = end
previous (some fs) = fs

-- if (Object.keys(newState).length > 0): an empty new state is not written.
abbrev pub next_state : Option Fields → Fields → Option Fields
next_state old end = old
next_state old (field k v fs) = some (field k v fs)

abbrev pub record_id : Fields → Value
record_id r = get_field "Id" r or_else get_field "id" r

-- What shaping leaves behind.
pub record Shaped (outside : Outside) : Type 0 where
  pub events : List Event
  pub state : Option Fields
  pub world : outside.World

-- The events of the records so far, the new state and the outside.
pub record Shaping (outside : Outside) : Type 0 where
  pub events : List Event
  pub new_state : Fields
  pub world : outside.World

-- Something is remembered of the record with the id.
abbrev pub remembers : Fields → String → Bool
remembers state id = truthy (get_field id state)

pub next_state_cases :
    (old : Option Fields) (new : Fields) (k : String)
    → remembers new k ≡ true
    → next_state old new ≡ some new
next_state_cases old end k h = absurd (ground arith)
next_state_cases old (field j v fs) k h = refl
