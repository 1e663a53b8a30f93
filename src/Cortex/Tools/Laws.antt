-- ===== src/Cortex/Tools/Laws.antt =====
-- Which tools cortex/tools.ts tells apart.
use app_intent_system_orches.Base.{String, ◌≡◌, refl, some, lookup_text}
use app_intent_system_orches.Js.{Value}
use app_intent_system_orches.Cortex.Tools.{Target, mapping, Orchestrator, execute}

-- The executor tells two tools apart only by the name to which they are mapped: with the same arguments
-- they ask the orchestrator the same, whatever kind of entity their own names speak of.
pub execute_same_target :
    (orchestrator : Orchestrator) (a b : String) (args : Value) (user_id : String)
    (w : orchestrator.World) {s t : Target}
    → lookup_text a mapping ≡ some s
    → lookup_text b mapping ≡ some t
    → s.name ≡ t.name
    → execute orchestrator a args user_id w ≡ execute orchestrator b args user_id w
unfolding execute
execute_same_target orchestrator a b args user_id w e f same = rw (e, f, same, execute) refl
