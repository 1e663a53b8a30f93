-- ===== src/Js/Objects.antt =====
-- Reading a property of an object that was assigned.
use app_intent_system_orches.Base.{String, ◌≡◌, refl, ◌==◌, string_eq, eq_iff, arith, if◌then◌else◌}
use app_intent_system_orches.Js.Values.{Value, Fields, end, field, get_field, set_field}

pub get-set_field :
    (k j : String) (v : Value) (fs : Fields)
    → get_field j (set_field k v fs) ≡ (if k == j then v else get_field j fs)
get-set_field k j v end = refl
get-set_field k j v (field i u fs) =
    ground (arith, get-set_field k j v fs, eq_iff i k, eq_iff i j, eq_iff k j)
