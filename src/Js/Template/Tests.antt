-- ===== src/Js/Template/Tests.antt =====
-- Templates evaluated at small inputs.
use app_intent_system_orches.Base.{◌≡◌, refl, [], ◌∷◌, pos}
use app_intent_system_orches.Js.{Value, num, str, object, array, render}

abbrev email : Value
email = object (
    (
      "payload",
      object (
          ("from", str "ann@x.io")
          ∷ ("n", num (pos 12))
          ∷ ("to", array (str "a" ∷ str "b\"" ∷ []))
          ∷ []),
    )
    ∷ [])

render_test :
    render email "{{{payload.from}} got {{payload.n}} {{payload.to}} {{payload.to.1}} {{none}}{{}}"
    ≡ "{ann@x.io got 12 [\"a\",\"b\\\"\"] b\" {{}}"
unfolding render
render_test = refl
