-- ===== src/Js/Text.antt =====
-- The text of a value in a template literal. An array is its items' texts, joined by commas.
use app_intent_system_orches.Base.{String, Bool, true, false, [], ◌∷◌, concat}
use app_intent_system_orches.Js.Values.{
  Value, undefined, null, bool, num, str, arr, obj, Items, nil, cons,
}
use app_intent_system_orches.Js.Json.{show_int}

abbrev separator : Bool → String
separator true = ""
separator false = ","

unfoldable mutual
  unfolding show_int

  -- String(v)
  pub to_text : Value → String
  to_text undefined = "undefined"
  to_text null = "null"
  to_text (bool true) = "true"
  to_text (bool false) = "false"
  to_text (num n) = show_int n
  to_text (str s) = s
  to_text (arr vs) = join_items true vs
  to_text (obj fs) = "[object Object]"

  -- A missing item has no text.
  pub join_items : Bool → Items → String
  join_items first nil = ""
  join_items first (cons undefined vs) = concat (separator first ∷ join_items false vs ∷ [])
  join_items first (cons null vs) = concat (separator first ∷ join_items false vs ∷ [])
  join_items first (cons v vs) = concat (separator first ∷ to_text v ∷ join_items false vs ∷ [])
