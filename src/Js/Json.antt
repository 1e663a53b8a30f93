-- ===== src/Js/Json.antt =====
-- JSON.stringify
use Prim.Native.Char.{Char, code}
use Prim.Native.String.{char_at, ◌++◌}
use app_intent_system_orches.Base.{
  ℕ, suc, ◌/◌, ◌%◌, String, Bool, true, false, Option, none, some, [], ◌∷◌, ℤ, pos, negsuc, ◌==◌,
  nat_eq, ltb, show_nat, concat, if◌then◌else◌,
}
use app_intent_system_orches.Js.Values.{
  Value, undefined, null, bool, num, str, arr, obj, Items, nil, cons, Fields, end, field,
}

hex_digit : ℕ → Char
hex_digit n = char_at "0123456789abcdef" (n % 16)

escape_char : Char → String
unfolding hex_digit
escape_char c =
    let n = code c in
    if n == 34
    then "\\\""
    else if n == 92
    then "\\\\"
    else if n == 10
    then "\\n"
    else if n == 13
    then "\\r"
    else if n == 9
    then "\\t"
    else if n == 8
    then "\\b"
    else if n == 12
    then "\\f"
    else if ltb n 32
    then "\\u00" ++ String.◌∷◌ (hex_digit (n / 16)) (String.◌∷◌ (hex_digit n) String.[])
    else String.◌∷◌ c String.[]

escape : String → String
unfolding escape_char
escape String.[] = String.[]
escape (String.◌∷◌ c s) = escape_char c ++ escape s

unfoldable pub quote : String → String
unfolding escape
quote s = concat ("\"" ∷ escape s ∷ "\"" ∷ [])

unfoldable pub show_int : ℤ → String
unfolding show_nat
show_int (pos n) = show_nat n
show_int (negsuc n) = "-" ++ show_nat (suc n)

-- The separator before an entry.
abbrev comma : Bool → String
comma true = ""
comma false = ","

unfoldable mutual
  unfolding quote show_int

  -- The text of a value, with `null` for an undefined one, as in an array.
  pub json : Value → String
  json undefined = "null"
  json null = "null"
  json (bool true) = "true"
  json (bool false) = "false"
  json (num n) = show_int n
  json (str s) = quote s
  json (arr vs) = concat ("[" ∷ json_items true vs ∷ "]" ∷ [])
  json (obj fs) = concat ("{" ∷ json_fields true fs ∷ "}" ∷ [])

  pub json_items : Bool → Items → String
  json_items first nil = ""
  json_items first (cons v vs) = concat (comma first ∷ json v ∷ json_items false vs ∷ [])

  -- A field that is undefined is left out.
  pub json_fields : Bool → Fields → String
  json_fields first end = ""
  json_fields first (field k undefined fs) = json_fields first fs
  json_fields first (field k v fs) =
      concat (comma first ∷ quote k ∷ ":" ∷ json v ∷ json_fields false fs ∷ [])

-- JSON.stringify(v): undefined has no text.
unfoldable pub stringify : Value → Option String
unfolding json
stringify undefined = none
stringify v = some (json v)
