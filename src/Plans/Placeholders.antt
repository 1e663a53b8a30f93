-- ===== src/Plans/Placeholders.antt =====
-- services/PlanExecutorService.ts: _get and _resolvePlaceholders, which put results of earlier
-- steps into the arguments of a step. Arguments are an object or an array, as their type says.
pub mod Whole
use Prim.Native.Char.{Char, code}
use Prim.Native.String.{count, ◌++◌}
use app_intent_system_orches.Base.{
  ℕ, zero, suc, ◌+◌, String, Bool, true, false, ◌&&◌, ◌||◌, Option, none, some, List, [], ◌∷◌, ◌==◌,
  nat_eq, string_eq, leb, concat, if◌then◌else◌,
}
use app_intent_system_orches.Js.{
  Value, undefined, null, bool, num, str, arr, obj, Items, cons, nil, Fields, field, end, get,
  to_text,
}
use app_intent_system_orches.Js.Template.{
  is_brace_open, is_brace_close, starts_close, split_dots, follow,
}
use app_intent_system_orches.Services.Runs.{Step, ToolResult}

-- \w
abbrev is_word_char : Char → Bool
is_word_char c =
    (leb b'a' (code c) && leb (code c) b'z')
    || (leb b'A' (code c) && leb (code c) b'Z')
    || (leb b'0' (code c) && leb (code c) b'9')
    || (code c == b'_')

abbrev cons_char : Char → Option String → Option String
cons_char c none = none
cons_char c (some s) = some (String.◌∷◌ c s)

abbrev text : Char → String → String
text c s = String.◌∷◌ c s

-- The word before a `]` at the start of the text.
word_then_bracket : String → Option String
word_then_bracket String.[] = none
word_then_bracket (String.◌∷◌ c s) =
    let longer = cons_char c (word_then_bracket s) in
    if is_word_char c then longer else if code c == b']' then some "" else none

abbrev nonblank : Option String → Option String
nonblank none = none
nonblank (some String.[]) = none
nonblank (some (String.◌∷◌ c s)) = some (String.◌∷◌ c s)

bracketed : Char → String → Option String
unfolding word_then_bracket
bracketed c s = if code c == b'[' then nonblank (word_then_bracket s) else none

-- path.replace(/\[(\w+)\]/g, '.$1'); `skip` characters of a match are left.
brackets_to_dots : ℕ → String → String
unfolding bracketed
brackets_to_dots skip String.[] = ""
brackets_to_dots (suc skip) (String.◌∷◌ c s) = brackets_to_dots skip s
brackets_to_dots zero (String.◌∷◌ c s) = elim (bracketed c s) [
  | none ↦ String.◌∷◌ c (brackets_to_dots zero s)
  | some word ↦ concat ("." ∷ word ∷ brackets_to_dots (count word + 1) s ∷ [])
]

-- .replace(/^\./, '')
abbrev drop_dot : String → String
drop_dot String.[] = ""
drop_dot (String.◌∷◌ c s) = if code c == b'.' then s else String.◌∷◌ c s

-- _get(obj, path), where a value that is missing is `undefined`
unfoldable pub get_path : Value → String → Value
unfolding brackets_to_dots get
get_path v path = follow (split_dots "" (drop_dot (brackets_to_dots zero path))) v

-- . does not match the ends of lines.
unfoldable pub ends_line : Char → Bool
ends_line c = (code c == 10) || (code c == 13) || (code c == 8232) || (code c == 8233)

-- The text before the first `}}`, in its line.
unfoldable pub until_close : String → Option String
until_close String.[] = none
until_close (String.◌∷◌ c s) =
    let longer = cons_char c (until_close s) in
    if is_brace_close c && starts_close s then some "" else if ends_line c then none else longer

-- The match of `.+?}}` at the start of the text: one character at least.
unfoldable pub some_until_close : String → Option String
unfolding until_close ends_line
some_until_close String.[] = none
some_until_close (String.◌∷◌ c s) = if ends_line c then none else cons_char c (until_close s)

-- The placeholder `{{…}}` that starts with the character and the text.
unfoldable pub inner_placeholder : Char → String → Option String
unfolding some_until_close
inner_placeholder c String.[] = none
inner_placeholder c (String.◌∷◌ d s) =
    if is_brace_open c && is_brace_open d then some_until_close s else none

-- The text before a `}}` at the very end, in one line.
unfoldable pub until_last_close : String → Option String
until_last_close String.[] = none
until_last_close (String.◌∷◌ c String.[]) = none
until_last_close (String.◌∷◌ c (String.◌∷◌ d String.[])) =
    if is_brace_close c && is_brace_close d then some "" else none
until_last_close (String.◌∷◌ c (String.◌∷◌ d (String.◌∷◌ e s))) =
    let longer = cons_char c (until_last_close (String.◌∷◌ d (String.◌∷◌ e s))) in
    if ends_line c then none else longer

-- s.match(/^{{(.+?)}}$/)?.[1]: the end of the text ends the match, so it is the whole text.
unfoldable pub whole_placeholder : String → Option String
unfolding until_last_close ends_line
whole_placeholder String.[] = none
whole_placeholder (String.◌∷◌ c String.[]) = none
whole_placeholder (String.◌∷◌ c (String.◌∷◌ d s)) =
    if is_brace_open c && is_brace_open d then nonblank (until_last_close s) else none

-- parts.join('.')
abbrev pub join_dots : List String → String
join_dots [] = ""
join_dots (s ∷ []) = s
join_dots (s ∷ ss) = concat (s ∷ "." ∷ join_dots ss ∷ [])

-- if (pathParts[0] === 'result') pathParts.shift()
abbrev pub without_result : List String → List String
without_result [] = []
without_result (s ∷ ss) = if s == "result" then ss else s ∷ ss

abbrev has_id : String → Step → Bool
has_id id step = elim step.step_id [ none ↦ false | some s ↦ s == id ]

unfoldable pub find_step : String → List Step → Option Step
find_step id [] = none
find_step id (step ∷ steps) = if has_id id step then some step else find_step id steps

abbrev given : Value → Option Value
given undefined = none
given v = some v

abbrev result_at : Option Step → String → Option Value
result_at none path = none
result_at (some step) path = elim step.result [
  | none ↦ none
  | some result ↦ given (get_path result.data_value path)
]

abbrev value_of_parts : List Step → List String → Option Value
value_of_parts steps [] = none
value_of_parts steps (id ∷ parts) =
    result_at (find_step id steps) (join_dots (without_result parts))

-- The value that a placeholder stands for, or nothing if there is none: then it is left as it is.
unfoldable pub placeholder_value : List Step → String → Option Value
unfolding find_step get_path
placeholder_value steps placeholder = value_of_parts steps (split_dots "" placeholder)

-- The text that replaces a placeholder, and whether it was resolved.
abbrev replacement : List Step → String → String × Bool
replacement steps inner = elim (placeholder_value steps inner) [
  | none ↦ (concat ("{{" ∷ inner ∷ "}}" ∷ []), false)
  | some v ↦ (to_text v, true)
]

abbrev joined : String × Bool → String × Bool → String × Bool
joined (s, b) (t, c) = (s ++ t, b || c)

-- s.replace(/{{(.+?)}}/g, …), and whether a placeholder was resolved.
unfoldable pub replace_in : List Step → ℕ → String → String × Bool
unfolding inner_placeholder placeholder_value to_text
replace_in steps skip String.[] = ("", false)
replace_in steps (suc skip) (String.◌∷◌ c s) = replace_in steps skip s
replace_in steps zero (String.◌∷◌ c s) = elim (inner_placeholder c s) [
  | none ↦ joined (text c "", false) (replace_in steps zero s)
  | some inner ↦ joined (replacement steps inner) (replace_in steps (count inner + 3) s)
]

-- A text of the arguments.
unfoldable pub resolve_text : List Step → String → Value × Bool
unfolding whole_placeholder replace_in placeholder_value
resolve_text steps s = elim (whole_placeholder s) [
  | some inner ↦ elim (placeholder_value steps inner) [ none ↦ (str s, false) | some v ↦ (v, true) ]
  | none ↦ let (t, resolved) = replace_in steps zero s in (str t, resolved)
]

unfoldable mutual
  unfolding resolve_text

  -- The local function `replacer`, with whether a placeholder was resolved.
  pub replacer : List Step → Value → Value × Bool
  replacer steps (str s) = resolve_text steps s
  replacer steps (arr vs) = let (vs', b) = replace_items steps vs in (arr vs', b)
  replacer steps (obj fs) = let (fs', b) = replace_fields steps fs in (obj fs', b)
  replacer steps v = (v, false)

  pub replace_items : List Step → Items → Items × Bool
  replace_items steps nil = (nil, false)
  replace_items steps (cons v vs) =
      let (v', b) = replacer steps v in
      let (vs', c) = replace_items steps vs in (cons v' vs', b || c)

  pub replace_fields : List Step → Fields → Fields × Bool
  replace_fields steps end = (end, false)
  replace_fields steps (field k v fs) =
      let (v', b) = replacer steps v in
      let (fs', c) = replace_fields steps fs in (field k v' fs', b || c)

unfoldable mutual
  -- JSON.parse(JSON.stringify(v)) of a value that has a text: undefined fields are dropped.
  pub clone : Value → Value
  clone (arr vs) = arr (clone_items vs)
  clone (obj fs) = obj (clone_fields fs)
  clone undefined = null
  clone v = v

  pub clone_items : Items → Items
  clone_items nil = nil
  clone_items (cons v vs) = cons (clone v) (clone_items vs)

  pub clone_fields : Fields → Fields
  clone_fields end = end
  clone_fields (field k undefined fs) = clone_fields fs
  clone_fields (field k v fs) = field k (clone v) (clone_fields fs)

-- The resolved arguments; arguments that are undefined have no JSON, and throw.
unfoldable pub resolve_placeholders : List Step → Value → Option (Value × Bool)
unfolding replacer clone
resolve_placeholders steps undefined = none
resolve_placeholders steps args = some (replacer steps (clone args))
