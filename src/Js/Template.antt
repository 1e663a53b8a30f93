-- ===== src/Js/Template.antt =====
-- `template.replace(/\{\{([\w.]+)\}\}/g, …)`, which cortex/matcher.ts (resolveTemplate) and
-- cortex/runtime.ts (resolveArgs) share.
pub mod Laws
mod Tests
use Prim.Native.Char.{Char, code}
use Prim.Native.String.{char_at, count, ◌++◌}
use app_intent_system_orches.Base.{
  ℕ, zero, suc, ◌+◌, ◌-◌, String, Bool, true, false, ◌&&◌, ◌||◌, Option, none, some, List, [], ◌∷◌,
  ◌==◌, nat_eq, leb, if◌then◌else◌, is_empty,
}
use app_intent_system_orches.Js.Values.{
  Value, undefined, null, bool, num, str, arr, obj, Items, nil, cons, Fields, end, field, get,
}
use app_intent_system_orches.Js.Json.{stringify}

abbrev pub is_brace_open : Char → Bool
is_brace_open c = code c == b'{'

abbrev pub is_brace_close : Char → Bool
is_brace_close c = code c == b'}'

-- [\w.]
abbrev pub is_path_char : Char → Bool
is_path_char c =
    (leb b'a' (code c) && leb (code c) b'z')
    || (leb b'A' (code c) && leb (code c) b'Z')
    || (leb b'0' (code c) && leb (code c) b'9')
    || (code c == b'_')
    || (code c == b'.')

abbrev pub starts_close : String → Bool
starts_close String.[] = false
starts_close (String.◌∷◌ c s) = is_brace_close c

-- The path characters at the start of the text, if `}}` follows them.
unfoldable pub path_then_close : String → Option String
path_then_close String.[] = none
path_then_close (String.◌∷◌ c s) =
    let longer : Option String = elim (path_then_close s) [
      | none ↦ none
      | some p ↦ some (String.◌∷◌ c p)
    ] in
    if is_path_char c
    then longer
    else if is_brace_close c && starts_close s
    then some String.[]
    else none

abbrev pub nonempty : Option String → Option String
nonempty none = none
nonempty (some String.[]) = none
nonempty (some (String.◌∷◌ c s)) = some (String.◌∷◌ c s)

-- The path of a placeholder `{{path}}` that starts with the character and the text.
unfoldable pub placeholder : Char → String → Option String
unfolding path_then_close
placeholder c String.[] = none
placeholder c (String.◌∷◌ d s) =
    if is_brace_open c && is_brace_open d then nonempty (path_then_close s) else none

-- path.split('.'): the parts, the first of which is `part`.
abbrev pub split_dots : String → String → List String
split_dots part String.[] = part ∷ []
split_dots part (String.◌∷◌ c s) =
    if code c == b'.' then part ∷ split_dots "" s else split_dots (part ++ String.◌∷◌ c String.[]) s

-- for (const p of parts) val = val?.[p]
abbrev pub follow : List String → Value → Value
follow [] v = v
follow (p ∷ ps) v = follow ps (get p v)

-- typeof val === 'string' ? val : JSON.stringify(val) || ''
unfoldable pub text_of : Value → String
unfolding stringify
text_of (str s) = s
text_of v = elim (stringify v) [ none ↦ "" | some s ↦ s ]

unfoldable pub look_up : Value → String → String
unfolding text_of get
look_up ctx path = text_of (follow (split_dots "" path) ctx)

-- The text with its placeholders replaced; `skip` characters of one that was replaced are left.
unfoldable pub render_from : Value → ℕ → String → String
unfolding placeholder look_up
render_from ctx skip String.[] = String.[]
render_from ctx (suc skip) (String.◌∷◌ c s) = render_from ctx skip s
render_from ctx zero (String.◌∷◌ c s) = elim (placeholder c s) [
  | none ↦ String.◌∷◌ c (render_from ctx zero s)
  | some path ↦ look_up ctx path ++ render_from ctx (count path + 3) s
]

unfoldable pub render : Value → String → String
unfolding render_from
render ctx template = render_from ctx 0 template

unfoldable mutual
  unfolding render

  -- The local function `resolve` of resolveArgs.
  pub resolve_args : Value → Value → Value
  resolve_args ctx (str s) = str (render ctx s)
  resolve_args ctx (arr vs) = arr (resolve_items ctx vs)
  resolve_args ctx (obj fs) = obj (resolve_fields ctx fs)
  resolve_args ctx v = v

  pub resolve_items : Value → Items → Items
  resolve_items ctx nil = nil
  resolve_items ctx (cons v vs) = cons (resolve_args ctx v) (resolve_items ctx vs)

  pub resolve_fields : Value → Fields → Fields
  resolve_fields ctx end = end
  resolve_fields ctx (field k v fs) = field k (resolve_args ctx v) (resolve_fields ctx fs)
