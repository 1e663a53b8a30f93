-- ===== src/Plans/Placeholders/Whole.antt =====
-- A text of the arguments that begins and ends like a placeholder.
use Prim.Native.Char.{Char}
use Prim.Native.String.{◌++◌, char_at}
use text.Mathlib.TextLemmas.{nil-append, cons-append}
use app_intent_system_orches.Base.{
  ◌≡◌, refl, ap, String, Bool, true, false, Option, none, some, List, is_empty, arith, Option-cases,
  inl, inr,
}
use app_intent_system_orches.Js.{Value, str}
use app_intent_system_orches.Services.Runs.{Step}
use app_intent_system_orches.Plans.Placeholders.{
  ends_line, cons_char, until_last_close, whole_placeholder, placeholder_value, resolve_text,
}

-- A text of one line.
abbrev pub IsLine : String → Type 0
IsLine String.[] = Unit
IsLine (String.◌∷◌ c s) = (ends_line c ≡ false) × IsLine s

until_last_close_lem : (s : String) → IsLine s → until_last_close (s ++ "}}") ≡ some s
unfolding until_last_close
until_last_close_lem String.[] h = refl
until_last_close_lem (String.◌∷◌ c String.[]) h = rw cons-append (rw h.0 refl)
until_last_close_lem (String.◌∷◌ c (String.◌∷◌ d String.[])) h =
    rw (cons-append, cons-append)
      (rw h.0
        (ap (cons_char c) (rw cons-append at (until_last_close_lem (String.◌∷◌ d String.[]) h.1))))
until_last_close_lem (String.◌∷◌ c (String.◌∷◌ d (String.◌∷◌ e s))) h =
    rw (cons-append, cons-append, cons-append)
      (rw h.0 (
        ap (cons_char c) (
          rw (cons-append, cons-append) at
            (until_last_close_lem (String.◌∷◌ d (String.◌∷◌ e s)) h.1))))

abbrev brace : Char
brace = char_at "{" 0

whole_placeholder_lem :
    (s : String)
    → is_empty s ≡ false
    → IsLine s
    → whole_placeholder (String.◌∷◌ brace (String.◌∷◌ brace (s ++ "}}"))) ≡ some s
unfolding whole_placeholder
whole_placeholder_lem String.[] nonempty h = absurd (ground arith)
whole_placeholder_lem (String.◌∷◌ c s) nonempty h =
    rw (until_last_close_lem (String.◌∷◌ c s) h) refl

abbrev pub value_or_text : Option Value → String → Value × Bool
value_or_text none s = (str s, false)
value_or_text (some v) s = (v, true)

-- A text of one line that begins with `{{` and ends with `}}` is read as one placeholder, whatever
-- stands between, also if that is the end of one placeholder and the start of another: it becomes the
-- value for all that stands between, with its type kept, or stays as it is if there is none.
pub resolve_text-whole :
    (steps : List Step) (s : String)
    → is_empty s ≡ false
    → IsLine s
    → resolve_text steps ("{{" ++ s ++ "}}")
      ≡ value_or_text (placeholder_value steps s) ("{{" ++ s ++ "}}")
unfolding resolve_text
resolve_text-whole steps s nonempty h =
    rw (cons-append, cons-append, nil-append)
      (elim (Option-cases (placeholder_value steps s)) [
        | inl e ↦ rw (resolve_text, whole_placeholder_lem s nonempty h, e) refl
        | inr (v, e) ↦ rw (resolve_text, whole_placeholder_lem s nonempty h, e) refl
      ])
