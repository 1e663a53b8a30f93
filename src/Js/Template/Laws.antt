-- ===== src/Js/Template/Laws.antt =====
-- What the placeholder replacement of cortex/matcher.ts and cortex/runtime.ts yields.
use Prim.Native.Char.{Char}
use Prim.Native.String.{◌++◌, count, char_at}
use text.Mathlib.TextLemmas.{nil-append, cons-append, length-cons}
use native.Mathlib.Nat.{zero-add, suc-add}
use app_intent_system_orches.Base.{
  ℕ, suc, ◌+◌, ◌≡◌, ◌≢◌, refl, ap, String, true, false, none, some, arith,
}
use app_intent_system_orches.Js.Values.{Value}
use app_intent_system_orches.Js.Template.{
  is_brace_open, is_path_char, path_then_close, placeholder, look_up, render_from, render,
}

-- Every character of the text has the property.
abbrev pub Each : (Char → Type 0) → String → Type 0
Each P String.[] = Unit
Each P (String.◌∷◌ c s) = P c × Each P s

abbrev pub HasNoBrace : String → Type 0
HasNoBrace = Each (λ c. is_brace_open c ≡ false)

abbrev pub IsPath : String → Type 0
IsPath = Each (λ c. is_path_char c ≡ true)

placeholder-none : (c : Char) (s : String) → is_brace_open c ≡ false → placeholder c s ≡ none
unfolding placeholder
placeholder-none c String.[] h = refl
placeholder-none c (String.◌∷◌ d s) h = rw h

plain_prefix :
    (ctx : Value) (a s : String)
    → HasNoBrace a
    → render_from ctx 0 (a ++ s) ≡ a ++ render_from ctx 0 s
unfolding render_from
plain_prefix ctx String.[] s h = rw (nil-append, nil-append)
plain_prefix ctx (String.◌∷◌ c a) s h =
    rw (cons-append, cons-append)
      (rw (placeholder-none c (a ++ s) h.0, render_from)
        (ap (String.◌∷◌ c) (plain_prefix ctx a s h.1)))

path_then_close_lem : (p b : String) → IsPath p → path_then_close (p ++ ("}}" ++ b)) ≡ some p
unfolding path_then_close
path_then_close_lem String.[] b h = rw (nil-append, cons-append, cons-append)
path_then_close_lem (String.◌∷◌ c p) b h =
    rw cons-append (rw h.0 (rw (path_then_close_lem p b h.1)))

render-skip :
    (ctx : Value) (p s : String) (n : ℕ)
    → render_from ctx (count p + n) (p ++ s) ≡ render_from ctx n s
unfolding render_from
render-skip ctx String.[] s n = rw (nil-append, zero-add)
render-skip ctx (String.◌∷◌ c p) s n =
    rw (cons-append, length-cons, suc-add) (render-skip ctx p s n)

abbrev brace : Char
brace = char_at "{" 0

placeholder_lem :
    (p b : String)
    → IsPath p
    → p ≢ String.[]
    → placeholder brace (String.◌∷◌ brace (p ++ "}}" ++ b)) ≡ some p
unfolding placeholder
placeholder_lem String.[] b h ne = absurd (ne refl)
placeholder_lem (String.◌∷◌ c p) b h ne = rw (path_then_close_lem (String.◌∷◌ c p) b h)

render_after :
    (ctx : Value) (d : Char) (p b : String)
    → render_from ctx (count p + 3) (String.◌∷◌ d (p ++ "}}" ++ b)) ≡ render_from ctx 0 b
unfolding render_from
render_after ctx d p b =
    let e : count p + 3 ≡ suc (count p + 2) = omega arith in
    rw e (rw (render-skip ctx p ("}}" ++ b) 2) (rw (cons-append, cons-append, nil-append)))

-- A template whose text before its first placeholder has no opening brace is rendered as that text,
-- the text of the value at the path (as text if it is a string, else as JSON, else nothing), and
-- the rendered rest.
pub render-placeholder :
    (ctx : Value) (a p b : String)
    → HasNoBrace a
    → IsPath p
    → p ≢ String.[]
    → render ctx (a ++ "{{" ++ p ++ "}}" ++ b) ≡ a ++ look_up ctx p ++ render ctx b
unfolding render render_from
render-placeholder ctx a p b plain path ne = rw (plain_prefix ctx a _ plain) (
    ap (◌++◌ a) (
      rw (cons-append, cons-append, nil-append)
        (rw (placeholder_lem p b path ne, render_from)
          (ap (◌++◌ (look_up ctx p)) (render_after ctx brace p b)))))
