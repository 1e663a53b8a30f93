-- ===== src/Base/Text.antt =====
-- The string methods of the program. Letter case is that of ASCII.
use Prim.Native.Nat.{ℕ, zero, suc, ◌+◌, ◌-◌, ◌/◌, ◌%◌}
use Prim.Native.Char.{Char, code}
use Prim.Native.String.{String, char_at, ◌++◌}
use mathlib.Core.Bool.{Bool, ◌&&◌, ◌||◌}
use mathlib.Core.Option.{Option, none, some}
use mathlib.Core.List.{List, [], ◌∷◌}
use text.Mathlib.Text.{find?}
use app_intent_system_orches.Base.Tests.{◌==◌, nat_eq, string_eq, leb, ltb, is_some, if◌then◌else◌}

abbrev lower_char : Char → Char
lower_char c =
    if leb b'A' (code c) && leb (code c) b'Z'
    then char_at "abcdefghijklmnopqrstuvwxyz" (code c - b'A')
    else c

-- String.prototype.toLowerCase
unfoldable pub to_lower_case : String → String
to_lower_case String.[] = String.[]
to_lower_case (String.◌∷◌ c s) = String.◌∷◌ (lower_char c) (to_lower_case s)

-- String.prototype.includes
abbrev pub text_includes : String → String → Bool
text_includes s t = is_some (find? s t)

-- A template literal: its parts, joined.
abbrev pub concat : List String → String
concat [] = ""
concat (s ∷ ss) = s ++ concat ss

abbrev pub is_empty : String → Bool
is_empty String.[] = Bool.true
is_empty (String.◌∷◌ c s) = Bool.false

-- Decimal digits, least significant last. A number has at most as many digits as its value plus one.
digits_from : ℕ → ℕ → String → String
digits_from zero n acc = acc
digits_from (suc fuel) n acc =
    let acc' = String.◌∷◌ (char_at "0123456789" (n % 10)) acc in
    let rest = digits_from fuel (n / 10) acc' in if ltb n 10 then acc' else rest

-- String(n) of a natural number
unfoldable pub show_nat : ℕ → String
unfolding digits_from
show_nat n = digits_from (n + 1) n ""

-- The white space that String.prototype.trim removes, in ASCII.
abbrev is_space : Char → Bool
is_space c = (leb 9 (code c) && leb (code c) 13) || (code c == 32)

trim_left : String → String
trim_left String.[] = String.[]
trim_left (String.◌∷◌ c s) = let rest = trim_left s in if is_space c then rest else String.◌∷◌ c s

-- A text of white space alone loses it all, any other text its last white space.
trim_right : String → String
trim_right String.[] = String.[]
trim_right (String.◌∷◌ c s) =
    let rest = trim_right s in if is_space c && is_empty rest then String.[] else String.◌∷◌ c rest

unfoldable pub trim : String → String
unfolding trim_left trim_right
trim s = trim_right (trim_left s)

-- s.slice(0, n)
unfoldable pub slice_text : ℕ → String → String
slice_text zero s = String.[]
slice_text (suc n) String.[] = String.[]
slice_text (suc n) (String.◌∷◌ c s) = String.◌∷◌ c (slice_text n s)

-- A property of an object literal whose keys are texts.
abbrev pub lookup_text {ℓ} : {A : Type ℓ} → String → List (String × A) → Option A
lookup_text k [] = none
lookup_text k ((j, v) ∷ m) = if j == k then some v else lookup_text k m

-- s.replace(/c/g, with) of a character, given by its code
unfoldable pub replace_char : ℕ → String → String → String
replace_char n with String.[] = String.[]
replace_char n with (String.◌∷◌ c s) =
    if code c == n then with ++ replace_char n with s else String.◌∷◌ c (replace_char n with s)
