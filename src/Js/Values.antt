-- ===== src/Js/Values.antt =====
-- Untyped values. Numbers are integers; the properties of a value are those that it has itself, not
-- those that it inherits. Two objects that are compared by `===` are never the same object, since
-- the program compares values that were decoded apart.
use Prim.Native.String.{count}
use app_intent_system_orches.Base.{
  ℕ, zero, suc, ◌+◌, String, Bool, true, false, not, List, [], ◌∷◌, ℤ, pos, int_beq, ◌==◌,
  string_eq, nat_eq, show_nat, is_empty, if◌then◌else◌,
}

mutual
  -- The properties of an object, in their order.
  pub data Fields : Type 0 where
    field : String → Value → Fields → Fields
    end : Fields

  -- The items of an array.
  pub data Items : Type 0 where
    cons : Value → Items → Items
    nil : Items

  pub data Value : Type 0 where
    obj : Fields → Value
    arr : Items → Value
    str : String → Value
    num : ℤ → Value
    bool : Bool → Value
    null undefined : Value

-- An object literal and an array literal.
abbrev pub fields : List (String × Value) → Fields
fields [] = end
fields ((k, v) ∷ fs) = field k v (fields fs)

abbrev pub object : List (String × Value) → Value
object fs = obj (fields fs)

abbrev pub items : List Value → Items
items [] = nil
items (v ∷ vs) = cons v (items vs)

abbrev pub array : List Value → Value
array vs = arr (items vs)

abbrev pub count_items : Items → ℕ
count_items nil = 0
count_items (cons v vs) = suc (count_items vs)

abbrev pub get_field : String → Fields → Value
get_field k end = undefined
get_field k (field j v fs) = if j == k then v else get_field k fs

get_item : String → ℕ → Items → Value
get_item k i nil = undefined
get_item k i (cons v vs) = if show_nat i == k then v else get_item k (i + 1) vs

get_char : String → ℕ → String → Value
get_char k i String.[] = undefined
get_char k i (String.◌∷◌ c s) =
    if show_nat i == k then str (String.◌∷◌ c String.[]) else get_char k (i + 1) s

-- v?.[k]
unfoldable pub get : String → Value → Value
unfolding get_item get_char show_nat
get k (obj fs) = get_field k fs
get k (arr vs) = if k == "length" then num (pos (count_items vs)) else get_item k 0 vs
get k (str s) = if k == "length" then num (pos (count s)) else get_char k 0 s
get k _ = undefined

-- o[k] = v on an object: a field that is there keeps its place.
abbrev pub set_field : String → Value → Fields → Fields
set_field k v end = field k v end
set_field k v (field j w fs) = if j == k then field j v fs else field j w (set_field k v fs)

-- Boolean(v)
abbrev pub truthy : Value → Bool
truthy undefined = false
truthy null = false
truthy (bool b) = b
truthy (num (ℤ.pos zero)) = false
truthy (num _) = true
truthy (str s) = not (is_empty s)
truthy (arr vs) = true
truthy (obj fs) = true

-- a || b
infixr 30 ◌or_else◌
abbrev pub ◌or_else◌ : Value → Value → Value
a or_else b = if truthy a then a else b

-- a === b
unfoldable pub strict_eq : Value → Value → Bool
strict_eq undefined undefined = true
strict_eq null null = true
strict_eq (bool true) (bool b) = b
strict_eq (bool false) (bool b) = not b
strict_eq (num m) (num n) = int_beq m n
strict_eq (str s) (str t) = s == t
strict_eq _ _ = false
