-- ===== src/Json/Reading.antt =====
-- How the code reads documents: subscripts, `get` with a default, `or` with a default, and the
-- conversions `str`, `int` and `list`. The text that `str` gives a list or a dict is a parameter.
-- `int` reads the natural numbers and texts of digits; its other spellings count as errors.
use Prim.Native.String.{[] as empty, ◌∷◌ as ◌∷ˢ◌}
use vpn_control_panel.Prelude.{
  ℕ, String, true, false, Option, none, some, List, [], ◌∷◌, if◌then◌else◌, Result, ok, err, Error,
  key_error, value_error, runtime_error, and_then, or_raise, get_or, int_of, strip, decimal,
}
use vpn_control_panel.Json.{
  Json, null, bool, num, str, scalar, arr, obj, Items, nil, cons, Fields, end, field, get_field,
  is_truthy,
}
use vpn_control_panel.Json.Access.{dict_get}

abbrev pub type_error : Error
type_error = runtime_error "TypeError"

-- A value that must be a dict.
abbrev pub fields_of : Json → Result Fields
fields_of (obj fs) = ok fs
fields_of _ = err type_error

-- `d[key]`
unfoldable pub subscript : String → Json → Result Json
subscript k (obj fs) = or_raise (get_field k fs) (key_error k)
subscript k _ = err type_error

-- `d[0]`
unfoldable pub first_item : Json → Result Json
first_item (arr (cons x xs)) = ok x
first_item (arr nil) = err (runtime_error "list index out of range")
first_item (str (c ∷ˢ s)) = ok (str (c ∷ˢ empty))
first_item (str empty) = err (runtime_error "string index out of range")
first_item (obj fs) = err (key_error "0")
first_item _ = err type_error

-- `d.get(key, default)`
unfoldable pub get_default : String → Json → Json → Result Json
get_default k d v = and_then (dict_get k v) (λ o. ok (get_or o d))

-- `value or default`
unfoldable pub or_value : Json → Json → Json
or_value v d = if is_truthy v then v else d

-- `d.get(key) or default`
unfoldable pub get_or_value : String → Json → Json → Result Json
unfolding or_value
get_or_value k d v = and_then (dict_get k v) (λ o. ok (or_value (get_or o null) d))

unfoldable pub text_of : (Json → String) → Json → String
unfolding decimal
text_of repr null = "None"
text_of repr (bool true) = "True"
text_of repr (bool false) = "False"
text_of repr (num n) = decimal n
text_of repr (str s) = s
text_of repr (scalar s) = s
text_of repr (arr xs) = repr (arr xs)
text_of repr (obj fs) = repr (obj fs)

abbrev either : Option ℕ → Option ℕ → Option ℕ
either none o = o
either (some n) o = some n

-- `int(value)`; white space around the digits is passed over.
unfoldable pub int_value : Json → Result ℕ
unfolding int_of strip
int_value (num n) = ok n
int_value (bool b) = ok (if b then 1 else 0)
int_value (str s) =
    or_raise (either (int_of s) (int_of (strip s))) (value_error "invalid literal for int()")
int_value (scalar s) = err (value_error "no natural number")
int_value _ = err type_error

abbrev keys : Fields → List Json
keys end = []
keys (field k v fs) = str k ∷ keys fs

abbrev pub item_list : Items → List Json
item_list nil = []
item_list (cons x xs) = x ∷ item_list xs

abbrev characters : String → List Json
characters empty = []
characters (c ∷ˢ s) = str (c ∷ˢ empty) ∷ characters s

-- `list(value)`
unfoldable pub to_list : Json → Result (List Json)
to_list (arr xs) = ok (item_list xs)
to_list (obj fs) = ok (keys fs)
to_list (str s) = ok (characters s)
to_list _ = err type_error
