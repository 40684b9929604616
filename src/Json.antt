-- ===== src/Json.antt =====
-- Documents as Python holds them after `json.loads` or `yaml.safe_load`: dicts with text keys,
-- lists and scalars. Numbers that the program reads are ports and are natural numbers; any other
-- scalar (a negative number, a float, a date) is `scalar` with its text.
pub mod Access
pub mod Reading
pub mod Editing
pub mod FieldCrypto
use vpn_control_panel.Prelude.{
  ℕ, zero, suc, String, Bool, true, false, Option, none, some, ◌=ˢ◌, if◌then◌else◌,
}

mutual
  pub data Json : Type 0 where
    null : Json
    bool : Bool → Json
    num : ℕ → Json
    str : String → Json
    scalar : String → Json
    arr : Items → Json
    obj : Fields → Json

  pub data Items : Type 0 where
    nil : Items
    cons : Json → Items → Items

  pub data Fields : Type 0 where
    end : Fields
    field : String → Json → Fields → Fields

-- `d.get(key)`
abbrev pub get_field : String → Fields → Option Json
get_field k end = none
get_field k (field j v fs) = if j =ˢ k then some v else get_field k fs

-- `d[key] = value`: the key keeps its place, a new key goes to the end.
abbrev pub set_field : String → Json → Fields → Fields
set_field k v end = field k v end
set_field k v (field j w fs) = if j =ˢ k then field j v fs else field j w (set_field k v fs)

abbrev pub get_item : ℕ → Items → Option Json
get_item n nil = none
get_item zero (cons x xs) = some x
get_item (suc n) (cons x xs) = get_item n xs

abbrev pub set_item : ℕ → Json → Items → Items
set_item n v nil = nil
set_item zero v (cons x xs) = cons v xs
set_item (suc n) v (cons x xs) = cons x (set_item n v xs)

-- Truth of a value, as `if value` and `value or other` read it.
abbrev pub is_truthy : Json → Bool
is_truthy null = false
is_truthy (bool b) = b
is_truthy (num zero) = false
is_truthy (num (suc n)) = true
is_truthy (str s) = if s =ˢ "" then false else true
is_truthy (scalar s) = true
is_truthy (arr nil) = false
is_truthy (arr (cons x xs)) = true
is_truthy (obj end) = false
is_truthy (obj (field k v fs)) = true
