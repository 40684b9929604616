-- ===== src/Json/Access.antt =====
-- panel/infrastructure/crypto/config_data.py (`_get_by_path`, `_set_by_path`) and
-- panel/infrastructure/vpn/template_loader.py (`find_inbound`, `set_client_id`).
use vpn_control_panel.Prelude.{
  ℕ, String, Bool, false, Option, none, some, List, [], ◌∷◌, ◌=ˢ◌, if◌then◌else◌, Result, ok, err,
  key_error, runtime_error, and_then,
}
use vpn_control_panel.Json.{
  Json, str, arr, obj, Items, nil, cons, Fields, end, get_field, set_field, get_item, set_item,
}
use vpn_control_panel.Prelude.{int_of}

abbrev item_at : Option ℕ → Items → Option Json
item_at none xs = none
item_at (some n) xs = get_item n xs

-- One step of the walk: `current[int(part)]` on a list, `current[part]` on anything else, where
-- only a dict has text keys. `none` stands for the exceptions that the caller passes over
-- (KeyError, IndexError, TypeError, ValueError).
unfoldable pub child : String → Json → Option Json
unfolding int_of
child part (arr xs) = item_at (int_of part) xs
child part (obj fs) = get_field part fs
child part _ = none

abbrev put_at : Option ℕ → Json → Items → Items
put_at none v xs = xs
put_at (some n) v xs = set_item n v xs

-- The assignment through the last part, where the child is known to exist.
unfoldable pub with_child : String → Json → Json → Json
unfolding int_of
with_child part v (arr xs) = arr (put_at (int_of part) v xs)
with_child part v (obj fs) = obj (set_field part v fs)
with_child part v d = d

-- `_get_by_path`, over the parts of the path
unfoldable pub get_by_path : List String → Json → Option Json
unfolding child
get_by_path [] d = some d
get_by_path (part ∷ parts) d = elim (child part d) [ none ↦ none | some c ↦ get_by_path parts c ]

-- `_set_by_path`; Python mutates the nested containers in place, so each is written back here.
-- `none` is an exception of the walk.
unfoldable pub set_by_path : List String → Json → Json → Option Json
unfolding child with_child
set_by_path [] v d = some v
set_by_path (part ∷ parts) v d = elim (child part d) [
  | none ↦ none
  | some c ↦ elim (set_by_path parts v c) [ none ↦ none | some c' ↦ some (with_child part c' d) ]
]

-- A `get` on a value that must be a dict; anything else has no such method.
abbrev pub dict_get : String → Json → Result (Option Json)
dict_get k (obj fs) = ok (get_field k fs)
dict_get k _ = err (runtime_error "no attribute 'get'")

abbrev pub is_str : String → Option Json → Bool
is_str t (some (str s)) = s =ˢ t
is_str t _ = false

-- The loop of `find_inbound`.
unfoldable pub find_tag : String → Items → Result Json
find_tag tag nil = err (key_error "Inbound tag not found")
find_tag tag (cons (obj fs) xs) =
    let rest = find_tag tag xs in if is_str tag (get_field "tag" fs) then ok (obj fs) else rest
find_tag tag (cons _ xs) = err (runtime_error "no attribute 'get'")

abbrev pub items_at : Option Json → Result Items
items_at none = ok nil
items_at (some (arr xs)) = ok xs
items_at (some (obj end)) = ok nil
items_at (some (str s)) = if s =ˢ "" then ok nil else err (runtime_error "no attribute 'get'")
items_at (some _) = err (runtime_error "inbounds is no list")

-- The inbounds that `config.get("inbounds", [])` iterates over. The loops call `get` on each, which the
-- characters of a text and the keys of a dict do not have.
unfoldable pub inbounds : Fields → Result Items
inbounds fs = items_at (get_field "inbounds" fs)

unfoldable pub find_inbound : Fields → String → Result Json
unfolding inbounds find_tag
find_inbound config tag = and_then (inbounds config) (find_tag tag)
