-- ===== src/Json/Editing.antt =====
-- Assignments into documents. Python changes the nested containers in place through references;
-- here each changed container is written back. `find_inbound` and `set_client_id` of
-- panel/infrastructure/vpn/template_loader.py work on an inbound of the config this way.
pub mod Laws
use vpn_control_panel.Prelude.{
  String, Bool, true, false, Option, none, some, List, [], ◌∷◌, ◌=ˢ◌, if◌then◌else◌, Result, ok,
  err, and_then, get_or,
}
use vpn_control_panel.Json.{
  Json, null, arr, obj, Items, nil, cons, Fields, end, field, get_field, set_field,
}
use vpn_control_panel.Json.Access.{dict_get, is_str, find_inbound}
use vpn_control_panel.Json.Reading.{type_error, subscript, to_list}

-- `d[key] = value`
unfoldable pub put : String → Json → Json → Result Json
put k v (obj fs) = ok (obj (set_field k v fs))
put k v _ = err type_error

-- A change of the container `d[key]`.
unfoldable pub edit : String → (Json → Result Json) → Json → Result Json
unfolding subscript put
edit k f d = and_then (subscript k d) λ c. and_then (f c) λ c'. put k c' d

abbrev pub remove_field : String → Fields → Fields
remove_field k end = end
remove_field k (field j v fs) = if j =ˢ k then fs else field j v (remove_field k fs)

-- `d.pop(key, None)`
unfoldable pub pop : String → Json → Result Json
pop k (obj fs) = ok (obj (remove_field k fs))
pop k _ = err type_error

-- The first inbound with the tag is another document.
unfoldable pub replace_tag : String → Json → Items → Items
replace_tag tag new nil = nil
replace_tag tag new (cons (obj fs) xs) =
    let rest = replace_tag tag new xs in
    if is_str tag (get_field "tag" fs) then cons new xs else cons (obj fs) rest
replace_tag tag new (cons x xs) = cons x xs

abbrev pub replaced : String → Json → Option Json → Json
replaced tag new (some (arr xs)) = arr (replace_tag tag new xs)
replaced tag new _ = arr nil

-- The config after a change of the inbound that was found in it.
unfoldable pub with_inbound : String → Json → Fields → Json
unfolding replace_tag
with_inbound tag new fs = obj (set_field "inbounds" (replaced tag new (get_field "inbounds" fs)) fs)

-- The loop over the clients; each must be a dict.
unfoldable pub set_ids : Json → Items → Result Items
unfolding put
set_ids id nil = ok nil
set_ids id (cons client xs) =
    and_then (put "id" id client) λ c. and_then (set_ids id xs) λ cs. ok (cons c cs)

-- A value other than a list has no elements that take an assignment.
abbrev nothing_to_set : Json → Json → Result Json
nothing_to_set clients settings =
    and_then (to_list clients) λ xs. elim xs [ [] ↦ ok settings | x ∷ rest ↦ err type_error ]

unfoldable pub set_clients : Json → Json → Option Json → Result Json
unfolding set_ids put to_list
set_clients id settings none = ok settings
set_clients id settings (some (arr xs)) =
    and_then (set_ids id xs) λ ys. put "clients" (arr ys) settings
set_clients id settings (some v) = nothing_to_set v settings

unfoldable pub set_settings : Json → Json → Option Json → Result Json
unfolding set_clients put
set_settings id inbound none = ok inbound
set_settings id inbound (some settings) =
    and_then (dict_get "clients" settings) λ clients.
      and_then (set_clients id settings clients) λ changed. put "settings" changed inbound

-- `set_client_id`, on the inbound that it finds: missing settings are nothing to change.
unfoldable pub set_client_id : Json → Json → Result Json
unfolding set_settings
set_client_id id inbound = and_then (dict_get "settings" inbound) (set_settings id inbound)
