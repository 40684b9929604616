-- ===== src/Domain/Policy.antt =====
-- panel/domain/value_objects/regenerate_policy.py: which parts of a config a regeneration may
-- change. A stored policy is a dict of flags; pydantic fills in the class defaults for missing
-- keys and passes over unknown ones, which `model_validate` and `model_copy` write out here.
use vpn_control_panel.Prelude.{
  String, Bool, true, false, Option, none, some, List, [], ◌∷◌, ◌&&◌, not, ◌=ˢ◌, ◌==◌, any,
  if◌then◌else◌,
}
use vpn_control_panel.Domain.Enums.{ConfigProfile, is_hysteria}
use vpn_control_panel.Domain.Settings.{VpnProfileSettings}

pub record RegeneratePolicy : Type 0 where
  pub rotate_port : Bool
  pub rotate_client_id : Bool
  pub rotate_reality_keys : Bool
  pub rotate_short_ids : Bool
  pub rotate_dest : Bool
  pub rotate_path : Bool
  pub rotate_service_name : Bool
  pub rotate_tls : Bool
  pub rotate_auth : Bool
  pub rotate_obfs : Bool

-- The defaults of the class's fields.
abbrev pub class_defaults : RegeneratePolicy
class_defaults = record {
  rotate_port = true;
  rotate_client_id = true;
  rotate_reality_keys = true;
  rotate_short_ids = true;
  rotate_dest = true;
  rotate_path = true;
  rotate_service_name = false;
  rotate_tls = true;
  rotate_auth = false;
  rotate_obfs = false;
}

abbrev pub is_nonempty : Option String → Bool
is_nonempty none = false
is_nonempty (some s) = not (s =ˢ "")

-- `share_port is not None and share_port in port_candidates`
abbrev pub port_is_pinned : VpnProfileSettings → Bool
port_is_pinned s = elim s.share_public_port [
  | none ↦ false
  | some p ↦ any (λ c. c == p) s.port_candidates
]

unfoldable pub keeps_port : ConfigProfile → Option VpnProfileSettings → Bool
keeps_port p none = false
keeps_port p (some s) = is_hysteria p && port_is_pinned s

unfoldable pub has_external_tls : Option VpnProfileSettings → Bool
has_external_tls none = false
has_external_tls (some s) = is_nonempty s.tls_cert_file && is_nonempty s.tls_key_file

unfoldable pub for_profile : ConfigProfile → Option VpnProfileSettings → RegeneratePolicy
unfolding has_external_tls
for_profile ConfigProfile.xray_reality s = record class_defaults {
  rotate_port = not (keeps_port ConfigProfile.xray_reality s);
  rotate_tls = true;
}
for_profile ConfigProfile.xray_xhttp s = record {
  rotate_port = not (keeps_port ConfigProfile.xray_xhttp s);
  rotate_client_id = true;
  rotate_reality_keys = false;
  rotate_short_ids = false;
  rotate_dest = false;
  rotate_path = true;
  rotate_service_name = false;
  rotate_tls = not (has_external_tls s);
  rotate_auth = false;
  rotate_obfs = false;
}
for_profile ConfigProfile.xray_grpc s = record {
  rotate_port = not (keeps_port ConfigProfile.xray_grpc s);
  rotate_client_id = true;
  rotate_reality_keys = false;
  rotate_short_ids = false;
  rotate_dest = false;
  rotate_path = false;
  rotate_service_name = false;
  rotate_tls = not (has_external_tls s);
  rotate_auth = false;
  rotate_obfs = false;
}
for_profile ConfigProfile.hysteria2 s = record {
  rotate_port = not (keeps_port ConfigProfile.hysteria2 s);
  rotate_client_id = false;
  rotate_reality_keys = false;
  rotate_short_ids = false;
  rotate_dest = false;
  rotate_path = false;
  rotate_service_name = false;
  rotate_tls = not (has_external_tls s);
  rotate_auth = false;
  rotate_obfs = false;
}

abbrev pub Flags : Type 0
Flags = List (String × Bool)

-- One key of an update; a later entry for a key wins, as in a dict built in that order.
unfoldable pub set_flag : RegeneratePolicy → String → Bool → RegeneratePolicy
set_flag p k b =
    if k =ˢ "rotate_port"
    then record p { rotate_port = b }
    else if k =ˢ "rotate_client_id"
    then record p { rotate_client_id = b }
    else if k =ˢ "rotate_reality_keys"
    then record p { rotate_reality_keys = b }
    else if k =ˢ "rotate_short_ids"
    then record p { rotate_short_ids = b }
    else if k =ˢ "rotate_dest"
    then record p { rotate_dest = b }
    else if k =ˢ "rotate_path"
    then record p { rotate_path = b }
    else if k =ˢ "rotate_service_name"
    then record p { rotate_service_name = b }
    else if k =ˢ "rotate_tls"
    then record p { rotate_tls = b }
    else if k =ˢ "rotate_auth"
    then record p { rotate_auth = b }
    else if k =ˢ "rotate_obfs"
    then record p { rotate_obfs = b }
    else p

-- `p.model_copy(update=flags)`
unfoldable pub model_copy : RegeneratePolicy → Flags → RegeneratePolicy
unfolding set_flag
model_copy p [] = p
model_copy p ((k, b) ∷ flags) = model_copy (set_flag p k b) flags

-- `p.model_dump()`
unfoldable pub to_stored : RegeneratePolicy → Flags
to_stored p =
    ("rotate_port", p.rotate_port)
    ∷ ("rotate_client_id", p.rotate_client_id)
    ∷ ("rotate_reality_keys", p.rotate_reality_keys)
    ∷ ("rotate_short_ids", p.rotate_short_ids)
    ∷ ("rotate_dest", p.rotate_dest)
    ∷ ("rotate_path", p.rotate_path)
    ∷ ("rotate_service_name", p.rotate_service_name)
    ∷ ("rotate_tls", p.rotate_tls)
    ∷ ("rotate_auth", p.rotate_auth)
    ∷ ("rotate_obfs", p.rotate_obfs)
    ∷ []

unfoldable pub from_stored :
    Option Flags → ConfigProfile → Option VpnProfileSettings → RegeneratePolicy
from_stored none profile settings = for_profile profile settings
from_stored (some raw) profile settings = model_copy class_defaults raw
