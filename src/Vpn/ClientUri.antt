-- ===== src/Vpn/ClientUri.antt =====
-- panel/infrastructure/vpn/client_uri.py: the links that a client imports. The random choice of a
-- server name and the text that Python gives a list or a dict are parameters.
pub mod Builders
pub mod Query
pub mod Secure
pub mod Links
pub mod UserPart
use Prim.Native.String.{[] as empty, ◌∷◌ as ◌∷ˢ◌}
use vpn_control_panel.Prelude.{
  ℕ, zero, suc, String, Bool, true, false, ◌&&◌, not, Option, none, some, List, [], ◌∷◌, ◌=ˢ◌,
  if◌then◌else◌, Result, ok, err, and_then, strip, contains_char, before_last, remove_char, upper,
  concat, join, decimal, quote, lower, lstrip_char,
}
use vpn_control_panel.Json.{Json, null, str, arr, obj, nil, end, is_truthy}
use vpn_control_panel.Json.Reading.{get_or_value, text_of, to_list}
use vpn_control_panel.Domain.Enums.{ConfigProfile}

pub record UriOps : Type 0 where
  -- `random.choice`, of a list that is not empty
  pub choice : List String → String
  -- `str` of a list or a dict
  pub repr : Json → String

-- `_SHARE_LABELS`, which has every profile
abbrev pub share_label : ConfigProfile → String
share_label ConfigProfile.xray_reality = "Reality-Dynamic"
share_label ConfigProfile.xray_xhttp = "XHTTP-Dynamic"
share_label ConfigProfile.xray_grpc = "gRPC-Dynamic"
share_label ConfigProfile.hysteria2 = "Hysteria2-Dynamic"

-- `[str(name).strip() for name in names if str(name).strip()]`
unfoldable pub name_candidates : UriOps → List Json → List String
unfolding text_of strip
name_candidates ops [] = []
name_candidates ops (name ∷ names) =
    let rest = name_candidates ops names in
    let text = strip (text_of ops.repr name) in if text =ˢ "" then rest else text ∷ rest

abbrev choose : UriOps → List String → String
choose ops [] = ""
choose ops (name ∷ names) = ops.choice (name ∷ names)

unfoldable pub pick_server_name : UriOps → List Json → String
unfolding name_candidates
pick_server_name ops names = choose ops (name_candidates ops names)

-- `s.startswith("[")`
abbrev is_bracketed : String → Bool
is_bracketed s = elim s [ empty ↦ false | c ∷ˢ rest ↦ (c ∷ˢ empty) =ˢ "[" ]

unfoldable pub dest_hostname : String → String
unfolding strip contains_char before_last
dest_hostname dest =
    let value = strip dest in
    if contains_char b':' value && not (is_bracketed value)
    then strip (before_last b':' value)
    else value

abbrev or_name : String → Result String → Result String
or_name host other = if host =ˢ "" then other else ok host

unfoldable pub reality_share_sni : UriOps → Json → Result String
unfolding dest_hostname pick_server_name to_list get_or_value text_of
reality_share_sni ops reality = and_then (get_or_value "dest" (str "") reality) λ dest.
    or_name (dest_hostname (text_of ops.repr dest)) (
      and_then (get_or_value "serverNames" (arr nil) reality)
        λ names. and_then (to_list names) λ list. ok (pick_server_name ops list))

unfoldable pub pin_hex : String → String
unfolding remove_char upper
pin_hex cert_fingerprint = upper (remove_char b':' cert_fingerprint)

-- `f"{scheme}://{user}@{host}:{port}?{'&'.join(params)}#{quote(label)}"`
unfoldable pub link : String → String → String → ℕ → List String → String → String
unfolding decimal quote
link scheme user host port params label = concat (
    scheme
    ∷ "://"
    ∷ user
    ∷ "@"
    ∷ host
    ∷ ":"
    ∷ decimal port
    ∷ "?"
    ∷ join "&" params
    ∷ "#"
    ∷ quote "/" label
    ∷ [])

-- `f"{name}={quote(value, safe='')}"`
unfoldable pub param : String → String → String
unfolding quote
param name value = concat (name ∷ quote "" value ∷ [])

-- The pin of a secure link, where there is one; an insecure link says so and has no pin.
unfoldable pub tls_params : Bool → String → List String
unfolding pin_hex
tls_params true fingerprint =
    let pcs = pin_hex fingerprint in if pcs =ˢ "" then [] else concat ("pcs=" ∷ pcs ∷ []) ∷ []
tls_params false fingerprint = "insecure=1" ∷ []

unfoldable pub pin_params : Bool → String → List String
unfolding pin_hex
pin_params true fingerprint =
    let pin = pin_hex fingerprint in
    if pin =ˢ "" then "insecure=0" ∷ [] else concat ("pinSHA256=" ∷ pin ∷ []) ∷ "insecure=0" ∷ []
pin_params false fingerprint = "insecure=1" ∷ []
