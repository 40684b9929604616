-- ===== src/Vpn/Shared443/Routes.antt =====
-- The routes of the profiles, from the configs on disk and the one that was just written.
use vpn_control_panel.Prelude.{
  zero, suc, String, Bool, true, false, ◌||◌, Option, none, some, List, [], ◌∷◌, ◌=ˢ◌,
  if◌then◌else◌, Result, ok, err, and_then, strip, concat, get_or,
}
use vpn_control_panel.Json.{Json, null, bool, num, str, arr, obj, nil, cons, end, is_truthy}
use vpn_control_panel.Json.Access.{find_inbound}
use vpn_control_panel.Json.Reading.{
  type_error, fields_of, first_item, get_default, get_or_value, text_of, to_list,
}
use vpn_control_panel.Domain.Enums.{ConfigProfile}
use vpn_control_panel.Domain.Settings.{PanelSettings, VpnProfileSettings, profile_settings}
use vpn_control_panel.Vpn.ClientUri.{dest_hostname}
use vpn_control_panel.Vpn.ConfigBuilder.{nonempty}
use vpn_control_panel.Vpn.Shared443.{insert_text}

pub record MuxEnv : Type 0 where
  -- the parsed config files of a profile in the order of their paths; a file that cannot be
  -- read or parsed is an error
  pub live_files : ConfigProfile → List (Result Json)
  -- `str` of a list or a dict
  pub repr : Json → String

-- `_MUX_PROFILES`
abbrev pub mux_profiles : List ConfigProfile
mux_profiles = ConfigProfile.xray_reality ∷ ConfigProfile.xray_xhttp ∷ ConfigProfile.xray_grpc ∷ []

abbrev add_text : String → List String → List String
add_text s hosts = if s =ˢ "" then hosts else insert_text s hosts

abbrev add_dests : List String → List String → List String
add_dests [] hosts = hosts
add_dests (dest ∷ rest) hosts = add_dests rest (add_text (dest_hostname dest) hosts)

abbrev add_names : List String → List String → List String
add_names [] hosts = hosts
add_names (name ∷ rest) hosts = add_names rest (add_text (strip name) hosts)

-- The names of a config that are texts.
abbrev add_values : List Json → List String → List String
add_values [] hosts = hosts
add_values (str name ∷ rest) hosts = add_values rest (add_text (strip name) hosts)
add_values (_ ∷ rest) hosts = add_values rest hosts

-- `(config_data.get("inbounds") or [{}])[0]`
unfoldable pub first_inbound : Json → Result Json
unfolding get_or_value first_item
first_inbound config_data =
    and_then (get_or_value "inbounds" (arr (cons (obj end) nil)) config_data) first_item

abbrev or_else : Result Json → Result Json → Result Json
or_else (ok v) r = ok v
or_else (err e) r = r

unfoldable pub reality_of : VpnProfileSettings → Json → Result Json
unfolding find_inbound first_inbound get_or_value
reality_of profile config_data =
    let tag = get_or (nonempty (some profile.inbound_tag)) "inbound-reality" in
    and_then
      (or_else (and_then (fields_of config_data) (λ fs. find_inbound fs tag))
        (first_inbound config_data))
      λ inbound.
        and_then (get_or_value "streamSettings" (obj end) inbound)
          (get_or_value "realitySettings" (obj end))

abbrev add_dest : (Json → String) → Json → List String → List String
add_dest repr dest hosts =
    if is_truthy dest then add_text (dest_hostname (text_of repr dest)) hosts else hosts

unfoldable pub reality_sni_hosts :
    (Json → String) → VpnProfileSettings → Json → Result (List String)
unfolding reality_of get_or_value get_default to_list dest_hostname text_of insert_text strip
reality_sni_hosts repr profile config_data =
    let configured =
      add_names profile.reality_server_names (add_dests profile.reality_dest_hosts []) in
    and_then (reality_of profile config_data) λ reality.
      and_then (and_then (get_or_value "serverNames" (arr nil) reality) to_list) λ names.
        and_then (get_default "dest" null reality)
          λ dest. ok (add_dest repr dest (add_values names configured))

-- A port is an int from 1 on; `True` is the int 1.
abbrev is_port : Json → Bool
is_port (num zero) = false
is_port (num (suc n)) = true
is_port (bool b) = b
is_port _ = false

abbrev listen_host : String → String
listen_host listen =
    if listen =ˢ "0.0.0.0" || listen =ˢ "::" || listen =ˢ "" then "127.0.0.1" else listen

unfoldable pub inbound_backend : (Json → String) → Option String → Json → Result (Option String)
unfolding get_default get_or_value text_of strip
inbound_backend repr fallback inbound = and_then (get_default "port" null inbound) λ port.
    if is_port port
    then (and_then (get_or_value "listen" (str (get_or (nonempty fallback) "127.0.0.1")) inbound)
        λ listen.
          let host = listen_host (strip (text_of repr listen)) in
          ok (some (concat (host ∷ ":" ∷ text_of repr port ∷ []))))
    else ok none

-- `(value or "").strip()`, which only a text has
abbrev stripped_text : Json → Result String
stripped_text (str s) = ok (strip s)
stripped_text v = if is_truthy v then err type_error else ok ""

unfoldable pub named : String → String → Json → Result String
unfolding get_or_value strip
named part key d =
    and_then (get_or_value part (obj end) d)
      λ inner. and_then (get_or_value key (str "") inner) stripped_text

abbrev host_or : String → Result (Option String) → Result (Option String)
host_or host other = if host =ˢ "" then other else ok (some host)

-- The server name of the TLS settings, else the host of the XHTTP settings.
unfoldable pub stream_host : Json → Result (Option String)
unfolding get_or_value named
stream_host inbound = and_then (get_or_value "streamSettings" (obj end) inbound) λ stream.
    and_then (named "tlsSettings" "serverName" stream) λ sni.
      host_or sni (and_then (named "xhttpSettings" "host" stream) λ host. host_or host (ok none))

abbrev stream_host_if : Result Json → Result (Option String)
stream_host_if (ok inbound) = stream_host inbound
stream_host_if (err e) = ok none

unfoldable pub tls_host_from_config :
    ConfigProfile → Json → VpnProfileSettings → Result (Option String)
unfolding named stream_host find_inbound
tls_host_from_config ConfigProfile.hysteria2 data_ profile =
    and_then (named "tls" "sni" data_) λ host. host_or host (ok none)
tls_host_from_config _ data_ profile =
    stream_host_if (and_then (fields_of data_) (λ fs. find_inbound fs profile.inbound_tag))

-- The config has an inbound with the tag.
abbrev has_tag : Json → String → Bool
has_tag config_data tag = elim (and_then (fields_of config_data) (λ fs. find_inbound fs tag)) [
  | ok inbound ↦ true
  | err e ↦ false
]

-- `_detect_mux_profile_key`
unfoldable pub detect_mux_profile : PanelSettings → Json → List ConfigProfile → Option ConfigProfile
unfolding profile_settings find_inbound
detect_mux_profile settings config_data [] = none
detect_mux_profile settings config_data (key ∷ keys) =
    let rest = detect_mux_profile settings config_data keys in
    elim (profile_settings settings key) [
      | none ↦ rest
      | some profile ↦
          if profile.inbound_tag =ˢ ""
          then rest
          else if has_tag config_data profile.inbound_tag
          then some key
          else rest
    ]
