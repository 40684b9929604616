-- ===== src/Vpn/Shared443/Sync.antt =====
-- `_load_live_configs_for_profile`, `_routes_for_mux_profile` and `sync_reality_shared_443`.
use vpn_control_panel.Prelude.{
  String, Bool, true, false, Option, none, some, List, [], ◌∷◌, ◌++◌, ◌=ˢ◌, if◌then◌else◌, Result,
  ok, err, key_error, and_then, strip, get_or,
}
use vpn_control_panel.Json.{Json, obj, is_truthy}
use vpn_control_panel.Json.Access.{find_inbound}
use vpn_control_panel.Json.Reading.{fields_of}
use vpn_control_panel.Domain.Enums.{ConfigProfile}
use vpn_control_panel.Domain.Settings.{PanelSettings, VpnProfileSettings, profile_settings}
use vpn_control_panel.Vpn.ConfigBuilder.{nonempty}
use vpn_control_panel.Vpn.Shared443.{
  Routes, text_in, shared_443_enabled, panel_sni_hosts, set_route, render_shared_443_stream_conf,
}
use vpn_control_panel.Vpn.Shared443.Routes.{
  MuxEnv, mux_profiles, reality_sni_hosts, inbound_backend, tls_host_from_config,
  detect_mux_profile,
}

-- A file whose inbound is missing is left out; another exception of the search goes on.
abbrev keep_tagged : Result Json → Json → List Json → Result (List Json)
keep_tagged (ok inbound) d rest = ok (d ∷ rest)
keep_tagged (err e) d rest = elim e as (λ x. Result (List Json)) [
  | key_error s ↦ ok rest
  | _ ↦ err e
]

unfoldable pub keep_live : String → List (Result Json) → Result (List Json)
unfolding find_inbound
keep_live tag [] = ok []
keep_live tag (ok (obj fs) ∷ files) =
    let checked = keep_tagged (find_inbound fs tag) (obj fs) in
    and_then (keep_live tag files) λ rest. if tag =ˢ "" then ok (obj fs ∷ rest) else checked rest
keep_live tag (_ ∷ files) = keep_live tag files

unfoldable pub load_live_configs : MuxEnv → PanelSettings → ConfigProfile → Result (List Json)
unfolding profile_settings keep_live
load_live_configs env settings key = elim (profile_settings settings key) [
  | none ↦ ok []
  | some profile ↦ keep_live profile.inbound_tag (env.live_files key)
]

abbrev routes_to : String → List String → Routes
routes_to backend [] = []
routes_to backend (sni ∷ rest) = (sni, backend) ∷ routes_to backend rest

-- The config that was given, where it is truthy, else the first one on disk.
abbrev first_of : List Json → Option Json
first_of [] = none
first_of (d ∷ rest) = some d

abbrev given_or_first : Option Json → List Json → Option Json
given_or_first none live = first_of live
given_or_first (some given) live = if is_truthy given then some given else first_of live

abbrev reality_backend_routes : MuxEnv → VpnProfileSettings → Json → Option String → Result Routes
reality_backend_routes env profile d none = ok []
reality_backend_routes env profile d (some backend) =
    and_then (reality_sni_hosts env.repr profile d) (λ hosts. ok (routes_to backend hosts))

abbrev reality_routes_at : MuxEnv → VpnProfileSettings → Json → Result Json → Result Routes
reality_routes_at env profile d (err e) = ok []
reality_routes_at env profile d (ok inbound) =
    and_then (inbound_backend env.repr profile.listen_address inbound)
      (reality_backend_routes env profile d)

-- The routes of the one Reality config.
unfoldable pub reality_routes : MuxEnv → VpnProfileSettings → Option Json → Result Routes
unfolding reality_sni_hosts inbound_backend find_inbound
reality_routes env profile none = ok []
reality_routes env profile (some d) =
    reality_routes_at env profile d
      (and_then (fields_of d) (λ fs. find_inbound fs profile.inbound_tag))

-- The backends seen so far and the table of hosts.
pub record MuxTable : Type 0 where
  pub by_host : Routes
  pub seen_backends : List String

unfoldable pub add_backend : Option String → String → MuxTable → MuxTable
unfolding set_route
add_backend none backend t = t
add_backend (some host) backend t = record {
  by_host = set_route host backend t.by_host;
  seen_backends = backend ∷ t.seen_backends;
}

-- The name of the config, else the public host, where one is not blank.
unfoldable pub mux_host : PanelSettings → VpnProfileSettings → Option String → Option String
unfolding strip
mux_host settings profile (some host) = some host
mux_host settings profile none =
    nonempty (some (strip (get_or (nonempty profile.share_public_host) settings.vpn.public_host)))

abbrev mux_backend :
    PanelSettings
    → ConfigProfile
    → VpnProfileSettings
    → Json
    → Option String
    → MuxTable
    → Result MuxTable
mux_backend settings key profile d none t = ok t
mux_backend settings key profile d (some backend) t =
    let found = tls_host_from_config key d profile in
    if text_in backend t.seen_backends
    then ok t
    else and_then found (λ host. ok (add_backend (mux_host settings profile host) backend t))

abbrev mux_inbound :
    MuxEnv
    → PanelSettings
    → ConfigProfile
    → VpnProfileSettings
    → Json
    → Result Json
    → MuxTable
    → Result MuxTable
mux_inbound env settings key profile d (err e) t = ok t
mux_inbound env settings key profile d (ok inbound) t =
    and_then (inbound_backend env.repr profile.listen_address inbound)
      (λ backend. mux_backend settings key profile d backend t)

-- One round of the loop over the configs of a profile.
unfoldable pub add_live_config :
    MuxEnv → PanelSettings → ConfigProfile → VpnProfileSettings → MuxTable → Json → Result MuxTable
unfolding inbound_backend tls_host_from_config add_backend mux_host find_inbound
add_live_config env settings key profile t d =
    mux_inbound env settings key profile d
      (and_then (fields_of d) (λ fs. find_inbound fs profile.inbound_tag)) t

unfoldable pub add_configs :
    MuxEnv
    → PanelSettings
    → ConfigProfile
    → VpnProfileSettings
    → MuxTable
    → List Json
    → Result MuxTable
unfolding add_live_config
add_configs env settings key profile t [] = ok t
add_configs env settings key profile t (d ∷ rest) =
    and_then (add_live_config env settings key profile t d)
      λ u. add_configs env settings key profile u rest

abbrev with_given : List Json → Option Json → List Json
with_given live none = live
with_given live (some d) = live ++ d ∷ []

abbrev routes_of :
    MuxEnv
    → PanelSettings
    → ConfigProfile
    → VpnProfileSettings
    → Option Json
    → List Json
    → Result Routes
routes_of env settings ConfigProfile.xray_reality profile given live =
    reality_routes env profile (given_or_first given live)
routes_of env settings key profile given live =
    and_then
      (add_configs env settings key profile (record { by_host = []; seen_backends = [] })
        (with_given live given))
      (λ t. ok t.by_host)

-- Reality reads the files on disk only when no config is given.
abbrev live_for : MuxEnv → PanelSettings → ConfigProfile → Option Json → Result (List Json)
live_for env settings ConfigProfile.xray_reality (some given) =
    if is_truthy given then ok [] else load_live_configs env settings ConfigProfile.xray_reality
live_for env settings key given = load_live_configs env settings key

-- `_routes_for_mux_profile`
unfoldable pub routes_for_mux_profile :
    MuxEnv → PanelSettings → ConfigProfile → Option Json → Result Routes
unfolding profile_settings shared_443_enabled load_live_configs reality_routes add_configs
routes_for_mux_profile env settings key given = elim (profile_settings settings key) [
  | none ↦ ok []
  | some profile ↦
      if shared_443_enabled profile
      then and_then (live_for env settings key given) (routes_of env settings key profile given)
      else ok []
]

abbrev same_profile : ConfigProfile → Option ConfigProfile → Bool
same_profile ConfigProfile.xray_reality (some ConfigProfile.xray_reality) = true
same_profile ConfigProfile.xray_xhttp (some ConfigProfile.xray_xhttp) = true
same_profile ConfigProfile.xray_grpc (some ConfigProfile.xray_grpc) = true
same_profile ConfigProfile.hysteria2 (some ConfigProfile.hysteria2) = true
same_profile _ _ = false

-- The config is given to the profile that owns it; the others scan the disk.
unfoldable pub all_routes :
    MuxEnv → PanelSettings → Json → Option ConfigProfile → List ConfigProfile → Result Routes
unfolding routes_for_mux_profile
all_routes env settings config_data owner [] = ok []
all_routes env settings config_data owner (key ∷ keys) =
    and_then
      (routes_for_mux_profile env settings key
        (if same_profile key owner then some config_data else none))
      λ here. and_then (all_routes env settings config_data owner keys) λ more. ok (here ++ more)

-- The path of the stream file and its text.
abbrev pub StreamFile : Type 0
StreamFile = Option (String × String)

abbrev stream_path : VpnProfileSettings → String
stream_path reality =
    get_or (nonempty reality.nginx_stream_conf) "/etc/nginx/stream.d/vcp-shared-443.conf"

abbrev sync_enabled :
    MuxEnv → PanelSettings → VpnProfileSettings → Json → List String → Result StreamFile
sync_enabled env settings reality config_data [] = ok none
sync_enabled env settings reality config_data (sni ∷ snis) =
    let backend = strip (get_or (nonempty reality.nginx_panel_backend) "127.0.0.1:8443") in
    let owner = detect_mux_profile settings config_data mux_profiles in
    and_then (all_routes env settings config_data owner mux_profiles) λ routes.
      ok (some (stream_path reality, render_shared_443_stream_conf (sni ∷ snis) backend routes))

-- What `sync_reality_shared_443` hands to systemctl, if anything.
unfoldable pub sync_reality_shared_443 : MuxEnv → PanelSettings → Json → Result StreamFile
unfolding profile_settings shared_443_enabled panel_sni_hosts detect_mux_profile all_routes strip
    render_shared_443_stream_conf
sync_reality_shared_443 env settings config_data =
    elim (profile_settings settings ConfigProfile.xray_reality) [
      | none ↦ ok none
      | some reality ↦
          if shared_443_enabled reality
          then sync_enabled env settings reality config_data (panel_sni_hosts settings)
          else ok none
    ]
