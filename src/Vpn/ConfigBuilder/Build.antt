-- ===== src/Vpn/ConfigBuilder/Build.antt =====
-- `ProfileConfigBuilder.build`, `listening_port` and `build_client_uris`.
use vpn_control_panel.Prelude.{
  ℕ, String, Bool, Option, some, List, Result, and_then, or_raise, key_error, strip, get_or,
}
use vpn_control_panel.Json.{Json}
use vpn_control_panel.Json.Access.{find_inbound}
use vpn_control_panel.Json.Reading.{fields_of, subscript, int_value}
use vpn_control_panel.Domain.Enums.{ConfigProfile}
use vpn_control_panel.Domain.Policy.{RegeneratePolicy, for_profile}
use vpn_control_panel.Domain.Settings.{PanelSettings, VpnProfileSettings, profile_settings}
use vpn_control_panel.Vpn.ClientUri.{UriOps}
use vpn_control_panel.Vpn.ClientUri.Builders.{listen_port, build_share_uris}
use vpn_control_panel.Vpn.ConfigBuilder.{
  BuildResult, BuildRequest, BuilderEnv, nonempty, tls_server_name, resolve_template_path,
  load_template,
}
use vpn_control_panel.Vpn.ConfigBuilder.Xray.{build_inbound}
use vpn_control_panel.Vpn.ConfigBuilder.Xray.Reality.{change_reality}
use vpn_control_panel.Vpn.ConfigBuilder.Xray.Grpc.{change_grpc}
use vpn_control_panel.Vpn.ConfigBuilder.Xray.Xhttp.{change_xhttp}
use vpn_control_panel.Vpn.ConfigBuilder.Hysteria.{build_hysteria2}

unfoldable pub listening_port :
    (Json → String) → ConfigProfile → Json → VpnProfileSettings → Result ℕ
unfolding listen_port find_inbound subscript int_value
listening_port repr ConfigProfile.hysteria2 config_data profile = listen_port repr config_data
listening_port repr _ config_data profile = and_then (fields_of config_data) λ fs.
    and_then (find_inbound fs profile.inbound_tag)
      λ inbound. and_then (subscript "port" inbound) int_value

-- `(share_public_host or "").strip() or None`
unfoldable pub with_host_override : BuildRequest → BuildRequest
unfolding strip
with_host_override req = record req {
  share_public_host = nonempty (some (strip (get_or req.share_public_host "")));
}

unfoldable pub build_xray_reality :
    BuilderEnv → PanelSettings → VpnProfileSettings → BuildRequest → Json → Result BuildResult
unfolding build_inbound change_reality
build_xray_reality env settings profile req config =
    build_inbound env profile req (change_reality env profile req) config

unfoldable pub build_xray_grpc :
    BuilderEnv → PanelSettings → VpnProfileSettings → BuildRequest → Json → Result BuildResult
unfolding build_inbound change_grpc
build_xray_grpc env settings profile req config =
    build_inbound env profile req (change_grpc env settings profile req) config

unfoldable pub build_xray_xhttp :
    BuilderEnv → PanelSettings → VpnProfileSettings → BuildRequest → Json → Result BuildResult
unfolding build_inbound change_xhttp
build_xray_xhttp env settings profile req config =
    build_inbound env profile req (change_xhttp env settings profile req) config

-- The builder of the profile, on the loaded template.
unfoldable pub build_profile :
    BuilderEnv
    → PanelSettings
    → VpnProfileSettings
    → BuildRequest
    → ConfigProfile
    → Json
    → Result BuildResult
unfolding build_xray_reality build_xray_grpc build_xray_xhttp build_hysteria2
build_profile env settings profile req ConfigProfile.xray_reality config =
    build_xray_reality env settings profile req config
build_profile env settings profile req ConfigProfile.xray_grpc config =
    build_xray_grpc env settings profile req config
build_profile env settings profile req ConfigProfile.xray_xhttp config =
    build_xray_xhttp env settings profile req config
build_profile env settings profile req ConfigProfile.hysteria2 config =
    build_hysteria2 env settings profile req config

-- `policy or RegeneratePolicy.for_profile(profile, profile_settings)`
unfoldable pub with_resolved_policy :
    Option RegeneratePolicy → VpnProfileSettings → BuildRequest → BuildRequest
unfolding for_profile
with_resolved_policy policy profile req = record req {
  policy = get_or policy (for_profile req.profile (some profile));
}

-- The build from the settings of the profile.
unfoldable pub build_loaded :
    BuilderEnv
    → PanelSettings
    → Option RegeneratePolicy
    → BuildRequest
    → VpnProfileSettings
    → Result BuildResult
unfolding resolve_template_path load_template build_profile with_host_override with_resolved_policy
build_loaded env settings policy req profile =
    and_then (resolve_template_path env settings profile.template_file) λ path.
      and_then (load_template env path) λ config.
        build_profile env settings profile
          (with_host_override (with_resolved_policy policy profile req)) req.profile config

-- The `policy` argument is separate, and that of the request is what the parts read after it.
unfoldable pub build :
    BuilderEnv → PanelSettings → Option RegeneratePolicy → BuildRequest → Result BuildResult
unfolding profile_settings build_loaded
build env settings policy req =
    and_then (or_raise (profile_settings settings req.profile) (key_error "profile"))
      (build_loaded env settings policy req)

-- `build_client_uris`
unfoldable pub build_client_uris :
    UriOps
    → PanelSettings
    → ConfigProfile
    → Json
    → String
    → String
    → Bool
    → Option String
    → Result (List String)
unfolding profile_settings tls_server_name build_share_uris
build_client_uris ops settings profile config_data public_key cert_fingerprint secure host =
    and_then (or_raise (profile_settings settings profile) (key_error "profile")) λ ps.
      build_share_uris ops
        (record {
          host = tls_server_name settings ps host;
          public_key = public_key;
          cert_fingerprint = cert_fingerprint;
          inbound_tag = ps.inbound_tag;
          secure = secure;
          public_port = ps.share_public_port;
        })
        profile config_data
