-- ===== src/Vpn/ConfigBuilder/Xray/Grpc.antt =====
-- The changes of `_build_xray_grpc`.
use vpn_control_panel.Prelude.{
  String, Bool, true, false, Option, none, some, List, [], ◌∷◌, any, ◌=ˢ◌, if◌then◌else◌, Result,
  ok, and_then, get_or, strip,
}
use vpn_control_panel.Json.{Json, str, arr, nil, cons}
use vpn_control_panel.Json.Editing.{put, edit, pop, set_client_id}
use vpn_control_panel.Domain.Settings.{PanelSettings, VpnProfileSettings}
use vpn_control_panel.Vpn.ConfigBuilder.{
  BuildRequest, BuilderEnv, nonempty, nonempty_json, secret, unless, tls_server_name,
}
use vpn_control_panel.Vpn.ConfigBuilder.Tls.{resolve_tls}
use vpn_control_panel.Vpn.ConfigBuilder.Xray.{InboundChange, client_id_of, certificates, tls_change}

-- A text that is one of the names.
abbrev listed_text : List String → Option Json → Option String
listed_text names (some (str s)) = if any (λ n. n =ˢ s) names then some s else none
listed_text names _ = none

abbrev or_previous : Option Json → Option String → Option Json
or_previous (some v) o = some v
or_previous none none = none
or_previous none (some s) = some (str s)

-- A name that was used before, where it is still one of the names.
unfoldable pub kept_name : List String → Option Json → Option String → Option String
kept_name names preferred previous =
    listed_text names (or_previous (nonempty_json preferred) (nonempty previous))

-- A name of the list: the one that is kept, or a random one.
abbrev pub name_or_draw : BuilderEnv → List String → Option String → String
name_or_draw env names kept = get_or kept (env.choose names)

abbrev sni_from : BuilderEnv → BuildRequest → List String → String → String × Bool
sni_from env req [] default = (default, false)
sni_from env req (host ∷ hosts) default =
    let kept =
      kept_name (host ∷ hosts) req.preferred_grpc_sni (secret req.previous (λ p. p.grpc_sni)) in
    (name_or_draw env (host ∷ hosts) kept, true)

-- The server name of a gRPC config, and whether it is written into its TLS settings.
unfoldable pub grpc_sni_of :
    BuilderEnv → PanelSettings → VpnProfileSettings → BuildRequest → String × Bool
unfolding strip tls_server_name kept_name
grpc_sni_of env settings profile req =
    let default = tls_server_name settings profile req.share_public_host in
    let pinned =
      strip (
        get_or (nonempty req.share_public_host) (get_or (nonempty profile.share_public_host) "")) in
    if pinned =ˢ "" then sni_from env req profile.grpc_sni_hosts default else (default, true)

unfoldable pub grpc_tls : String × Bool → Json → Result Json
unfolding put pop
grpc_tls sni tls = and_then (put "alpn" (arr (cons (str "h2") nil)) tls) λ with_alpn.
    and_then (pop "fingerprint" with_alpn)
      λ bare. if sni.1 then put "serverName" (str sni.0) bare else ok bare

unfoldable pub grpc_service : BuilderEnv → BuildRequest → List String → Json → Result Json
unfolding kept_name put
grpc_service env req [] grpc = ok grpc
grpc_service env req (name ∷ names) grpc =
    let kept = unless req.policy.rotate_service_name (
      kept_name (name ∷ names) req.preferred_grpc_service_name
        (secret req.previous (λ p. p.grpc_service_name))) in
    put "serviceName" (str (name_or_draw env (name ∷ names) kept)) grpc

unfoldable pub change_grpc :
    BuilderEnv → PanelSettings → VpnProfileSettings → BuildRequest → Json → Result InboundChange
unfolding set_client_id client_id_of edit grpc_sni_of grpc_tls grpc_service resolve_tls certificates
    put
change_grpc env settings profile req inbound =
    let sni = grpc_sni_of env settings profile req in
    and_then (set_client_id (client_id_of env req) inbound) λ with_client.
      and_then (edit "streamSettings" (edit "tlsSettings" (grpc_tls sni)) with_client) λ with_tls.
        and_then
          (edit "streamSettings"
            (edit "grpcSettings" (grpc_service env req profile.grpc_service_names)) with_tls)
          λ with_service.
            and_then (resolve_tls env profile req.previous sni.0 req.policy.rotate_tls "grpc") λ m.
              and_then
                (edit "streamSettings" (edit "tlsSettings" (put "certificates" (certificates m)))
                  with_service)
                λ done. ok (tls_change done m)
