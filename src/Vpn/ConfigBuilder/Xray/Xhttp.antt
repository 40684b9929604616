-- ===== src/Vpn/ConfigBuilder/Xray/Xhttp.antt =====
-- The changes of `_build_xray_xhttp`.
use vpn_control_panel.Prelude.{String, Option, none, some, List, [], ◌∷◌, Result, ok, and_then}
use vpn_control_panel.Json.{Json, str, arr, obj, nil, cons, end, field}
use vpn_control_panel.Json.Editing.{put, edit, set_client_id}
use vpn_control_panel.Domain.Settings.{PanelSettings, VpnProfileSettings}
use vpn_control_panel.Vpn.ConfigBuilder.{
  BuildRequest, BuilderEnv, nonempty, secret, unless, tls_server_name,
}
use vpn_control_panel.Vpn.ConfigBuilder.Tls.{TlsMaterial, resolve_tls}
use vpn_control_panel.Vpn.ConfigBuilder.Xray.{InboundChange, client_id_of, certificates, tls_change}

abbrev path_or_draw : BuilderEnv → List String → Option String → Json → Result Json
path_or_draw env paths (some path) xhttp = put "path" (str path) xhttp
path_or_draw env [] none xhttp = ok xhttp
path_or_draw env (path ∷ paths) none xhttp = put "path" (str (env.choose (path ∷ paths))) xhttp

unfoldable pub xhttp_settings :
    BuilderEnv → VpnProfileSettings → BuildRequest → String → Json → Result Json
unfolding put
xhttp_settings env profile req tls_name xhttp =
    and_then (put "host" (str tls_name) xhttp) λ with_host.
      and_then (put "mode" (str "stream-up") with_host) (
        path_or_draw env profile.xhttp_paths
          (unless req.policy.rotate_path (nonempty (secret req.previous (λ p. p.xhttp_path)))))

unfoldable pub xhttp_tls : String → TlsMaterial → Json
unfolding certificates
xhttp_tls tls_name m = obj (
    field "serverName" (str tls_name) (
      field "alpn" (arr (cons (str "h2") (cons (str "http/1.1") nil)))
        (field "certificates" (certificates m) end)))

unfoldable pub change_xhttp :
    BuilderEnv → PanelSettings → VpnProfileSettings → BuildRequest → Json → Result InboundChange
unfolding set_client_id client_id_of edit put tls_server_name xhttp_settings resolve_tls xhttp_tls
change_xhttp env settings profile req inbound =
    let tls_name = tls_server_name settings profile req.share_public_host in
    and_then (set_client_id (client_id_of env req) inbound) λ with_client.
      and_then (edit "streamSettings" (put "security" (str "tls")) with_client) λ secured.
        and_then
          (edit "streamSettings" (edit "xhttpSettings" (xhttp_settings env profile req tls_name))
            secured)
          λ with_xhttp.
            and_then (resolve_tls env profile req.previous tls_name req.policy.rotate_tls "xhttp")
              λ m.
                and_then
                  (edit "streamSettings" (put "tlsSettings" (xhttp_tls tls_name m)) with_xhttp)
                  λ done. ok (tls_change done m)
