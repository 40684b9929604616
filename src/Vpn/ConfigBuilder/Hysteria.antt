-- ===== src/Vpn/ConfigBuilder/Hysteria.antt =====
-- `_build_hysteria2`.
use vpn_control_panel.Prelude.{
  ℕ, String, Option, none, some, [], ◌∷◌, if◌then◌else◌, Result, ok, and_then, concat, decimal,
  get_or,
}
use vpn_control_panel.Json.{Json, str, obj, end, field}
use vpn_control_panel.Json.Editing.{put, edit}
use vpn_control_panel.Domain.Settings.{PanelSettings, VpnProfileSettings}
use vpn_control_panel.Domain.Policy.{port_is_pinned}
use vpn_control_panel.Vpn.PortPicker.{pick_port}
use vpn_control_panel.Vpn.ConfigBuilder.{
  BuildResult, BuildRequest, BuilderEnv, nonempty, secret, unless, tls_server_name,
}
use vpn_control_panel.Vpn.ConfigBuilder.Tls.{TlsMaterial, resolve_tls}

-- The preferred port of the request, or the pinned public port where it is a candidate.
unfoldable pub hysteria_preferred : VpnProfileSettings → Option ℕ → Option ℕ
hysteria_preferred profile (some p) = some p
hysteria_preferred profile none = if port_is_pinned profile then profile.share_public_port else none

unfoldable pub password_of : BuilderEnv → BuildRequest → String
password_of env req =
    get_or (unless req.policy.rotate_auth (nonempty (secret req.previous (λ p. p.password))))
      env.new_password

unfoldable pub obfs_password_of : BuilderEnv → BuildRequest → String
obfs_password_of env req =
    get_or (unless req.policy.rotate_obfs (nonempty (secret req.previous (λ p. p.obfs_password))))
      env.new_obfs_password

unfoldable pub hysteria_tls : String → TlsMaterial → Json → Result Json
unfolding put
hysteria_tls tls_name m tls =
    and_then (put "cert" (str m.cert_file) tls)
      λ with_cert. and_then (put "key" (str m.key_file) with_cert) (put "sni" (str tls_name))

unfoldable pub obfs_settings : String → Json
obfs_settings password = obj (
    field "type" (str "salamander")
      (field "salamander" (obj (field "password" (str password) end)) end))

-- The assignments into the config, in their order.
unfoldable pub hysteria_config : ℕ → String → String → String → TlsMaterial → Json → Result Json
unfolding put edit hysteria_tls obfs_settings decimal
hysteria_config port password obfs_password tls_name m config =
    and_then (put "listen" (str (concat (":" ∷ decimal port ∷ []))) config) λ with_listen.
      and_then (edit "auth" (put "password" (str password)) with_listen) λ with_auth.
        and_then (edit "tls" (hysteria_tls tls_name m) with_auth)
          (put "obfs" (obfs_settings obfs_password))

unfoldable pub build_hysteria2 :
    BuilderEnv → PanelSettings → VpnProfileSettings → BuildRequest → Json → Result BuildResult
unfolding pick_port hysteria_preferred password_of obfs_password_of tls_server_name resolve_tls
    hysteria_config
build_hysteria2 env settings profile req config =
    let tls_name = tls_server_name settings profile req.share_public_host in
    and_then
      (pick_port env.udp_available env.choose_port profile.port_candidates
        (settings.server_port ∷ req.exclude_ports) (hysteria_preferred profile req.preferred_port))
      λ port.
        and_then (resolve_tls env profile req.previous tls_name req.policy.rotate_tls "hysteria")
          λ m.
            and_then
              (hysteria_config port (password_of env req) (obfs_password_of env req) tls_name m
                config)
              λ done. ok (record {
                config_data = done;
                port = port;
                private_key = m.pair.private_pem;
                public_key = m.pair.cert_pem;
                cert_fingerprint = m.pair.fingerprint;
                client_id = none;
                extra_files = m.extra_files;
              })
