-- ===== src/Vpn/ConfigBuilder/Keeps.antt =====
-- The changes of a profile leave the other keys of the inbound as they are.
use vpn_control_panel.Prelude.{
  String, ◌≡◌, false, ◌=ˢ◌, Result, and_then, Yields, Yields-and_then, Yields-bind,
}
use vpn_control_panel.Json.{Json, str}
use vpn_control_panel.Json.Editing.{put, edit, set_client_id}
use vpn_control_panel.Json.Editing.Laws.{Has, edit-keeps, set_client_id-keeps}
use vpn_control_panel.Domain.Settings.{PanelSettings, VpnProfileSettings}
use vpn_control_panel.Vpn.ConfigBuilder.{BuildRequest, BuilderEnv, tls_server_name}
use vpn_control_panel.Vpn.ConfigBuilder.Tls.{resolve_tls}
use vpn_control_panel.Vpn.ConfigBuilder.Xray.{InboundChange, client_id_of, certificates}
use vpn_control_panel.Vpn.ConfigBuilder.Xray.Reality.{reality_settings, change_reality}
use vpn_control_panel.Vpn.ConfigBuilder.Xray.Grpc.{grpc_sni_of, grpc_tls, grpc_service, change_grpc}
use vpn_control_panel.Vpn.ConfigBuilder.Xray.Xhttp.{xhttp_settings, xhttp_tls, change_xhttp}

-- A key of the inbound that no profile changes.
unfoldable pub IsOther : String → Type 0
IsOther j = (("streamSettings" =ˢ j) ≡ false) × (("settings" =ˢ j) ≡ false)

module _ (env : BuilderEnv) (settings : PanelSettings) (profile : VpnProfileSettings)
    (req : BuildRequest) (j : String) (w : Json) (other : IsOther j) where
  abbrev Keeps : InboundChange → Type 0
  Keeps change = Has j w change.inbound

  edited :
      (k : String) (f : Json → Result Json) (inbound : Json)
      → (k =ˢ j) ≡ false
      → Has j w inbound
      → (g : Json → Result InboundChange) → ((done : Json) → Has j w done → Yields Keeps (g done))
      → Yields Keeps (and_then (edit k f inbound) g)
  edited k f inbound apart has g goes =
      Yields-bind (Has j w) Keeps (edit k f inbound) g (edit-keeps j w k f inbound apart has) goes

  with_client :
      (inbound : Json)
      → Has j w inbound
      → (g : Json → Result InboundChange) → ((done : Json) → Has j w done → Yields Keeps (g done))
      → Yields Keeps (and_then (set_client_id (client_id_of env req) inbound) g)
  unfolding IsOther
  with_client inbound has g goes =
      Yields-bind (Has j w) Keeps (set_client_id (client_id_of env req) inbound) g
        (set_client_id-keeps j w (client_id_of env req) inbound (other.1) has) goes

  pub change_reality-Keeps :
      (inbound : Json) → Has j w inbound → Yields Keeps (change_reality env profile req inbound)
  unfolding change_reality IsOther
  change_reality-Keeps inbound has =
      edited "streamSettings" (edit "realitySettings" (reality_settings env profile req)) inbound
        (other.0) has _ λ with_reality has'. with_client with_reality has' _ λ done kept. kept

  pub change_grpc-Keeps :
      (inbound : Json)
      → Has j w inbound
      → Yields Keeps (change_grpc env settings profile req inbound)
  unfolding change_grpc IsOther
  change_grpc-Keeps inbound has =
      let sni = grpc_sni_of env settings profile req in
      with_client inbound has _ λ a has_a.
        edited "streamSettings" (edit "tlsSettings" (grpc_tls sni)) a (other.0) has_a _ λ b has_b.
          edited "streamSettings"
            (edit "grpcSettings" (grpc_service env req profile.grpc_service_names)) b (other.0)
            has_b _
            λ c has_c.
              Yields-and_then Keeps
                (resolve_tls env profile req.previous sni.0 req.policy.rotate_tls "grpc") _
                λ m _.
                  edited "streamSettings" (edit "tlsSettings" (put "certificates" (certificates m)))
                    c (other.0) has_c _ λ done kept. kept

  pub change_xhttp-Keeps :
      (inbound : Json)
      → Has j w inbound
      → Yields Keeps (change_xhttp env settings profile req inbound)
  unfolding change_xhttp IsOther
  change_xhttp-Keeps inbound has =
      let name = tls_server_name settings profile req.share_public_host in
      with_client inbound has _ λ a has_a.
        edited "streamSettings" (put "security" (str "tls")) a (other.0) has_a _ λ b has_b.
          edited "streamSettings" (edit "xhttpSettings" (xhttp_settings env profile req name)) b
            (other.0) has_b _
            λ c has_c.
              Yields-and_then Keeps
                (resolve_tls env profile req.previous name req.policy.rotate_tls "xhttp") _
                λ m _.
                  edited "streamSettings" (put "tlsSettings" (xhttp_tls name m)) c (other.0) has_c _
                    λ done kept. kept
