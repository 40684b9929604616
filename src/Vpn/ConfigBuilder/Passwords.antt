-- ===== src/Vpn/ConfigBuilder/Passwords.antt =====
-- What the next build of a Hysteria2 config is told about the passwords of the built one.
use vpn_control_panel.Prelude.{
  String, ◌≡◌, refl, false, none, some, ◌∷◌, ◌=ˢ◌, arith, ok, Yields, Yields-and_then, Yields-bind,
  Yields-ok,
}
use vpn_control_panel.Json.{Json, num, str, obj}
use vpn_control_panel.Json.Access.{dict_get}
use vpn_control_panel.Domain.Enums.{ConfigProfile}
use vpn_control_panel.Domain.Settings.{PanelSettings, VpnProfileSettings}
use vpn_control_panel.Vpn.PortPicker.{pick_port}
use vpn_control_panel.Vpn.ConfigBuilder.{BuildResult, BuildRequest, BuilderEnv, tls_server_name}
use vpn_control_panel.Vpn.ConfigBuilder.Tls.{resolve_tls}
use vpn_control_panel.Vpn.ConfigBuilder.Hysteria.{
  hysteria_config, build_hysteria2, password_of, obfs_password_of, hysteria_preferred,
}
use vpn_control_panel.Vpn.ConfigBuilder.{PreviousSecrets}
use vpn_control_panel.Vpn.ConfigBuilder.Previous.{
  no_secrets, with_keys, profile_secrets, inbounds_of, scan_inbounds, previous_for_regenerate,
}
use vpn_control_panel.Json.{null, nil}
use vpn_control_panel.Json.Access.{inbounds}
use vpn_control_panel.Vpn.ConfigBuilder.Stored.{
  IsStored, hysteria_config-IsStored, hysteria_passwords-IsStored,
}

inbounds_of-missing : (d : Json) → dict_get "inbounds" d ≡ ok none → inbounds_of d ≡ ok nil
unfolding inbounds
inbounds_of-missing (obj fs) h = ground (arith, h)
inbounds_of-missing null h = ground (arith, h)
inbounds_of-missing (Json.bool b) h = ground (arith, h)
inbounds_of-missing (num n) h = ground (arith, h)
inbounds_of-missing (str s) h = ground (arith, h)
inbounds_of-missing (Json.scalar s) h = ground (arith, h)
inbounds_of-missing (Json.arr xs) h = ground (arith, h)

-- What the next regeneration of the built config is told, are these passwords.
unfoldable pub Remembers : (Json → String) → String → String → BuildResult → Type 0
Remembers repr password obfs_password b =
    (p : PreviousSecrets) × (previous_for_regenerate repr ConfigProfile.hysteria2 b.config_data
        b.private_key b.public_key b.cert_fingerprint
      ≡ ok (some p))
    × (p.password ≡ some password)
    × (p.obfs_password ≡ some obfs_password)

stored-Remembers :
    (repr : Json → String) (password obfs_password : String) (b : BuildResult)
    → IsStored password obfs_password b.config_data
    → (password =ˢ "") ≡ false
    → (obfs_password =ˢ "") ≡ false
    → Remembers repr password obfs_password b
unfolding Remembers previous_for_regenerate scan_inbounds profile_secrets IsStored
stored-Remembers repr password obfs_password b stored w w' = (
  with_keys b.private_key b.public_key b.cert_fingerprint
      (record no_secrets { password = some password; obfs_password = some obfs_password }),
  rw
      (
        inbounds_of-missing b.config_data (stored.2),
        hysteria_passwords-IsStored repr password obfs_password b.config_data stored w w',
      )
      refl,
  refl,
  refl,
)

module _ (repr : Json → String) (env : BuilderEnv) (settings : PanelSettings)
    (profile : VpnProfileSettings) (req : BuildRequest) where
  build_hysteria2-Remembers :
      (config : Json)
      → dict_get "inbounds" config ≡ ok none
      → (password_of env req =ˢ "") ≡ false
      → (obfs_password_of env req =ˢ "") ≡ false
      → Yields
          (Remembers repr (password_of env req) (obfs_password_of env req))
          (build_hysteria2 env settings profile req config)
  unfolding build_hysteria2
  build_hysteria2-Remembers config missing w w' =
      let password = password_of env req in
      let obfs = obfs_password_of env req in
      let Q = Remembers repr password obfs in
      let name = tls_server_name settings profile req.share_public_host in
      Yields-and_then Q
        (pick_port env.udp_available env.choose_port profile.port_candidates
          (settings.server_port ∷ req.exclude_ports)
          (hysteria_preferred profile req.preferred_port))
        _
        λ port _.
          Yields-and_then Q
            (resolve_tls env profile req.previous name req.policy.rotate_tls "hysteria") _
            λ m _.
              Yields-bind (IsStored password obfs) Q
                (hysteria_config port password obfs name m config) _
                (hysteria_config-IsStored port password obfs name m config missing)
                λ done stored. stored-Remembers repr password obfs _ stored w w'

-- When a Hysteria2 config was built on a template without inbounds, from passwords that are not
-- empty, what the next regeneration is told are just these two passwords.
pub build_hysteria2-previous_for_regenerate :
    (repr : Json → String) (env : BuilderEnv) (settings : PanelSettings)
    (profile : VpnProfileSettings) (req : BuildRequest) (config : Json) (b : BuildResult)
    → dict_get "inbounds" config ≡ ok none
    → (password_of env req =ˢ "") ≡ false
    → (obfs_password_of env req =ˢ "") ≡ false
    → build_hysteria2 env settings profile req config ≡ ok b
    → Remembers repr (password_of env req) (obfs_password_of env req) b
build_hysteria2-previous_for_regenerate repr env settings profile req config b missing w w' e =
    Yields-ok (Remembers repr (password_of env req) (obfs_password_of env req)) _ b
      (build_hysteria2-Remembers repr env settings profile req config missing w w') e
