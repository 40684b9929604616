-- ===== src/Vpn/ConfigBuilder/Port.antt =====
-- The port of a built config is the port that was picked, and reading the config finds it.
use vpn_control_panel.Prelude.{
  ℕ, String, ◌≡◌, refl, sym, ap, ◌∙◌, Bool, true, false, Option, none, some, [], ◌∷◌, arith, Result,
  ok, and_then, Yields, Yields-and_then, Yields-bind, Yields-ok, Yields-pair, concat, decimal,
  or_raise, key_error,
}
use vpn_control_panel.Json.{Json, num, str, Fields}
use vpn_control_panel.Json.Access.{find_inbound}
use vpn_control_panel.Json.Reading.{fields_of, subscript, int_value}
use vpn_control_panel.Json.Editing.{put, with_inbound}
use vpn_control_panel.Json.Editing.Laws.{
  Has, put-Has, subscript-Has, put-keeps, find_inbound-Has, Finds, with_inbound-Finds,
}
use vpn_control_panel.Domain.Enums.{ConfigProfile}
use vpn_control_panel.Domain.Policy.{RegeneratePolicy}
use vpn_control_panel.Domain.Settings.{PanelSettings, VpnProfileSettings, profile_settings}
use vpn_control_panel.Vpn.PortPicker.{pick_port}
use vpn_control_panel.Vpn.ConfigBuilder.{
  BuildResult, BuildRequest, BuilderEnv, nonempty, tls_server_name, resolve_template_path,
  load_template,
}
use vpn_control_panel.Vpn.ConfigBuilder.Tls.{resolve_tls}
use vpn_control_panel.Vpn.ConfigBuilder.Xray.{InboundChange, build_inbound, built, set_listen}
use vpn_control_panel.Vpn.ConfigBuilder.Xray.Reality.{change_reality}
use vpn_control_panel.Vpn.ConfigBuilder.Xray.Grpc.{change_grpc}
use vpn_control_panel.Vpn.ConfigBuilder.Xray.Xhttp.{change_xhttp}
use vpn_control_panel.Vpn.ConfigBuilder.Hysteria.{
  hysteria_config, build_hysteria2, password_of, obfs_password_of, hysteria_preferred,
}
use vpn_control_panel.Vpn.ConfigBuilder.Build.{
  listening_port, build_xray_reality, build_xray_grpc, build_xray_xhttp, build_profile,
  build_loaded, build, with_resolved_policy, with_host_override,
}
use vpn_control_panel.Vpn.ConfigBuilder.Listen.{listen_port-Has, hysteria_config-Has}
use vpn_control_panel.Vpn.ConfigBuilder.Keeps.{
  IsOther, change_reality-Keeps, change_grpc-Keeps, change_xhttp-Keeps,
}

-- What a change of an inbound keeps at the keys that no profile changes.
KeepsOthers : (Json → Result InboundChange) → Type 0
KeepsOthers change =
    (j : String) (w : Json)
    → IsOther j
    → (inbound : Json) → Has j w inbound
    → Yields (λ c. Has j w c.inbound) (change inbound)

-- The inbound has its tag and the picked port.
IsTagged : String → ℕ → Json → Type 0
IsTagged tag port d = Has "tag" (str tag) d × Has "port" (num port) d

put-IsTagged :
    (tag : String) (port : ℕ) (inbound : Json)
    → Has "tag" (str tag) inbound
    → Yields (IsTagged tag port) (put "port" (num port) inbound)
unfolding IsTagged
put-IsTagged tag port inbound has =
    Yields-pair (Has "tag" (str tag)) (Has "port" (num port)) (put "port" (num port) inbound)
      (put-keeps "tag" (str tag) "port" (num port) inbound refl has)
      (put-Has "port" (num port) inbound)

set_listen-IsTagged :
    (tag : String) (port : ℕ) (listen : Option String) (inbound : Json)
    → IsTagged tag port inbound
    → Yields (IsTagged tag port) (set_listen listen inbound)
unfolding IsTagged
set_listen-IsTagged tag port none inbound has = has
set_listen-IsTagged tag port (some address) inbound (has_tag, has_port) =
    Yields-pair (Has "tag" (str tag)) (Has "port" (num port)) (put "listen" (str address) inbound)
      (put-keeps "tag" (str tag) "listen" (str address) inbound refl has_tag)
      (put-keeps "port" (num port) "listen" (str address) inbound refl has_port)

change-IsTagged :
    (change : Json → Result InboundChange) (tag : String) (port : ℕ) (inbound : Json)
    → KeepsOthers change
    → IsTagged tag port inbound
    → Yields (λ c. IsTagged tag port c.inbound) (change inbound)
unfolding IsTagged KeepsOthers IsOther
change-IsTagged change tag port inbound keeps (has_tag, has_port) =
    Yields-pair (λ c. Has "tag" (str tag) c.inbound) (λ c. Has "port" (num port) c.inbound)
      (change inbound) (keeps "tag" (str tag) (refl, refl) inbound has_tag)
      (keeps "port" (num port) (refl, refl) inbound has_port)

-- The built config has the port of the result where `listening_port` looks for it.
unfoldable pub IsListening :
    (Json → String) → ConfigProfile → VpnProfileSettings → BuildResult → Type 0
IsListening repr p profile b = listening_port repr p b.config_data profile ≡ ok b.port

port_of-IsTagged :
    (tag : String) (port : ℕ) (inbound : Json)
    → IsTagged tag port inbound
    → and_then (subscript "port" inbound) int_value ≡ ok port
unfolding IsTagged int_value
port_of-IsTagged tag port inbound (has_tag, has_port) =
    rw (subscript-Has "port" (num port) inbound has_port) refl

-- Looked up in the config that it was written into, the inbound gives the port.
with_inbound-IsListening :
    (repr : Json → String) (profile : VpnProfileSettings) (old new : Json) (port : ℕ) (fs : Fields)
    → find_inbound fs profile.inbound_tag ≡ ok old
    → IsTagged profile.inbound_tag port new
    → and_then (fields_of (with_inbound profile.inbound_tag new fs)) (λ gs.
      and_then
        (find_inbound gs profile.inbound_tag)
        (λ inbound. and_then (subscript "port" inbound) int_value))
      ≡ ok port
unfolding IsTagged with_inbound Finds
with_inbound-IsListening repr profile old new port fs found (has_tag, has_port) =
    rw (with_inbound-Finds profile.inbound_tag old new fs found has_tag)
      (port_of-IsTagged profile.inbound_tag port new (has_tag, has_port))

is_xray : ConfigProfile → Bool
is_xray ConfigProfile.hysteria2 = false
is_xray _ = true

listening_port-xray :
    (repr : Json → String) (p : ConfigProfile) (config : Json) (profile : VpnProfileSettings)
    → is_xray p ≡ true
    → listening_port repr p config profile
      ≡ and_then (fields_of config) (λ fs.
        and_then
          (find_inbound fs profile.inbound_tag)
          (λ inbound. and_then (subscript "port" inbound) int_value))
unfolding listening_port is_xray
listening_port-xray repr ConfigProfile.xray_reality config profile h = refl
listening_port-xray repr ConfigProfile.xray_grpc config profile h = refl
listening_port-xray repr ConfigProfile.xray_xhttp config profile h = refl
listening_port-xray repr ConfigProfile.hysteria2 config profile h = ground (arith, h)

module _ (repr : Json → String) (env : BuilderEnv) (profile : VpnProfileSettings)
    (req : BuildRequest) where
  build_inbound-IsListening :
      (p : ConfigProfile) (change : Json → Result InboundChange) (config : Json)
      → is_xray p ≡ true
      → KeepsOthers change
      → Yields (IsListening repr p profile) (build_inbound env profile req change config)
  unfolding build_inbound built IsListening
  build_inbound-IsListening p change config xray keeps =
      let Q = IsListening repr p profile in
      let tag = profile.inbound_tag in
      Yields-and_then Q
        (pick_port env.tcp_available env.choose_port profile.port_candidates req.exclude_ports
          req.preferred_port)
        _
        λ port _. Yields-and_then Q (fields_of config) _ λ fs _.
          Yields-and_then Q (find_inbound fs tag) _ λ inbound found.
            Yields-bind (IsTagged tag port) Q (put "port" (num port) inbound) _
              (put-IsTagged tag port inbound
                (Yields-ok (Has "tag" (str tag)) _ inbound (find_inbound-Has tag fs) found))
              λ a tagged.
                Yields-bind (IsTagged tag port) Q (set_listen (nonempty profile.listen_address) a) _
                  (set_listen-IsTagged tag port (nonempty profile.listen_address) a tagged)
                  λ b tagged_b.
                    Yields-bind (λ c. IsTagged tag port c.inbound) Q (change b) _
                      (change-IsTagged change tag port b keeps tagged_b)
                      λ c tagged_c.
                        listening_port-xray repr p _ profile xray
                        ∙ with_inbound-IsListening repr profile inbound c.inbound port fs found
                            tagged_c

module _ (repr : Json → String) (env : BuilderEnv) (settings : PanelSettings)
    (profile : VpnProfileSettings) (req : BuildRequest) where
  build_hysteria2-IsListening :
      (config : Json)
      → Yields
          (IsListening repr ConfigProfile.hysteria2 profile)
          (build_hysteria2 env settings profile req config)
  unfolding build_hysteria2 IsListening listening_port
  build_hysteria2-IsListening config =
      let Q = IsListening repr ConfigProfile.hysteria2 profile in
      let name = tls_server_name settings profile req.share_public_host in
      Yields-and_then Q
        (pick_port env.udp_available env.choose_port profile.port_candidates
          (settings.server_port ∷ req.exclude_ports)
          (hysteria_preferred profile req.preferred_port))
        _
        λ port _.
          Yields-and_then Q
            (resolve_tls env profile req.previous name req.policy.rotate_tls "hysteria") _
            λ m _.
              Yields-bind (Has "listen" (str (concat (":" ∷ decimal port ∷ [])))) Q
                (hysteria_config port (password_of env req) (obfs_password_of env req) name m
                  config)
                _
                (hysteria_config-Has port (password_of env req) (obfs_password_of env req) name m
                  config)
                λ done has. listen_port-Has repr port done has

  build_profile-IsListening :
      (p : ConfigProfile) (config : Json)
      → Yields (IsListening repr p profile) (build_profile env settings profile req p config)
  unfolding build_profile build_xray_reality build_xray_grpc build_xray_xhttp KeepsOthers is_xray
  build_profile-IsListening ConfigProfile.xray_reality config =
      build_inbound-IsListening repr env profile req ConfigProfile.xray_reality
        (change_reality env profile req) config refl
        (λ j w other. change_reality-Keeps env settings profile req j w other)
  build_profile-IsListening ConfigProfile.xray_grpc config =
      build_inbound-IsListening repr env profile req ConfigProfile.xray_grpc
        (change_grpc env settings profile req) config refl
        (λ j w other. change_grpc-Keeps env settings profile req j w other)
  build_profile-IsListening ConfigProfile.xray_xhttp config =
      build_inbound-IsListening repr env profile req ConfigProfile.xray_xhttp
        (change_xhttp env settings profile req) config refl
        (λ j w other. change_xhttp-Keeps env settings profile req j w other)
  build_profile-IsListening ConfigProfile.hysteria2 config = build_hysteria2-IsListening config

build-IsListening :
    (repr : Json → String) (env : BuilderEnv) (settings : PanelSettings)
    (policy : Option RegeneratePolicy) (req : BuildRequest) (profile : VpnProfileSettings)
    → Yields (IsListening repr req.profile profile) (build_loaded env settings policy req profile)
unfolding build_loaded
build-IsListening repr env settings policy req profile =
    let Q = IsListening repr req.profile profile in
    Yields-and_then Q (resolve_template_path env settings profile.template_file) _ λ path _.
      Yields-and_then Q (load_template env path) _ λ config _.
        build_profile-IsListening repr env settings profile
          (with_host_override (with_resolved_policy policy profile req)) req.profile config

-- When a config of any profile was built from the settings of its profile, reading the built
-- config gives the port that the builder reports.
pub build-listening_port :
    (repr : Json → String) (env : BuilderEnv) (settings : PanelSettings)
    (policy : Option RegeneratePolicy) (req : BuildRequest) (profile : VpnProfileSettings)
    (b : BuildResult)
    → profile_settings settings req.profile ≡ some profile
    → build env settings policy req ≡ ok b
    → listening_port repr req.profile b.config_data profile ≡ ok b.port
unfolding build IsListening
build-listening_port repr env settings policy req profile b known e =
    Yields-ok (IsListening repr req.profile profile) _ b
      (build-IsListening repr env settings policy req profile)
      (sym (
          ap
            (λ o.
              and_then (or_raise o (key_error "profile")) (build_loaded env settings policy req))
            known)
        ∙ e)
