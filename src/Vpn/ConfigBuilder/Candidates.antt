-- ===== src/Vpn/ConfigBuilder/Candidates.antt =====
-- The port of a built config is one of the profile's candidates.
use vpn_control_panel.Prelude.{
  ℕ, Bool, true, ◌≡◌, sym, ap, ◌∙◌, Option, some, List, ◌∷◌, inl, inr, Result, ok, and_then,
  or_raise, key_error, Yields, Yields-and_then, Yields-bind, Yields-ok,
}
use vpn_control_panel.Json.{Json, num}
use vpn_control_panel.Json.Access.{find_inbound}
use vpn_control_panel.Json.Reading.{fields_of}
use vpn_control_panel.Json.Editing.{put}
use vpn_control_panel.Domain.Enums.{ConfigProfile}
use vpn_control_panel.Domain.Policy.{RegeneratePolicy}
use vpn_control_panel.Domain.Settings.{PanelSettings, VpnProfileSettings, profile_settings}
use vpn_control_panel.Vpn.PortPicker.{contains, pick_port}
use vpn_control_panel.Vpn.PortPicker.Choice.{IsChoice, IsPicked, Outcome, pick_port-Outcome, IsFree}
use vpn_control_panel.Vpn.ConfigBuilder.{
  BuildResult, BuildRequest, BuilderEnv, nonempty, tls_server_name, resolve_template_path,
  load_template,
}
use vpn_control_panel.Vpn.ConfigBuilder.Tls.{resolve_tls}
use vpn_control_panel.Vpn.ConfigBuilder.Xray.{InboundChange, build_inbound, built, set_listen}
use vpn_control_panel.Vpn.ConfigBuilder.Xray.Reality.{change_reality}
use vpn_control_panel.Vpn.ConfigBuilder.Xray.Grpc.{change_grpc}
use vpn_control_panel.Vpn.ConfigBuilder.Xray.Xhttp.{change_xhttp}
use vpn_control_panel.Vpn.ConfigBuilder.Hysteria.{
  hysteria_config, build_hysteria2, password_of, obfs_password_of, hysteria_preferred,
}
use vpn_control_panel.Vpn.ConfigBuilder.Build.{
  build_xray_reality, build_xray_grpc, build_xray_xhttp, build_profile, build_loaded, build,
  with_resolved_policy, with_host_override,
}

IsCandidate : List ℕ → ℕ → Type 0
IsCandidate candidates p = contains p candidates ≡ true

picked-IsCandidate :
    (is_available : ℕ → Bool) (candidates exclude : List ℕ) (preferred : Option ℕ) (p : ℕ)
    → IsPicked is_available candidates exclude preferred p
    → IsCandidate candidates p
unfolding IsPicked IsFree IsCandidate
picked-IsCandidate is_available candidates exclude preferred p (inl (_, h)) = h
picked-IsCandidate is_available candidates exclude preferred p (inr (h, _, _)) = h

Outcome-IsCandidate :
    (is_available : ℕ → Bool) (candidates exclude : List ℕ) (preferred : Option ℕ) (r : Result ℕ)
    → Outcome is_available candidates exclude preferred r
    → Yields (IsCandidate candidates) r
unfolding Outcome
Outcome-IsCandidate is_available candidates exclude preferred r (inl (p, e, h)) =
    rw e (picked-IsCandidate is_available candidates exclude preferred p h)
Outcome-IsCandidate is_available candidates exclude preferred r (inr (e, _)) = rw e tt

pick_port-IsCandidate :
    (is_available : ℕ → Bool) (choice : List ℕ → ℕ) (ok_choice : IsChoice choice)
    (candidates exclude : List ℕ) (preferred : Option ℕ)
    → Yields (IsCandidate candidates) (pick_port is_available choice candidates exclude preferred)
unfolding pick_port
pick_port-IsCandidate is_available choice ok_choice List.[] exclude preferred = tt
pick_port-IsCandidate is_available choice ok_choice (c ∷ cs) exclude preferred =
    Outcome-IsCandidate is_available (c ∷ cs) exclude preferred _
      (pick_port-Outcome is_available choice ok_choice c cs exclude preferred)

module _ (env : BuilderEnv) (settings : PanelSettings) (profile : VpnProfileSettings)
    (req : BuildRequest) (ok_choice : IsChoice env.choose_port) where
  HasCandidate : BuildResult → Type 0
  HasCandidate b = IsCandidate profile.port_candidates b.port

  build_inbound-HasCandidate :
      (change : Json → Result InboundChange) (config : Json)
      → Yields HasCandidate (build_inbound env profile req change config)
  unfolding build_inbound built HasCandidate
  build_inbound-HasCandidate change config =
      Yields-bind (IsCandidate profile.port_candidates) HasCandidate
        (pick_port env.tcp_available env.choose_port profile.port_candidates req.exclude_ports
          req.preferred_port)
        _
        (pick_port-IsCandidate env.tcp_available env.choose_port ok_choice profile.port_candidates
          req.exclude_ports req.preferred_port)
        λ port member. Yields-and_then HasCandidate (fields_of config) _ λ fs _.
          Yields-and_then HasCandidate (find_inbound fs profile.inbound_tag) _ λ inbound _.
            Yields-and_then HasCandidate (put "port" (num port) inbound) _ λ a _.
              Yields-and_then HasCandidate (set_listen (nonempty profile.listen_address) a) _
                λ b _. Yields-and_then HasCandidate (change b) _ λ done _. member

  build_hysteria2-HasCandidate :
      (config : Json) → Yields HasCandidate (build_hysteria2 env settings profile req config)
  unfolding build_hysteria2 HasCandidate
  build_hysteria2-HasCandidate config =
      let name = tls_server_name settings profile req.share_public_host in
      let preferred = hysteria_preferred profile req.preferred_port in
      Yields-bind (IsCandidate profile.port_candidates) HasCandidate
        (pick_port env.udp_available env.choose_port profile.port_candidates
          (settings.server_port ∷ req.exclude_ports) preferred)
        _
        (pick_port-IsCandidate env.udp_available env.choose_port ok_choice profile.port_candidates
          (settings.server_port ∷ req.exclude_ports) preferred)
        λ port member.
          Yields-and_then HasCandidate
            (resolve_tls env profile req.previous name req.policy.rotate_tls "hysteria") _
            λ m _.
              Yields-and_then HasCandidate
                (hysteria_config port (password_of env req) (obfs_password_of env req) name m
                  config)
                _ λ done _. member

  build_profile-HasCandidate :
      (p : ConfigProfile) (config : Json)
      → Yields HasCandidate (build_profile env settings profile req p config)
  unfolding build_profile build_xray_reality build_xray_grpc build_xray_xhttp
  build_profile-HasCandidate ConfigProfile.xray_reality config =
      build_inbound-HasCandidate (change_reality env profile req) config
  build_profile-HasCandidate ConfigProfile.xray_grpc config =
      build_inbound-HasCandidate (change_grpc env settings profile req) config
  build_profile-HasCandidate ConfigProfile.xray_xhttp config =
      build_inbound-HasCandidate (change_xhttp env settings profile req) config
  build_profile-HasCandidate ConfigProfile.hysteria2 config = build_hysteria2-HasCandidate config

build_loaded-HasCandidate :
    (env : BuilderEnv) (settings : PanelSettings) (policy : Option RegeneratePolicy)
    (req : BuildRequest) (profile : VpnProfileSettings) (ok_choice : IsChoice env.choose_port)
    → Yields
        (HasCandidate env settings profile req ok_choice)
        (build_loaded env settings policy req profile)
unfolding build_loaded HasCandidate
build_loaded-HasCandidate env settings policy req profile ok_choice =
    let Q = HasCandidate env settings profile req ok_choice in
    Yields-and_then Q (resolve_template_path env settings profile.template_file) _ λ path _.
      Yields-and_then Q (load_template env path) _ λ config _.
        build_profile-HasCandidate env settings profile
          (with_host_override (with_resolved_policy policy profile req)) ok_choice req.profile
          config

-- When the random choice gives an element of a list that is not empty, the port of a config that
-- was built is one of the port candidates of its profile.
pub build-port_bounds :
    (env : BuilderEnv) (settings : PanelSettings) (policy : Option RegeneratePolicy)
    (req : BuildRequest) (profile : VpnProfileSettings) (b : BuildResult)
    → IsChoice env.choose_port
    → profile_settings settings req.profile ≡ some profile
    → build env settings policy req ≡ ok b
    → contains b.port profile.port_candidates ≡ true
unfolding build HasCandidate IsCandidate
build-port_bounds env settings policy req profile b ok_choice known e =
    Yields-ok (HasCandidate env settings profile req ok_choice) _ b
      (build_loaded-HasCandidate env settings policy req profile ok_choice)
      (sym (
          ap
            (λ o.
              and_then (or_raise o (key_error "profile")) (build_loaded env settings policy req))
            known)
        ∙ e)
