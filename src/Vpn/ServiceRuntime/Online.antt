-- ===== src/Vpn/ServiceRuntime/Online.antt =====
-- When a config is called online, and how many lines of a log are asked for.
use vpn_control_panel.Prelude.{
  ℕ, String, ◌≡◌, refl, ap, ◌∙◌, Bool, true, false, ◌&&◌, ◌||◌, ◌≤◌, Option, none, some, ltb, arith,
  Bool-cases, inl, inr, Result, ok, err, file_error, Yields, Yields-bind, Yields-ok,
}
use vpn_control_panel.Domain.Enums.{ConfigProfile, is_hysteria}
use vpn_control_panel.Domain.Settings.{PanelSettings}
use vpn_control_panel.Persistence.Configs.Queries.{ConfigVersionSnapshot}
use vpn_control_panel.Vpn.ServiceRuntime.{
  RuntimeOps, ServiceRuntimeProbe, service_name_for_config, probe_config_availability,
  clamp_log_lines, is_true, probe_answer, probe_named, probe_further, probe_running, with_reachable,
  probe_config_runtime,
}

-- The number of lines that is asked for is between 1 and 500.
pub clamp_log_lines_bounds :
    (lines : Option ℕ) → (1 ≤ clamp_log_lines lines) × (clamp_log_lines lines ≤ 500)
unfolding clamp_log_lines
clamp_log_lines_bounds none = (omega arith, omega arith)
clamp_log_lines_bounds (some lines) = elim (Bool-cases (ltb 500 lines)) [
  | inl e ↦ ground (arith, e)
  | inr e ↦ ground (arith, e)
]

gives_true : Result Bool → Bool
gives_true (ok b) = b
gives_true (err e) = false

-- The service of the config has a name and runs.
unfoldable pub runs : RuntimeOps → Option String → Bool
unfolding gives_true
runs ops none = false
runs ops (some service_name) = gives_true (ops.systemd_running service_name)

-- Its port takes connections, where it is a TCP port that is known.
unfoldable pub listens : RuntimeOps → ConfigProfile → Option ℕ → Bool
listens ops profile none = true
listens ops profile (some port) = is_hysteria profile || ops.is_tcp_port_open port

not_refused : Option Bool → Bool
not_refused (some false) = false
not_refused _ = true

-- The connectivity probe, where there is a version to try, does not refuse.
unfoldable pub answers : RuntimeOps → Option ConfigVersionSnapshot → Bool
unfolding not_refused
answers ops none = true
answers ops (some snapshot) = not_refused (ops.probe_config_connectivity snapshot).reachable

port_online :
    (ops : RuntimeOps) (profile : ConfigProfile) (port : ℕ) (running : Bool)
    → is_true (probe_running ops profile (some port) running).online
      ≡ running && listens ops profile (some port)
unfolding listens
port_online ops profile port true = elim (Bool-cases (is_hysteria profile)) [
  | inl e ↦ rw e refl
  | inr e ↦ elim (Bool-cases (ops.is_tcp_port_open port)) [
    | inl o ↦ rw (e, o) refl
    | inr o ↦ rw (e, o) refl
  ]
]
port_online ops profile port false = elim (Bool-cases (is_hysteria profile)) [
  | inl e ↦ rw e refl
  | inr e ↦ rw e refl
]

probe_answer-online :
    (ops : RuntimeOps) (profile : ConfigProfile) (port : Option ℕ) (r : Result Bool)
    → Yields
        (λ p. is_true p.online ≡ gives_true r && listens ops profile port)
        (probe_answer ops profile port r)
unfolding gives_true listens
probe_answer-online ops profile none (ok true) = refl
probe_answer-online ops profile none (ok false) = refl
probe_answer-online ops profile (some port) (ok true) = port_online ops profile port true
probe_answer-online ops profile (some port) (ok false) = port_online ops profile port false
probe_answer-online ops profile port (err (file_error t)) = refl
probe_answer-online ops profile port (err e) = tt

probe_named-online :
    (ops : RuntimeOps) (profile : ConfigProfile) (port : Option ℕ) (name : Option String)
    → Yields
        (λ p. is_true p.online ≡ runs ops name && listens ops profile port)
        (probe_named ops profile port name)
unfolding runs
probe_named-online ops profile port none = refl
probe_named-online ops profile port (some service_name) =
    probe_answer-online ops profile port (ops.systemd_running service_name)

reachable_online :
    (r : ServiceRuntimeProbe) (detail : Option String) (reachable : Option Bool)
    → is_true r.online ≡ true
    → is_true (with_reachable r detail reachable).online ≡ not_refused reachable
unfolding not_refused
reachable_online r detail none h = h
reachable_online r detail (some true) h = refl
reachable_online r detail (some false) h = refl

further_online :
    (ops : RuntimeOps) (snapshot : Option ConfigVersionSnapshot) (r : ServiceRuntimeProbe)
    → is_true (probe_further ops snapshot r).online ≡ is_true r.online && answers ops snapshot
unfolding answers
further_online ops none r = elim (Bool-cases (is_true r.online)) [
  | inl e ↦ rw e refl
  | inr e ↦ rw e refl
]
further_online ops (some snapshot) r = elim (Bool-cases (is_true r.online)) [
  | inl e ↦
      rw e (
        let c = ops.probe_config_connectivity snapshot in reachable_online r c.detail c.reachable e)
  | inr e ↦ rw (e, e) refl
]

-- A config is called online exactly when its service has a name and runs, its port takes TCP
-- connections (unless it is Hysteria2, or has no port), and the connectivity probe, where there is
-- a version to try, does not refuse.
pub probe_config_availability-online :
    (ops : RuntimeOps) (config_id : ℕ) (profile : ConfigProfile) (port : Option ℕ)
    (settings : PanelSettings) (snapshot : Option ConfigVersionSnapshot) (r : ServiceRuntimeProbe)
    → probe_config_availability ops config_id profile port settings snapshot ≡ ok r
    → is_true r.online
      ≡ (runs ops (service_name_for_config ops config_id profile settings)
          && listens ops profile port)
        && answers ops snapshot
unfolding probe_config_availability probe_config_runtime
probe_config_availability-online ops config_id profile port settings snapshot r e =
    let name = service_name_for_config ops config_id profile settings in
    let P : ServiceRuntimeProbe → Type 0 =
      λ p. is_true p.online ≡ runs ops name && listens ops profile port in
    let Q : ServiceRuntimeProbe → Type 0 =
      λ p. is_true p.online ≡ (runs ops name && listens ops profile port) && answers ops snapshot in
    Yields-ok Q _ r
      (Yields-bind P Q (probe_named ops profile port name) _
        (probe_named-online ops profile port name)
        λ p h. further_online ops snapshot p ∙ ap (λ b. b && answers ops snapshot) h)
      e
