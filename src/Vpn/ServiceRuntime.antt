-- ===== src/Vpn/ServiceRuntime.antt =====
-- panel/infrastructure/vpn/service_runtime.py and the bounds of service_logs.py. systemctl, the
-- TCP connection, the connectivity probe and the journal are a record of functions.
pub mod Online
use Prim.Native.String
use vpn_control_panel.Prelude.{
  ℕ, String, Bool, true, false, ◌&&◌, not, Option, none, some, List, [], ◌∷◌, ltb, if◌then◌else◌,
  Error, file_error, Result, ok, err, and_then, concat, decimal, get_or, is_some,
}
use vpn_control_panel.Domain.Enums.{ConfigProfile, is_hysteria}
use vpn_control_panel.Domain.Settings.{PanelSettings, VpnProfileSettings, profile_settings}
use vpn_control_panel.Persistence.Configs.Queries.{ConfigVersionSnapshot}
use vpn_control_panel.Vpn.ConfigBuilder.{nonempty}
use vpn_control_panel.Vpn.SystemdUnit.{config_service_name}

pub record ServiceRuntimeProbe : Type 0 where
  pub online : Option Bool
  pub systemd_active : Option Bool
  pub port_listening : Option Bool
  pub detail : Option String

-- What `probe_config_connectivity` of vpn_connectivity.py answers.
pub record Connectivity : Type 0 where
  pub reachable : Option Bool
  pub detail : Option String

pub record RuntimeOps : Type 0 where
  -- `str(uuid)`
  pub show_id : ℕ → String
  -- `_systemd_running`; an OSError is a `file_error`
  pub systemd_running : String → Result Bool
  pub is_tcp_port_open : ℕ → Bool
  pub probe_config_connectivity : ConfigVersionSnapshot → Connectivity
  -- the text of the journal and whether it could be read
  pub fetch_unit_journal : String → ℕ → String × Bool

unfoldable pub service_name_for_config :
    RuntimeOps → ℕ → ConfigProfile → PanelSettings → Option String
unfolding config_service_name profile_settings
service_name_for_config ops config_id profile settings =
    if settings.systemd.per_config
    then some (config_service_name settings.systemd.service_prefix (ops.show_id config_id))
    else (elim (profile_settings settings profile) [ none ↦ none | some ps ↦ some ps.service_name ])

abbrev unknown_probe : String → ServiceRuntimeProbe
unknown_probe detail = record {
  online = none;
  systemd_active = none;
  port_listening = none;
  detail = some detail;
}

-- Hysteria2 listens on UDP, and without a port there is none to try.
abbrev by_service : Bool → ServiceRuntimeProbe
by_service running = record {
  online = some running;
  systemd_active = some running;
  port_listening = none;
  detail = if running then none else some "service not running";
}

abbrev by_port : Bool → ℕ → Bool → ServiceRuntimeProbe
by_port running port listening = record {
  online = some (running && listening);
  systemd_active = some running;
  port_listening = some listening;
  detail =
      if running && listening
      then none
      else if running
      then some (concat ("port " ∷ decimal port ∷ " not listening" ∷ []))
      else some "service not running";
}

abbrev pub probe_running : RuntimeOps → ConfigProfile → Option ℕ → Bool → ServiceRuntimeProbe
probe_running ops profile none running = by_service running
probe_running ops profile (some port) running =
    if is_hysteria profile
    then by_service running
    else by_port running port (ops.is_tcp_port_open port)

-- An OSError is answered, any other exception goes on.
abbrev pub probe_answer :
    RuntimeOps → ConfigProfile → Option ℕ → Result Bool → Result ServiceRuntimeProbe
probe_answer ops profile port (ok running) = ok (probe_running ops profile port running)
probe_answer ops profile port (err (file_error t)) = ok (unknown_probe "systemctl unavailable")
probe_answer ops profile port (err e) = err e

abbrev pub probe_named :
    RuntimeOps → ConfigProfile → Option ℕ → Option String → Result ServiceRuntimeProbe
probe_named ops profile port none = ok (unknown_probe "service name not configured")
probe_named ops profile port (some service_name) =
    probe_answer ops profile port (ops.systemd_running service_name)

unfoldable pub probe_config_runtime :
    RuntimeOps → ℕ → ConfigProfile → Option ℕ → PanelSettings → Result ServiceRuntimeProbe
unfolding service_name_for_config decimal
probe_config_runtime ops config_id profile port settings =
    probe_named ops profile port (service_name_for_config ops config_id profile settings)

abbrev pub is_true : Option Bool → Bool
is_true (some true) = true
is_true _ = false

abbrev pub with_reachable : ServiceRuntimeProbe → Option String → Option Bool → ServiceRuntimeProbe
with_reachable r detail none = r
with_reachable r detail (some true) = record r { online = some true; detail = detail }
with_reachable r detail (some false) = record r {
  online = some false;
  detail = some (get_or (nonempty detail) "connectivity probe failed");
}

abbrev joined : ServiceRuntimeProbe → Connectivity → ServiceRuntimeProbe
joined r c = with_reachable r c.detail c.reachable

abbrev pub probe_further :
    RuntimeOps → Option ConfigVersionSnapshot → ServiceRuntimeProbe → ServiceRuntimeProbe
probe_further ops none r = r
probe_further ops (some snapshot) r =
    if is_true r.online then joined r (ops.probe_config_connectivity snapshot) else r

unfoldable pub probe_config_availability :
    RuntimeOps
    → ℕ
    → ConfigProfile
    → Option ℕ
    → PanelSettings
    → Option ConfigVersionSnapshot
    → Result ServiceRuntimeProbe
unfolding probe_config_runtime
probe_config_availability ops config_id profile port settings snapshot =
    and_then (probe_config_runtime ops config_id profile port settings)
      λ r. ok (probe_further ops snapshot r)

abbrev min : ℕ → ℕ → ℕ
min a b = if ltb a b then a else b

abbrev max : ℕ → ℕ → ℕ
max a b = if ltb a b then b else a

-- A number of lines below zero is clamped like zero.
unfoldable pub clamp_log_lines : Option ℕ → ℕ
clamp_log_lines none = 100
clamp_log_lines (some lines) = max 1 (min 500 lines)
