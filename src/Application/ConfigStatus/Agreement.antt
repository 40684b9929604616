-- ===== src/Application/ConfigStatus/Agreement.antt =====
-- The status of a config and its runtime page, which probe the service each on their own.
use vpn_control_panel.Prelude.{
  ℕ, String, ◌≡◌, refl, true, Option, none, some, Result, ok, err, and_then,
}
use vpn_control_panel.Domain.Enums.{is_active_status}
use vpn_control_panel.Domain.Settings.{PanelSettings}
use vpn_control_panel.Persistence.Models.{Db, VpnConfigModel}
use vpn_control_panel.Persistence.Configs.Queries.{ConfigVersionSnapshot, get_by_id}
use vpn_control_panel.Vpn.ConfigBuilder.{nonempty}
use vpn_control_panel.Vpn.ServiceRuntime.{
  RuntimeOps, ServiceRuntimeProbe, probe_config_availability,
}
use vpn_control_panel.Application.ConfigStatus.{
  TaskStatus, ConfigTaskStatus, ConfigRuntimeStatus, runtime_fields, get_config_status,
  get_config_runtime, with_task_status, asked, probed, runtime_page, runtime_status,
  current_version_of,
}

-- Both are given and show the same values, which are none where the page has no probe, or both
-- raise the same exception.
unfoldable pub Agrees : Result ConfigTaskStatus → Result (Option ConfigRuntimeStatus) → Type 0
Agrees (err e) (err e') = e ≡ e'
Agrees (err e) (ok r) = ⊥
Agrees (ok s) (err e) = ⊥
Agrees (ok s) (ok none) =
    (s.runtime_online ≡ none)
    × (s.runtime_systemd_active ≡ none)
    × (s.runtime_port_listening ≡ none)
    × (s.runtime_detail ≡ none)
Agrees (ok s) (ok (some r)) =
    (s.runtime_online ≡ r.online)
    × (s.runtime_systemd_active ≡ r.systemd_active)
    × (s.runtime_port_listening ≡ r.port_listening)
    × (s.runtime_detail ≡ r.detail)

module _ (reply : String → TaskStatus) (m : VpnConfigModel) where
  abbrev status_from : Result (Option ServiceRuntimeProbe) → Option String → Result ConfigTaskStatus
  status_from p task =
      and_then p λ a.
        and_then (asked (λ t. ok (reply t)) task) λ b. ok (with_task_status m a m.last_task_id b)

  none-Agrees : (task : Option String) → Agrees (status_from (ok none) task) (ok none)
  unfolding Agrees
  none-Agrees none = (refl, refl, refl, refl)
  none-Agrees (some t) = (refl, refl, refl, refl)

  some-Agrees :
      (id : ℕ) (p : Result ServiceRuntimeProbe) (task : Option String)
      → Agrees
          (status_from (and_then p λ a. ok (some a)) task)
          (and_then (and_then p λ a. ok (runtime_status id a)) λ r. ok (some r))
  unfolding Agrees
  some-Agrees id (err e) task = refl
  some-Agrees id (ok a) none = (refl, refl, refl, refl)
  some-Agrees id (ok a) (some t) = (refl, refl, refl, refl)

  probed-Agrees :
      (ops : RuntimeOps) (settings : PanelSettings) (s : Option ConfigVersionSnapshot)
      (task : Option String)
      → Agrees (status_from (probed ops settings s) task) (runtime_page ops settings s)
  probed-Agrees ops settings none task = none-Agrees task
  probed-Agrees ops settings (some s) task =
      some-Agrees s.config_id
        (probe_config_availability ops s.config_id s.profile (some s.port) settings (some s)) task

-- When the broker answers, the status of an active config and its runtime page agree, both taken
-- while the host answers the probes in the same way: they show the same values, or none both, or
-- raise the same exception.
pub get_config_status-Agrees :
    (ops : RuntimeOps) (reply : String → TaskStatus) (settings : PanelSettings) (db : Db)
    (m : VpnConfigModel)
    → get_by_id m.id db ≡ some m
    → is_active_status m.status ≡ true
    → Agrees
        (get_config_status ops (λ task. ok (reply task)) (some settings) m.id db)
        (get_config_runtime ops settings m.id db)
unfolding get_config_status get_config_runtime runtime_fields
get_config_status-Agrees ops reply settings db m found active =
    rw (found, active)
      (probed-Agrees reply m ops settings (current_version_of m.id m db) (nonempty m.last_task_id))
