-- ===== src/Tests/Status.antt =====
-- The theorems on probes, logs and statuses at concrete inputs.
use vpn_control_panel.Prelude.{String, true, false, ◌≡◌, refl, ◌≤◌, ◌&&◌, none, some, [], ◌∷◌, ok}
use vpn_control_panel.Json.{obj, end}
use vpn_control_panel.Domain.Enums.{ConfigProfile, ConfigStatus, VpnProtocolType}
use vpn_control_panel.Persistence.Models.{Db, VpnConfigModel, VpnConfigVersionModel}
use vpn_control_panel.Persistence.Configs.Queries.{get_by_id}
use vpn_control_panel.Vpn.ServiceRuntime.{
  RuntimeOps, ServiceRuntimeProbe, service_name_for_config, probe_config_availability,
  clamp_log_lines, is_true,
}
use vpn_control_panel.Vpn.ServiceRuntime.Online.{
  clamp_log_lines_bounds, runs, listens, answers, probe_config_availability-online,
}
use vpn_control_panel.Application.ConfigStatus.{TaskStatus, get_config_status, get_config_runtime}
use vpn_control_panel.Application.ConfigStatus.Agreement.{Agrees, get_config_status-Agrees}
use vpn_control_panel.Tests.{settings, start}

clamp_log_lines_bounds_example : (1 ≤ clamp_log_lines (some 0)) × (clamp_log_lines (some 0) ≤ 500)
clamp_log_lines_bounds_example = clamp_log_lines_bounds (some 0)

-- A service that runs while its port is closed.
abbrev runtime_ops : RuntimeOps
runtime_ops = record {
  show_id = λ n. "7";
  systemd_running = λ name. ok true;
  is_tcp_port_open = λ port. false;
  probe_config_connectivity = λ snapshot. record { reachable = none; detail = none };
  fetch_unit_journal = λ name lines. ("", true);
}

abbrev closed_port : ServiceRuntimeProbe
closed_port = record {
  online = some false;
  systemd_active = some true;
  port_listening = some false;
  detail = some "port 443 not listening";
}

probe_config_availability-online_example :
    is_true closed_port.online
    ≡ (runs runtime_ops (service_name_for_config runtime_ops 7 ConfigProfile.xray_reality settings)
        && listens runtime_ops ConfigProfile.xray_reality (some 443))
      && answers runtime_ops none
unfolding probe_config_availability
probe_config_availability-online_example =
    probe_config_availability-online runtime_ops 7 ConfigProfile.xray_reality (some 443) settings
      none closed_port refl

abbrev row : VpnConfigModel
row = record {
  id = 7;
  name = "home";
  protocol = VpnProtocolType.xray;
  profile = ConfigProfile.xray_reality;
  status = ConfigStatus.active;
  current_version = some 1;
  last_task_id = some "t1";
  error_message = none;
  regenerate_policy = none;
  share_public_host = none;
  is_active = true;
  created_by = 1;
  updated_by = 1;
  created_at = 100;
  updated_at = 110;
}

abbrev version_row : VpnConfigVersionModel
version_row = record {
  config_id = 7;
  version = 1;
  port = 443;
  private_key = "private";
  public_key = "public";
  cert_fingerprint = "";
  config_data = obj end;
}

abbrev active_db : Db
active_db = record start.db { vpn_configs = row ∷ []; vpn_config_versions = version_row ∷ [] }

abbrev reply : String → TaskStatus
reply task = record { task_id = task; status = "done"; retries = 0; max_retries = 3 }

get_config_status-Agrees_example :
    Agrees
      (get_config_status runtime_ops (λ task. ok (reply task)) (some settings) 7 active_db)
      (get_config_runtime runtime_ops settings 7 active_db)
unfolding get_by_id
get_config_status-Agrees_example =
    get_config_status-Agrees runtime_ops reply settings active_db row refl refl
