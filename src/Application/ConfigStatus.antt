-- ===== src/Application/ConfigStatus.antt =====
-- panel/application/get_config_status.py, get_config_runtime.py and get_config_logs.py. What the
-- broker answers for a task is a function; the threads of the probes are their results in order.
pub mod Agreement
use Prim.Native.String
use vpn_control_panel.Prelude.{
  ℕ, String, Bool, true, false, Option, none, some, List, [], ◌∷◌, filter, if◌then◌else◌,
  config_not_found, Result, ok, err, or_raise, and_then,
}
use vpn_control_panel.Domain.Enums.{ConfigStatus, VpnProtocolType, is_active_status}
use vpn_control_panel.Domain.Settings.{PanelSettings}
use vpn_control_panel.Persistence.Models.{Db, VpnConfigModel}
use vpn_control_panel.Persistence.Configs.Queries.{
  ConfigVersionSnapshot, get_by_id, get_version_snapshot, list_current_version_snapshots,
  same_protocol,
}
use vpn_control_panel.Vpn.ConfigBuilder.{nonempty}
use vpn_control_panel.Vpn.ServiceRuntime.{
  RuntimeOps, ServiceRuntimeProbe, probe_config_availability, service_name_for_config,
  clamp_log_lines,
}

-- The answer of `BrokerPort.get_status`.
pub record TaskStatus : Type 0 where
  pub task_id : String
  pub status : String
  pub retries : ℕ
  pub max_retries : ℕ

pub record ConfigTaskStatus : Type 0 where
  pub config_id : ℕ
  pub status : ConfigStatus
  pub task_id : Option String
  pub task_status : Option String
  pub retries : Option ℕ
  pub max_retries : Option ℕ
  pub error_message : Option String
  pub runtime_online : Option Bool
  pub runtime_systemd_active : Option Bool
  pub runtime_port_listening : Option Bool
  pub runtime_detail : Option String

pub record ConfigRuntimeStatus : Type 0 where
  pub config_id : ℕ
  pub online : Option Bool
  pub systemd_active : Option Bool
  pub port_listening : Option Bool
  pub detail : Option String

pub record ConfigLogsResult : Type 0 where
  pub config_id : ℕ
  pub service_name : Option String
  pub lines : ℕ
  pub content : String
  pub available : Bool

-- The probe of a snapshot, where there is one.
abbrev pub probed :
    RuntimeOps → PanelSettings → Option ConfigVersionSnapshot → Result (Option ServiceRuntimeProbe)
probed ops settings none = ok none
probed ops settings (some s) =
    and_then (probe_config_availability ops s.config_id s.profile (some s.port) settings (some s))
      λ p. ok (some p)

-- The snapshot of the current version.
abbrev pub current_version_of : ℕ → VpnConfigModel → Db → Option ConfigVersionSnapshot
current_version_of id m db = elim m.current_version [
  | none ↦ none
  | some v ↦ get_version_snapshot id v db
]

-- `_runtime_fields`; no fields are `none`.
unfoldable pub runtime_fields :
    RuntimeOps → Option PanelSettings → VpnConfigModel → Db → Result (Option ServiceRuntimeProbe)
unfolding probe_config_availability get_version_snapshot
runtime_fields ops none m db = ok none
runtime_fields ops (some settings) m db =
    if is_active_status m.status
    then probed ops settings (current_version_of m.id m db)
    else ok none

abbrev no_probe : ServiceRuntimeProbe
no_probe = record { online = none; systemd_active = none; port_listening = none; detail = none }

abbrev fields_or_none : Option ServiceRuntimeProbe → ServiceRuntimeProbe
fields_or_none none = no_probe
fields_or_none (some p) = p

abbrev with_runtime :
    VpnConfigModel
    → Option String
    → Option String
    → Option ℕ
    → Option ℕ
    → ServiceRuntimeProbe
    → ConfigTaskStatus
with_runtime m task_id task_status retries max_retries p = record {
  config_id = m.id;
  status = m.status;
  task_id = task_id;
  task_status = task_status;
  retries = retries;
  max_retries = max_retries;
  error_message = m.error_message;
  runtime_online = p.online;
  runtime_systemd_active = p.systemd_active;
  runtime_port_listening = p.port_listening;
  runtime_detail = p.detail;
}

abbrev pub with_task_status :
    VpnConfigModel
    → Option ServiceRuntimeProbe
    → Option String
    → Option TaskStatus
    → ConfigTaskStatus
with_task_status m p task none = with_runtime m none none none none (fields_or_none p)
with_task_status m p task (some t) =
    with_runtime m task (some t.status) (some t.retries) (some t.max_retries) (fields_or_none p)

-- The broker is asked where a task was published.
abbrev pub asked : (String → Result TaskStatus) → Option String → Result (Option TaskStatus)
asked broker none = ok none
asked broker (some task) = and_then (broker task) λ t. ok (some t)

-- `GetConfigStatusUseCase.execute`
unfoldable pub get_config_status :
    RuntimeOps
    → (String → Result TaskStatus)
    → Option PanelSettings
    → ℕ
    → Db
    → Result ConfigTaskStatus
unfolding get_by_id runtime_fields
get_config_status ops broker settings id db =
    and_then (or_raise (get_by_id id db) config_not_found) λ m.
      and_then (runtime_fields ops settings m db) λ p.
        and_then (asked broker (nonempty m.last_task_id))
          λ t. ok (with_task_status m p m.last_task_id t)

abbrev pub runtime_status : ℕ → ServiceRuntimeProbe → ConfigRuntimeStatus
runtime_status id p = record {
  config_id = id;
  online = p.online;
  systemd_active = p.systemd_active;
  port_listening = p.port_listening;
  detail = p.detail;
}

-- `_probe_snapshot`
abbrev pub probe_snapshot :
    RuntimeOps → PanelSettings → ConfigVersionSnapshot → Result ConfigRuntimeStatus
probe_snapshot ops settings s =
    and_then (probe_config_availability ops s.config_id s.profile (some s.port) settings (some s))
      λ p. ok (runtime_status s.config_id p)

-- The page of a snapshot, where there is one.
abbrev pub runtime_page :
    RuntimeOps → PanelSettings → Option ConfigVersionSnapshot → Result (Option ConfigRuntimeStatus)
runtime_page ops settings none = ok none
runtime_page ops settings (some s) = and_then (probe_snapshot ops settings s) λ r. ok (some r)

abbrev pub runtime_of :
    RuntimeOps
    → PanelSettings
    → ℕ
    → Option VpnConfigModel
    → Db
    → Result (Option ConfigRuntimeStatus)
runtime_of ops settings id none db = ok none
runtime_of ops settings id (some m) db = runtime_page ops settings (current_version_of id m db)

-- `GetConfigRuntimeUseCase.execute`
unfoldable pub get_config_runtime :
    RuntimeOps → PanelSettings → ℕ → Db → Result (Option ConfigRuntimeStatus)
unfolding get_by_id get_version_snapshot probe_config_availability
get_config_runtime ops settings id db = runtime_of ops settings id (get_by_id id db) db

unfoldable pub probe_snapshots :
    RuntimeOps → PanelSettings → List ConfigVersionSnapshot → Result (List ConfigRuntimeStatus)
unfolding probe_config_availability
probe_snapshots ops settings [] = ok []
probe_snapshots ops settings (s ∷ ss) =
    and_then (probe_snapshot ops settings s)
      λ r. and_then (probe_snapshots ops settings ss) λ rs. ok (r ∷ rs)

abbrev pub of_protocol : Option VpnProtocolType → ConfigVersionSnapshot → Bool
of_protocol none s = true
of_protocol (some p) s = same_protocol s.protocol p

-- `GetConfigsRuntimeUseCase.execute`
unfoldable pub get_configs_runtime :
    RuntimeOps → PanelSettings → Option VpnProtocolType → Db → Result (List ConfigRuntimeStatus)
unfolding list_current_version_snapshots probe_snapshots
get_configs_runtime ops settings protocol db =
    probe_snapshots ops settings (filter (of_protocol protocol) (list_current_version_snapshots db))

abbrev logs_of : RuntimeOps → ℕ → ℕ → Option String → ConfigLogsResult
logs_of ops id line_count none = record {
  config_id = id;
  service_name = none;
  lines = line_count;
  content = "Service name is not configured for this profile";
  available = false;
}
logs_of ops id line_count (some service_name) =
    let journal = ops.fetch_unit_journal service_name line_count in
    record {
      config_id = id;
      service_name = some service_name;
      lines = line_count;
      content = journal.0;
      available = journal.1;
    }

-- `GetConfigLogsUseCase.execute`
unfoldable pub get_config_logs :
    RuntimeOps → PanelSettings → ℕ → Option ℕ → Db → Result ConfigLogsResult
unfolding get_by_id clamp_log_lines service_name_for_config
get_config_logs ops settings id lines db =
    and_then (or_raise (get_by_id id db) config_not_found) λ m.
      ok
        (logs_of ops id (clamp_log_lines lines) (service_name_for_config ops id m.profile settings))
