-- ===== src/Persistence/Configs.antt =====
-- `VpnConfigRepository` of panel/infrastructure/persistence/repositories/vpn_config.py: each method
-- over the tables that the session sees. A write that raises leaves the tables as they are.
pub mod Queries
use vpn_control_panel.Prelude.{
  ℕ, zero, suc, ◌+◌, String, Bool, true, false, Option, none, some, List, [], ◌∷◌, ◌++◌, ◌&&◌, not,
  ◌=ˢ◌, ◌==◌, if◌then◌else◌, find?, modify, filter, any, map, take, drop, length, is_some, get_or,
  Error, value_error, integrity_error, Result, ok, err, Exec, or_raise, and_then, strip, truncate,
}
use vpn_control_panel.Json.{Json}
use vpn_control_panel.Domain.Enums.{
  ConfigProfile, ConfigStatus, VpnProtocolType, pending, processing, active, failed, is_busy,
  is_active_status, protocol_value,
}
use vpn_control_panel.Domain.Policy.{RegeneratePolicy, Flags, to_stored}
use vpn_control_panel.Persistence.Models.{Db, VpnConfigModel, VpnConfigVersionModel}

-- The row of an id, `VpnConfigModel.id == config_id` alone.
abbrev pub has_id : ℕ → VpnConfigModel → Bool
has_id i m = m.id == i

abbrev pub is_version : ℕ → ℕ → VpnConfigVersionModel → Bool
is_version i v m = m.config_id == i && m.version == v

-- `_get_model(config_id, active_only=False)`. The id is the primary key: at most one row has it.
unfoldable pub get_any_model : ℕ → Db → Option VpnConfigModel
get_any_model i db = find? (has_id i) db.vpn_configs

abbrev pub only_active : Option VpnConfigModel → Option VpnConfigModel
only_active none = none
only_active (some m) = if m.is_active then some m else none

-- `_get_model(config_id)`
unfoldable pub get_model : ℕ → Db → Option VpnConfigModel
unfolding get_any_model
get_model i db = only_active (get_any_model i db)

unfoldable pub find_version : ℕ → ℕ → Db → Option VpnConfigVersionModel
find_version i v db = find? (is_version i v) db.vpn_config_versions

-- An attribute write to the row that was loaded.
unfoldable pub write_model : ℕ → (VpnConfigModel → VpnConfigModel) → Db → Db
write_model i f db = record db { vpn_configs = modify (has_id i) f db.vpn_configs }

abbrev pub config_not_there : Error
config_not_there = value_error "Config not found"

-- The shape of the methods that load a row, raise ValueError if there is none, and write to it.
unfoldable pub write_or_raise :
    Option VpnConfigModel → (VpnConfigModel → VpnConfigModel) → Exec Db (Unit {0})
unfolding write_model
write_or_raise none f db = (err config_not_there, db)
write_or_raise (some m) f db = (ok tt, write_model m.id f db)

-- The rows that the methods below write.
abbrev pub with_task : String → ℕ → VpnConfigModel → VpnConfigModel
with_task task now m = record m { last_task_id = some task; updated_at = now }

abbrev pub as_processing : ℕ → VpnConfigModel → VpnConfigModel
as_processing now m = record m { status = processing; error_message = none; updated_at = now }

abbrev pub as_active : ℕ → ℕ → VpnConfigModel → VpnConfigModel
as_active version now m = record m {
  status = active;
  current_version = some version;
  error_message = none;
  updated_at = now;
}

abbrev pub as_failed : String → ℕ → VpnConfigModel → VpnConfigModel
as_failed text now m = record m {
  status = failed;
  error_message = some (truncate 2000 text);
  updated_at = now;
}

abbrev pub as_pending : ℕ → ℕ → VpnConfigModel → VpnConfigModel
as_pending updated_by now m = record m {
  status = pending;
  error_message = none;
  updated_by = updated_by;
  updated_at = now;
}

abbrev pub touched : ℕ → ℕ → VpnConfigModel → VpnConfigModel
touched updated_by now m = record m { updated_by = updated_by; updated_at = now }

abbrev pub with_policy : RegeneratePolicy → ℕ → ℕ → VpnConfigModel → VpnConfigModel
with_policy policy updated_by now m = record m {
  regenerate_policy = some (to_stored policy);
  updated_by = updated_by;
  updated_at = now;
}

abbrev pub with_data : Json → ℕ → VpnConfigVersionModel → VpnConfigVersionModel
with_data config_data port r = record r { config_data = config_data; port = port }

unfoldable pub set_last_task_id : ℕ → String → ℕ → Exec Db (Unit {0})
unfolding write_or_raise get_model
set_last_task_id i task now db = write_or_raise (get_model i db) (with_task task now) db

unfoldable pub mark_processing : ℕ → ℕ → Exec Db (Unit {0})
unfolding write_or_raise get_any_model
mark_processing i now db = write_or_raise (get_any_model i db) (as_processing now) db

unfoldable pub mark_active : ℕ → ℕ → ℕ → Exec Db (Unit {0})
unfolding write_or_raise get_any_model
mark_active i version now db = write_or_raise (get_any_model i db) (as_active version now) db

unfoldable pub mark_failed : ℕ → String → ℕ → Exec Db (Unit {0})
unfolding write_or_raise get_any_model
mark_failed i message now db = write_or_raise (get_any_model i db) (as_failed message now) db

unfoldable pub has_version : ℕ → ℕ → Db → Bool
has_version i v db = any (is_version i v) db.vpn_config_versions

-- `list_used_ports`; the set is the list of its members, each as often as it is stored.
unfoldable pub list_used_ports : ℕ → Db → List ℕ
list_used_ports i db =
    map (λ m. m.port) (filter (λ m. not (m.config_id == i)) db.vpn_config_versions)

-- The unique constraint on (config_id, version) and the foreign key to `vpn_configs` are the
-- database's; a row that breaks one is refused at the flush.
unfoldable pub insert_version : VpnConfigVersionModel → Exec Db (Unit {0})
unfolding has_version get_any_model
insert_version row db =
    if has_version row.config_id row.version db
    then (err integrity_error, db)
    else if is_some (get_any_model row.config_id db)
    then (ok tt, record db { vpn_config_versions = db.vpn_config_versions ++ row ∷ [] })
    else (err integrity_error, db)

abbrev pub write_version : ℕ → ℕ → (VpnConfigVersionModel → VpnConfigVersionModel) → Db → Db
write_version i v f db = record db {
  vpn_config_versions = modify (is_version i v) f db.vpn_config_versions;
}

unfoldable pub update_version_config_data : ℕ → ℕ → Json → ℕ → ℕ → ℕ → Exec Db (Unit {0})
unfolding get_model find_version write_model
update_version_config_data i v config_data port updated_by now db =
    if is_some (get_model i db)
    then (if is_some (find_version i v db)
        then (
          ok tt,
          write_model i (touched updated_by now)
              (write_version i v (with_data config_data port) db),
        )
        else (err (value_error "Version not found"), db))
    else (err config_not_there, db)

-- `prepare_regenerate`; the entity that it returns is the row after the write.
unfoldable pub prepare_regenerate : ℕ → ℕ → ℕ → Exec Db (Unit {0})
unfolding get_model write_model
prepare_regenerate i updated_by now db = elim (get_model i db) [
  | none ↦ (err config_not_there, db)
  | some m ↦
      if not (is_some m.current_version)
      then (err (value_error "Config has no version to regenerate from"), db)
      else if is_busy m.status
      then (err (value_error "Config is not ready for regenerate"), db)
      else (ok tt, write_model i (as_pending updated_by now) db)
]

pub record RegenerateContext : Type 0 where
  pub protocol : VpnProtocolType
  pub profile : ConfigProfile
  pub name : String
  pub target_version : ℕ

unfoldable pub get_regenerate_context : ℕ → Db → Result RegenerateContext
unfolding get_model
get_regenerate_context i db = elim (get_model i db) [
  | none ↦ err config_not_there
  | some m ↦ elim m.current_version [
    | none ↦ err (value_error "Config has no version to regenerate from")
    | some v ↦ ok (record {
      protocol = m.protocol;
      profile = m.profile;
      name = m.name;
      target_version = v + 1;
    })
  ]
]

unfoldable pub update_regenerate_policy : ℕ → RegeneratePolicy → ℕ → ℕ → Exec Db (Unit {0})
unfolding write_or_raise get_model to_stored
update_regenerate_policy i policy updated_by now db =
    write_or_raise (get_model i db) (with_policy policy updated_by now) db

unfoldable pub get_regenerate_policy_raw : ℕ → Db → Result (Option Flags)
unfolding get_any_model
get_regenerate_policy_raw i db =
    and_then (or_raise (get_any_model i db) config_not_there) (λ m. ok m.regenerate_policy)

-- `value or None`
abbrev pub or_none : Option String → Option String
or_none none = none
or_none (some s) = if s =ˢ "" then none else some s

unfoldable pub get_share_public_host : ℕ → Db → Result (Option String)
unfolding get_any_model
get_share_public_host i db =
    and_then (or_raise (get_any_model i db) config_not_there)
      (λ m. ok (or_none m.share_public_host))

unfoldable pub get_version_private_key : ℕ → ℕ → Db → Option String
unfolding find_version
get_version_private_key i v db = elim (find_version i v db) [
  | none ↦ none
  | some m ↦ some m.private_key
]
