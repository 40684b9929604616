-- ===== src/Application/ConfigUseCases.antt =====
-- panel/application/create_config.py, regenerate_config.py and configs.py. The ids and times that
-- the code draws are arguments, in the order of the draws.
pub mod Busy
use Prim.Native.String
use vpn_control_panel.Prelude.{
  ℕ, String, Bool, true, false, Option, none, some, List, [], ◌∷◌, ◌=ˢ◌, not, is_some,
  if◌then◌else◌, value_error, key_error, config_not_found, config_not_regeneratable, Result, ok,
  err, or_raise, and_then, Exec, ◌>>=◌, ◌>>◌, pure, raise, lift, raise_if, message,
}
use vpn_control_panel.Json.{Json, null, str, num, bool, obj, Fields, end, field}
use vpn_control_panel.Domain.Enums.{
  ConfigProfile, VpnProtocolType, protocol_value, profile_value, is_busy,
}
use vpn_control_panel.Domain.Settings.{PanelSettings, profile_settings}
use vpn_control_panel.Domain.Policy.{
  RegeneratePolicy, Flags, for_profile, model_copy, to_stored, from_stored,
}
use vpn_control_panel.Domain.PublicHost.{normalize_share_public_host}
use vpn_control_panel.Persistence.Models.{Db, VpnConfigModel}
use vpn_control_panel.Persistence.Configs.{
  set_last_task_id, prepare_regenerate, get_regenerate_context, RegenerateContext,
  update_regenerate_policy,
}
use vpn_control_panel.Persistence.Configs.Queries.{create_pending, get_by_id, soft_delete}
use vpn_control_panel.Application.Session.{
  World, on_session, read_session, commit, BrokerReply, publish_task, audit,
}
use vpn_control_panel.Worker.Task.{PublishedTask, TaskPayload}

-- The `regenerate_policy` argument: None, a policy, or a dict of overrides.
pub data PolicyArgument : Type 0 where
  default : PolicyArgument
  given : RegeneratePolicy → PolicyArgument
  overrides : Flags → PolicyArgument

unfoldable pub merged_policy : RegeneratePolicy → PolicyArgument → RegeneratePolicy
unfolding model_copy to_stored
merged_policy base default = base
merged_policy base (given p) = model_copy base (to_stored p)
merged_policy base (overrides flags) = model_copy base flags

pub record CreateArguments : Type 0 where
  pub name : String
  pub protocol : VpnProtocolType
  pub profile : ConfigProfile
  pub user_id : ℕ
  pub regenerate_policy : PolicyArgument
  pub share_public_host : Option String

abbrev text_or_null : Option String → Json
text_or_null none = null
text_or_null (some s) = str s

abbrev created_payload : CreateArguments → ℕ → Option String → String → Json
created_payload a id host task = obj (
    field "config_id" (num id) (
      field "protocol" (str (protocol_value a.protocol)) (
        field "profile" (str (profile_value a.profile)) (
          field "name" (str a.name)
            (field "share_public_host" (text_or_null host) (field "task_id" (str task) end))))))

abbrev pub initialize_task : CreateArguments → ℕ → PublishedTask
initialize_task a id = record {
  task_type = "config.initialize";
  payload = record {
    config_id = id;
    protocol = a.protocol;
    profile = profile_value a.profile;
    name = a.name;
    requested_by = a.user_id;
    target_version = 1;
  };
}

-- `CreateConfigUseCase.execute`, up to the commit before the publication.
unfoldable pub create_begin : PanelSettings → CreateArguments → ℕ → ℕ → Exec World (Option String)
unfolding profile_settings normalize_share_public_host for_profile merged_policy create_pending
create_begin settings a id now = do
  ps ← lift (
      or_raise (profile_settings settings a.profile)
        (value_error (String.◌++◌ "Unknown profile: " (profile_value a.profile))))
  host ← lift (normalize_share_public_host a.share_public_host)
  on_session (
      create_pending id a.name a.protocol a.profile a.user_id
        (some (merged_policy (for_profile a.profile (some ps)) a.regenerate_policy)) host now)
  commit
  pure host

-- The part behind the publication.
unfoldable pub create_end :
    PanelSettings → CreateArguments → ℕ → Option String → String → ℕ → Exec World (Unit {0})
unfolding set_last_task_id
create_end settings a id host task now = do
  on_session (set_last_task_id id task now)
  audit settings "config.created" (created_payload a id host task) a.user_id
  commit

unfoldable pub create_config :
    PanelSettings → CreateArguments → ℕ → ℕ → BrokerReply → ℕ → Exec World (ℕ × String)
unfolding create_begin publish_task create_end
create_config settings a id now reply task_now = do
  host ← create_begin settings a id now
  task ← publish_task (initialize_task a id) reply
  create_end settings a id host task task_now
  pure (id, task)

-- `except ValueError as exc: raise ConfigNotRegeneratable(str(exc))`
abbrev pub rewrap : Result (Unit {0}) × Db → Result (Unit {0}) × Db
rewrap (ok u, db) = (ok u, db)
rewrap (err (value_error s), db) = (err (config_not_regeneratable s), db)
rewrap (err e, db) = (err e, db)

-- The guards of `RegenerateConfigUseCase.execute`.
unfoldable pub regenerate_guard : Option VpnConfigModel → Result (Unit {0})
regenerate_guard none = err config_not_found
regenerate_guard (some m) =
    if not (is_some m.current_version)
    then err (config_not_regeneratable "Config has no version to regenerate")
    else if is_busy m.status
    then err (config_not_regeneratable "Config is busy")
    else ok tt

abbrev pub regenerate_task : ℕ → ℕ → RegenerateContext → PublishedTask
regenerate_task id user_id c = record {
  task_type = "config.regenerate";
  payload = record {
    config_id = id;
    protocol = c.protocol;
    profile = profile_value c.profile;
    name = c.name;
    requested_by = user_id;
    target_version = c.target_version;
  };
}

unfoldable pub regenerate_begin : ℕ → ℕ → ℕ → Exec World RegenerateContext
unfolding get_by_id regenerate_guard prepare_regenerate get_regenerate_context
regenerate_begin id user_id now = do
  read_session (λ db. regenerate_guard (get_by_id id db))
  on_session (λ db. rewrap (prepare_regenerate id user_id now db))
  context ← read_session (get_regenerate_context id)
  commit
  pure context

abbrev requested_payload : ℕ → ℕ → String → Json
requested_payload id target task = obj (
    field "config_id" (num id)
      (field "target_version" (num target) (field "task_id" (str task) end)))

unfoldable pub regenerate_end : PanelSettings → ℕ → ℕ → ℕ → String → ℕ → Exec World (Unit {0})
unfolding set_last_task_id
regenerate_end settings id user_id target task now = do
  on_session (set_last_task_id id task now)
  audit settings "config.regenerate.requested" (requested_payload id target task) user_id
  commit

unfoldable pub regenerate_config :
    PanelSettings → ℕ → ℕ → ℕ → BrokerReply → ℕ → Exec World (ℕ × String)
unfolding regenerate_begin publish_task regenerate_end
regenerate_config settings id user_id now reply task_now = do
  context ← regenerate_begin id user_id now
  task ← publish_task (regenerate_task id user_id context) reply
  regenerate_end settings id user_id context.target_version task task_now
  pure (id, task)

-- `DeleteConfigUseCase.execute`; `remove_unit` is the outcome of `remove_config_unit`, which runs
-- where the settings have a unit for each config.
unfoldable pub delete_config : PanelSettings → ℕ → ℕ → Result (Unit {0}) → ℕ → Exec World (Unit {0})
unfolding get_by_id soft_delete
delete_config settings id user_id remove_unit now = do
  config ← read_session (λ db. or_raise (get_by_id id db) config_not_found)
  lift (
      if settings.systemd.per_config
      then and_then (or_raise (profile_settings settings config.profile) (key_error "profile"))
          (λ _. remove_unit)
      else ok tt)
  deleted ← on_session (soft_delete id user_id now)
  raise_if (not deleted) config_not_found
  audit settings "config.deleted" (obj (field "config_id" (num id) end)) user_id

abbrev flags_json : Flags → Fields
flags_json [] = end
flags_json ((k, b) ∷ flags) = field k (bool b) (flags_json flags)

abbrev base_policy : PanelSettings → VpnConfigModel → RegeneratePolicy
base_policy settings m =
    from_stored m.regenerate_policy m.profile (profile_settings settings m.profile)

-- `UpdateRegeneratePolicyUseCase.execute`
unfoldable pub update_policy : PanelSettings → ℕ → ℕ → Flags → ℕ → Exec World (Unit {0})
unfolding get_by_id from_stored profile_settings model_copy update_regenerate_policy
update_policy settings id user_id flags now = do
  config ← read_session (λ db. or_raise (get_by_id id db) config_not_found)
  on_session
      (update_regenerate_policy id (model_copy (base_policy settings config) flags) user_id now)
  audit settings "config.regenerate_policy_updated"
      (obj (
        field "config_id" (num id) (
          field "regenerate_policy"
            (obj (flags_json (to_stored (model_copy (base_policy settings config) flags)))) end)))
      user_id
