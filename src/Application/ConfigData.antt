-- ===== src/Application/ConfigData.antt =====
-- panel/application/update_config_data.py: reading and replacing the data of a config's current
-- version. The JSON and YAML parsers are parameters; the profile builder is the worker's interface.
pub mod ReadBack
pub mod Update
use Prim.Native.String
use vpn_control_panel.Prelude.{
  [], Error, ℕ, String, Bool, true, false, Option, none, some, ◌=ˢ◌, if◌then◌else◌, strip,
  config_not_found, config_data_unavailable, invalid_config_data, Result, ok, err, or_raise,
  and_then, Exec, ◌>>=◌, ◌>>◌, pure, lift, raise_if, get_or,
}
use vpn_control_panel.Json.{Json, str, num, obj, end, field}
use vpn_control_panel.Json.FieldCrypto.{
  FieldEncryptor, sensitive_fields, encrypt_config_data_fields, decrypt_config_data_fields,
}
use vpn_control_panel.Domain.Enums.{profile_value, ConfigProfile, is_busy, is_hysteria}
use vpn_control_panel.Domain.Settings.{PanelSettings, profile_settings}
use vpn_control_panel.Persistence.Models.{Db, VpnConfigModel}
use vpn_control_panel.Persistence.Configs.{update_version_config_data}
use vpn_control_panel.Persistence.Configs.Queries.{
  ConfigVersionSnapshot, get_by_id, get_version_snapshot,
}
use vpn_control_panel.Application.Session.{World, on_session, read_session, audit}
use vpn_control_panel.Worker.Build.{BuilderOps}
use vpn_control_panel.Vpn.ConfigBuilder.{BuildResult}

pub data ConfigFormat : Type 0 where
  json yaml : ConfigFormat

unfoldable pub format_for_profile : ConfigProfile → ConfigFormat
format_for_profile p = if is_hysteria p then yaml else json

abbrev format_name : ConfigFormat → String
format_name json = "json"
format_name yaml = "yaml"

-- `json.loads` and `yaml.safe_load`; `none` is an exception of theirs.
pub record Parsers : Type 0 where
  pub parse : ConfigFormat → String → Option Json

-- `not isinstance(data, dict) or not data`
abbrev pub is_nonempty_dict : Json → Bool
is_nonempty_dict (obj (field k v fs)) = true
is_nonempty_dict _ = false

abbrev checked_root : Option Json → Result Json
checked_root none = err (invalid_config_data "Syntax error")
checked_root (some d) =
    if is_nonempty_dict d then ok d else err (invalid_config_data "Root must be a non-empty object")

unfoldable pub parse_config_content : Parsers → String → ConfigFormat → Result Json
unfolding strip
parse_config_content ps content fmt =
    let text = strip content in
    if text =ˢ ""
    then err (invalid_config_data "Empty document")
    else checked_root (ps.parse fmt text)

-- The current version of the config that `get_by_id` finds.
abbrev pub current_of : Option VpnConfigModel → Result (VpnConfigModel × ℕ)
current_of none = err config_not_found
current_of (some m) = elim m.current_version [ none ↦ err config_not_found | some v ↦ ok (m, v) ]

-- `GetConfigDataUseCase.execute`: the version and its decrypted data.
unfoldable pub get_config_data : FieldEncryptor → ℕ → Db → Result (ℕ × Json)
unfolding get_by_id get_version_snapshot decrypt_config_data_fields sensitive_fields
get_config_data e id db = and_then (current_of (get_by_id id db)) λ c.
    and_then (or_raise (get_version_snapshot id c.1 db) config_data_unavailable) λ s.
      and_then (decrypt_config_data_fields s.config_data (sensitive_fields s.profile) e)
        λ d. ok (s.version, d)

-- The body of the request: `content` with a format, or an object.
pub record DataRequest : Type 0 where
  pub config_data : Option Json
  pub content : Option String
  pub format : Option ConfigFormat

abbrev object_of : Option Json → Result Json
object_of none = err (invalid_config_data "Provide content or config_data object")
object_of (some d) =
    if is_nonempty_dict d
    then ok d
    else err (invalid_config_data "Provide content or config_data object")

abbrev pub parsed_data : Parsers → DataRequest → ConfigFormat → Result Json
parsed_data ps r fmt = elim r.content [
  | some text ↦ parse_config_content ps text fmt
  | none ↦ object_of r.config_data
]

abbrev pub ok_or {ℓ} : {A : Type ℓ} → Result A → A → A
ok_or (ok a) d = a
ok_or (err e) d = d

abbrev plain_result : Json → ℕ → ConfigVersionSnapshot → BuildResult
plain_result d port s = record {
  config_data = d;
  port = port;
  private_key = "";
  public_key = s.public_key;
  cert_fingerprint = s.cert_fingerprint;
  client_id = none;
  extra_files = [];
}

abbrev unknown_profile : ConfigProfile → Error
unknown_profile p = invalid_config_data (String.◌++◌ "Unknown profile: " (profile_value p))

-- `UpdateConfigDataUseCase.execute`
unfoldable pub update_config_data :
    BuilderOps
    → Parsers
    → FieldEncryptor
    → PanelSettings
    → ℕ
    → ℕ
    → DataRequest
    → ℕ
    → Exec World (ℕ × Json)
unfolding get_by_id get_version_snapshot profile_settings format_for_profile parse_config_content
    encrypt_config_data_fields sensitive_fields update_version_config_data
update_config_data builder ps e settings id user_id r now = do
  current ← read_session (λ db. current_of (get_by_id id db))
  raise_if (is_busy current.0.status)
      (invalid_config_data "Config is busy; wait until status is active/failed")
  s ← read_session (λ db. or_raise (get_version_snapshot id current.1 db) config_data_unavailable)
  p ← lift (or_raise (profile_settings settings s.profile) (unknown_profile s.profile))
  d ← lift (parsed_data ps r (get_or r.format (format_for_profile s.profile)))
  on_session (
      update_version_config_data id s.version
        (encrypt_config_data_fields d (sensitive_fields s.profile) e)
        (ok_or (builder.listening_port s.profile d p) s.port) user_id now)
  written ← lift (
      builder.write_files s.profile id
        (plain_result d (ok_or (builder.listening_port s.profile d p) s.port) s) s.name)
  audit settings "config.config_data_updated"
      (obj (
        field "config_id" (num id) (
          field "version" (num s.version) (
            field "port" (num (ok_or (builder.listening_port s.profile d p) s.port)) (
              field "format" (str (format_name (get_or r.format (format_for_profile s.profile))))
                end)))))
      user_id
  pure (s.version, written)
