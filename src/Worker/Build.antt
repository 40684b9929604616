-- ===== src/Worker/Build.antt =====
-- `build_and_persist_version` of panel/worker/services/config_build.py. What it calls outside the
-- database is an interface: the profile builder of panel/infrastructure/vpn/config_builder.py
-- (which draws keys, ports and names at random and writes files), the systemd unit, and SHA-256.
use vpn_control_panel.Prelude.{
  ℕ, ◌-◌, String, Bool, true, false, Option, none, some, List, [], ◌∷◌, ◌++◌, ◌&&◌, ◌=ˢ◌, ltb,
  if◌then◌else◌, get_or, and_then, key_error, runtime_error, Result, ok, err, Exec, ◌>>=◌, ◌>>◌,
  lift, gets, or_raise,
}
use vpn_control_panel.Json.{Json, obj, Items, nil, cons, end}
use vpn_control_panel.Json.Access.{dict_get, is_str, inbounds}
use vpn_control_panel.Json.FieldCrypto.{
  FieldEncryptor, sensitive_fields, encrypt_config_data_fields, decrypt_config_data_fields,
}
use vpn_control_panel.Domain.Enums.{ConfigProfile}
use vpn_control_panel.Domain.Settings.{PanelSettings, VpnProfileSettings, profile_settings}
use vpn_control_panel.Domain.Policy.{RegeneratePolicy, from_stored}
use vpn_control_panel.Vpn.ConfigBuilder.{PreviousSecrets, BuildResult, BuildRequest}
use vpn_control_panel.Persistence.Models.{Db, VpnConfigVersionModel}
use vpn_control_panel.Persistence.Configs.{
  get_regenerate_policy_raw, get_version_private_key, list_used_ports, get_share_public_host,
  insert_version,
}
use vpn_control_panel.Persistence.Configs.Queries.{ConfigVersionSnapshot, get_version_snapshot}

pub record BuilderOps : Type 0 where
  pub build : BuildRequest → Result BuildResult
  pub listening_port : ConfigProfile → Json → VpnProfileSettings → Result ℕ
  -- the config data after the certificate paths are put in
  pub write_files : ConfigProfile → ℕ → BuildResult → String → Result Json
  pub previous_for_regenerate :
      ConfigProfile → Json → String → String → String → Result (Option PreviousSecrets)
  pub stop_config_unit : ℕ → Result (Unit {0})
  pub sha256_hex : String → String

pub record WorkerContext : Type 0 where
  pub settings : PanelSettings
  pub encryptor : FieldEncryptor
  pub builder : BuilderOps

unfoldable pub cert_fingerprint_for_keys : BuilderOps → String → String → String
cert_fingerprint_for_keys b public_key explicit =
    if explicit =ˢ "" then b.sha256_hex public_key else explicit

abbrev pub decrypt_private : FieldEncryptor → Option String → Result String
decrypt_private e none = ok ""
decrypt_private e (some k) = if k =ˢ "" then ok "" else e.decrypt k

-- `d.get(key, {})`
abbrev pub get_or_empty : String → Json → Result Json
get_or_empty k d = and_then (dict_get k d) (λ o. ok (get_or o (obj end)))

-- `stream.get(settings, {}).get(key)`
abbrev pub nested : String → String → Json → Result (Option Json)
nested settings key stream = and_then (get_or_empty settings stream) (dict_get key)

abbrev pub GrpcNames : Type 0
GrpcNames = Option Json × Option Json

unfoldable pub grpc_names_of : Json → Result GrpcNames
grpc_names_of inbound = and_then (get_or_empty "streamSettings" inbound) λ stream.
    and_then (nested "tlsSettings" "serverName" stream)
      λ sni. and_then (nested "grpcSettings" "serviceName" stream) λ service. ok (sni, service)

-- The loop that looks for the inbound with the profile's tag and takes its stream's names.
unfoldable pub preferred_grpc : String → Items → Result GrpcNames
unfolding grpc_names_of
preferred_grpc tag nil = ok (none, none)
preferred_grpc tag (cons inbound xs) =
    let rest = preferred_grpc tag xs in
    and_then (dict_get "tag" inbound) λ t. if is_str tag t then grpc_names_of inbound else rest

abbrev pub is_grpc : ConfigProfile → Bool
is_grpc ConfigProfile.xray_grpc = true
is_grpc _ = false

abbrev inbound_items : Json → Result Items
inbound_items (obj fs) = inbounds fs
inbound_items _ = err (runtime_error "no attribute 'get'")

-- What the previous version hands on: its port, its secrets and its gRPC names.
pub record Inherited : Type 0 where
  pub previous : Option PreviousSecrets
  pub previous_port : Option ℕ
  pub grpc_names : GrpcNames

abbrev pub nothing_inherited : Inherited
nothing_inherited = record { previous = none; previous_port = none; grpc_names = (none, none) }

abbrev grpc_part : ConfigProfile → String → Json → Result GrpcNames
grpc_part profile tag plain =
    if is_grpc profile then and_then (inbound_items plain) (preferred_grpc tag) else ok (none, none)

unfoldable pub inherit_from :
    WorkerContext
    → ConfigProfile
    → VpnProfileSettings
    → Option String
    → ConfigVersionSnapshot
    → Result Inherited
unfolding decrypt_config_data_fields preferred_grpc sensitive_fields inbounds
inherit_from ctx profile ps encrypted_private s =
    and_then (decrypt_private ctx.encryptor encrypted_private) λ private_key.
      and_then (decrypt_config_data_fields s.config_data (sensitive_fields s.profile) ctx.encryptor)
        λ plain.
          and_then
            (ctx.builder.previous_for_regenerate s.profile plain private_key s.public_key
              s.cert_fingerprint)
            λ previous. and_then (grpc_part profile ps.inbound_tag plain) λ names.
              ok (record { previous = previous; previous_port = some s.port; grpc_names = names })

unfoldable pub inherited :
    WorkerContext → ConfigProfile → VpnProfileSettings → ℕ → ℕ → Db → Result Inherited
unfolding inherit_from get_version_snapshot get_version_private_key
inherited ctx profile ps i target db =
    if ltb 1 target
    then (elim (get_version_snapshot i (target - 1) db) [
      | none ↦ ok nothing_inherited
      | some s ↦ inherit_from ctx profile ps (get_version_private_key i (target - 1) db) s
    ])
    else ok nothing_inherited

-- `used_ports` and `preferred_port` from the previous port and the policy.
unfoldable pub port_choice : List ℕ → Option ℕ → Bool → List ℕ × Option ℕ
port_choice used none rotate = (used, none)
port_choice used (some p) true = (used ++ p ∷ [], none)
port_choice used (some p) false = (used, some p)

unfoldable pub build_request :
    ConfigProfile → String → RegeneratePolicy → Inherited → List ℕ → Option String → BuildRequest
unfolding port_choice
build_request profile name policy old used host =
    let ports = port_choice used old.previous_port policy.rotate_port in
    record {
      profile = profile;
      name = name;
      previous = old.previous;
      exclude_ports = ports.0;
      preferred_port = ports.1;
      preferred_grpc_sni = old.grpc_names.0;
      preferred_grpc_service_name = old.grpc_names.1;
      policy = policy;
      share_public_host = host;
    }

abbrev pub stop_unit : WorkerContext → ℕ → ℕ → Result (Unit {0})
stop_unit ctx i target =
    if ltb 1 target && ctx.settings.systemd.per_config
    then ctx.builder.stop_config_unit i
    else ok tt

unfoldable pub version_row :
    WorkerContext → ConfigProfile → ℕ → ℕ → ℕ → BuildResult → Json → VpnConfigVersionModel
unfolding cert_fingerprint_for_keys encrypt_config_data_fields sensitive_fields
version_row ctx profile i target port r config_data = record {
  config_id = i;
  version = target;
  port = port;
  private_key = if r.private_key =ˢ "" then "" else ctx.encryptor.encrypt r.private_key;
  public_key = r.public_key;
  cert_fingerprint = cert_fingerprint_for_keys ctx.builder r.public_key r.cert_fingerprint;
  config_data = encrypt_config_data_fields config_data (sensitive_fields profile) ctx.encryptor;
}

unfoldable pub build_and_persist_version :
    WorkerContext → ℕ → ConfigProfile → ℕ → String → Exec Db (Unit {0})
unfolding profile_settings build_request version_row get_regenerate_policy_raw get_share_public_host
    insert_version inherited from_stored list_used_ports
build_and_persist_version ctx i profile target name = do
  ps ← lift (or_raise (profile_settings ctx.settings profile) (key_error "profile"))
  raw ← λ db. (get_regenerate_policy_raw i db, db)
  old ← λ db. (inherited ctx profile ps i target db, db)
  used ← gets (list_used_ports i)
  host ← λ db. (get_share_public_host i db, db)
  lift (stop_unit ctx i target)
  result ← lift (
      ctx.builder.build
        (build_request profile name (from_stored raw profile (some ps)) old used host))
  port ← lift (ctx.builder.listening_port profile result.config_data ps)
  config_data ← lift (ctx.builder.write_files profile i (record result { port = port }) name)
  insert_version (version_row ctx profile i target port result config_data)
