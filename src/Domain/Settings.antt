-- ===== src/Domain/Settings.antt =====
-- The settings of panel/config.py that the modelled code reads. Paths are texts, times are whole
-- seconds; the sections that only configure logging, metrics or the web UI are left out.
use vpn_control_panel.Prelude.{ℕ, String, Bool, Option, List, ◌=ˢ◌, find?, some, none}
use vpn_control_panel.Domain.Enums.{ConfigProfile, profile_value}

pub record RateLimitRule : Type 0 where
  pub max_attempts : Option ℕ
  pub max_requests : Option ℕ
  pub window_seconds : ℕ

pub record RateLimitSettings : Type 0 where
  pub login : RateLimitRule
  pub share : RateLimitRule

pub record AuditSettings : Type 0 where
  pub enabled : Bool
  pub log_failed_login : Bool

pub record SystemdSettings : Type 0 where
  pub per_config : Bool
  pub unit_dir : String
  pub service_prefix : String
  pub xray_config_dir : String
  pub hysteria_config_dir : String
  pub xray_binary : String
  pub hysteria_binary : String

pub record VpnProfileSettings : Type 0 where
  pub template_file : String
  pub service_name : String
  pub config_filename : String
  pub inbound_tag : String
  pub port_candidates : List ℕ
  pub active_config_path : Option String
  pub cert_dir : Option String
  pub cert_prefix : Option String
  pub xhttp_hosts : List String
  pub xhttp_paths : List String
  pub grpc_sni_hosts : List String
  pub grpc_service_names : List String
  pub reality_dest_hosts : List String
  pub reality_server_names : List String
  pub share_public_port : Option ℕ
  pub share_public_host : Option String
  pub listen_address : Option String
  pub nginx_stream_conf : Option String
  pub nginx_panel_backend : Option String
  pub tls_cert_file : Option String
  pub tls_key_file : Option String

pub record VpnSettings : Type 0 where
  pub public_host : String
  pub public_host_aliases : List String
  pub profiles : List (String × VpnProfileSettings)

pub record PathsSettings : Type 0 where
  pub configs : String
  pub templates : String

pub record PanelSettings : Type 0 where
  pub paths : PathsSettings
  pub server_port : ℕ
  pub rate_limit : RateLimitSettings
  pub audit : AuditSettings
  pub systemd : SystemdSettings
  pub vpn : VpnSettings

-- `settings.vpn.profiles.get(profile.value)`
unfoldable pub profile_settings : PanelSettings → ConfigProfile → Option VpnProfileSettings
profile_settings s p = elim (find? (λ (k, _). k =ˢ profile_value p) s.vpn.profiles) [
  | none ↦ none
  | some (_, v) ↦ some v
]
