-- ===== src/Persistence/Models.antt =====
-- The tables of panel/infrastructure/persistence/models.py as one record of row lists, and the
-- audit log of panel/application/audit_service.py. Ids (UUIDs) are numbers that are only compared,
-- times are whole numbers that are only compared and moved on; a time or an id that the database
-- or the interpreter makes (`uuid4`, `now`) is an argument of the operation.
use vpn_control_panel.Prelude.{ℕ, String, Bool, Option, List}
use vpn_control_panel.Json.{Json}
use vpn_control_panel.Domain.Enums.{ConfigProfile, ConfigStatus, VpnProtocolType}
use vpn_control_panel.Domain.Policy.{Flags}

pub record UserModel : Type 0 where
  pub id : ℕ
  pub username : String
  pub password_hash : String

pub record RateLimitEntryModel : Type 0 where
  pub key : String
  pub window_start : ℕ
  pub count : ℕ

pub record AuditLogModel : Type 0 where
  pub user_id : Option ℕ
  pub event_type : String
  pub payload : Json

pub record VpnConfigModel : Type 0 where
  pub id : ℕ
  pub name : String
  pub protocol : VpnProtocolType
  pub profile : ConfigProfile
  pub status : ConfigStatus
  pub current_version : Option ℕ
  pub last_task_id : Option String
  pub error_message : Option String
  pub regenerate_policy : Option Flags
  pub share_public_host : Option String
  pub is_active : Bool
  pub created_by : ℕ
  pub updated_by : ℕ
  pub created_at : ℕ
  pub updated_at : ℕ

pub record VpnConfigVersionModel : Type 0 where
  pub config_id : ℕ
  pub version : ℕ
  pub port : ℕ
  pub private_key : String
  pub public_key : String
  pub cert_fingerprint : String
  pub config_data : Json

pub record ShareTokenModel : Type 0 where
  pub id : ℕ
  pub token_hash : String
  pub config_id : Option ℕ
  pub config_version : Option ℕ
  pub secure : Bool
  pub is_permanent : Bool
  pub expires_at : Option ℕ
  pub revoked_at : Option ℕ
  pub created_by : ℕ
  pub created_at : ℕ
  pub last_accessed_at : Option ℕ
  pub access_count : ℕ

pub record Db : Type 0 where
  pub users : List UserModel
  pub rate_limit_entries : List RateLimitEntryModel
  pub audit_logs : List AuditLogModel
  pub vpn_configs : List VpnConfigModel
  pub vpn_config_versions : List VpnConfigVersionModel
  pub share_tokens : List ShareTokenModel
