-- ===== src/Application/Audit.antt =====
-- panel/infrastructure/audit/sanitizer.py and panel/application/audit_service.py.
pub mod Redaction
use vpn_control_panel.Prelude.{
  ℕ, String, Bool, true, false, Option, none, some, List, [], ◌∷◌, ◌++◌, ◌=ˢ◌, ◌&&◌, ◌||◌, not, any,
  if◌then◌else◌, lower, ends_with,
}
use vpn_control_panel.Json.{
  Json, null, bool, num, str, scalar, arr, obj, Items, nil, cons, Fields, end, field,
}
use vpn_control_panel.Domain.Settings.{PanelSettings}
use vpn_control_panel.Persistence.Models.{Db}

abbrev pub redacted : Json
redacted = str "[REDACTED]"

abbrev sensitive_keys : List String
sensitive_keys =
    "password" ∷ "private_key" ∷ "secret" ∷ "api_key" ∷ "secret_key" ∷ "encryption_key"
    ∷ "access_token" ∷ "authorization" ∷ "raw_token" ∷ "cert_pem" ∷ "key_pem" ∷ []

unfoldable pub is_sensitive_key : String → Bool
unfolding lower ends_with
is_sensitive_key key =
    let k = lower key in
    any (λ s. k =ˢ s) sensitive_keys
    || k =ˢ "token"
    || (ends_with k "_token" && not (k =ˢ "token_hash"))

unfoldable mutual
  pub sanitize_audit_payload : Json → Json
  sanitize_audit_payload null = null
  sanitize_audit_payload (bool b) = bool b
  sanitize_audit_payload (num n) = num n
  sanitize_audit_payload (str s) = str s
  sanitize_audit_payload (scalar s) = scalar s
  sanitize_audit_payload (arr xs) = arr (sanitize_items xs)
  sanitize_audit_payload (obj fs) = obj (sanitize_fields fs)

  pub sanitize_items : Items → Items
  sanitize_items nil = nil
  sanitize_items (cons x xs) = cons (sanitize_audit_payload x) (sanitize_items xs)

  pub sanitize_fields : Fields → Fields
  sanitize_fields end = end
  sanitize_fields (field k v fs) =
      field k (if is_sensitive_key k then redacted else sanitize_audit_payload v)
        (sanitize_fields fs)

-- `AuditService.log`: the row, if auditing is on.
unfoldable pub audit_log : PanelSettings → String → Json → Option ℕ → Db → Db
unfolding sanitize_audit_payload
audit_log settings event_type payload user_id db =
    if settings.audit.enabled
    then record db {
      audit_logs =
          db.audit_logs
          ++ record {
            user_id = user_id;
            event_type = event_type;
            payload = sanitize_audit_payload payload;
          }
            ∷ [];
    }
    else db

unfoldable pub log_failed_login : PanelSettings → String → String → Db → Db
unfolding audit_log
log_failed_login settings username client_ip db =
    if settings.audit.enabled && settings.audit.log_failed_login
    then audit_log settings "auth.login.failed"
        (obj (field "ip" (str client_ip) (field "username_attempt" (str username) end))) none db
    else db
