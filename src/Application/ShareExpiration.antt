-- ===== src/Application/ShareExpiration.antt =====
-- panel/application/share_expiration.py. `ttl_seconds` is an int of the request: a natural number, or
-- a negative one, which `negative` stands for.
use vpn_control_panel.Prelude.{
  ℕ, zero, suc, ◌+◌, Bool, true, false, Option, none, some, leb, is_some, if◌then◌else◌, Result, ok,
  err, invalid_share_request,
}

pub data TtlSeconds : Type 0 where
  seconds : ℕ → TtlSeconds
  negative : TtlSeconds

pub record ShareExpiration : Type 0 where
  pub is_permanent : Bool
  pub expires_at : Option ℕ

-- The branch where `ttl_seconds` is given and positive.
abbrev with_ttl : Bool → Option ℕ → ℕ → ℕ → Result ShareExpiration
with_ttl permanent expires_at ttl now =
    if is_some expires_at
    then err (invalid_share_request "Specify either ttl_seconds or expires_at, not both")
    else if permanent
    then err (invalid_share_request "ttl_seconds cannot be used with is_permanent")
    else ok (record { is_permanent = false; expires_at = some (now + ttl) })

abbrev without_ttl : Bool → Option ℕ → ℕ → Result ShareExpiration
without_ttl true (some t) now =
    err (invalid_share_request "expires_at cannot be used with is_permanent")
without_ttl true none now = ok (record { is_permanent = true; expires_at = none })
without_ttl false none now =
    err (invalid_share_request "ttl_seconds or expires_at is required when is_permanent is false")
without_ttl false (some t) now =
    if leb t now
    then err (invalid_share_request "expires_at must be in the future")
    else ok (record { is_permanent = false; expires_at = some t })

unfoldable pub resolve_share_expiration :
    Bool → Option ℕ → Option TtlSeconds → ℕ → Result ShareExpiration
resolve_share_expiration permanent expires_at none now = without_ttl permanent expires_at now
resolve_share_expiration permanent expires_at (some negative) now =
    err (invalid_share_request "ttl_seconds must be positive")
resolve_share_expiration permanent expires_at (some (seconds zero)) now =
    err (invalid_share_request "ttl_seconds must be positive")
resolve_share_expiration permanent expires_at (some (seconds (suc n))) now =
    with_ttl permanent expires_at (suc n) now
