-- ===== src/Application/ShareUseCases.antt =====
-- panel/application/create_share_link.py, create_all_share_link.py, revoke_share_link.py and
-- resolve_share.py. The token (`secrets`), its hash (SHA-256) and the client URIs of a snapshot
-- (panel/infrastructure/vpn/client_uri.py, which picks names at random) come through an interface.
pub mod Order
use Prim.Native.Nat.{Ordering}
use Prim.Native.String
use vpn_control_panel.Prelude.{
  ℕ, String, Bool, true, false, Option, none, some, List, [], ◌∷◌, ◌++◌, ◌==◌, ◌&&◌, ◌||◌, not, ltb,
  is_some, if◌then◌else◌, length, config_not_found, config_not_shareable, share_not_found, Result,
  ok, err, and_then, Exec, ◌>>=◌, ◌>>◌, pure, lift, raise_if, lower,
}
use vpn_control_panel.Json.{Json, null, str, num, bool, obj, Fields, end, field}
use vpn_control_panel.Json.FieldCrypto.{
  FieldEncryptor, sensitive_fields, decrypt_config_data_fields,
}
use vpn_control_panel.Domain.Enums.{ConfigProfile, is_active_status}
use vpn_control_panel.Domain.Settings.{PanelSettings}
use vpn_control_panel.Persistence.Models.{Db, VpnConfigModel, ShareTokenModel}
use vpn_control_panel.Persistence.Configs.Queries.{
  ConfigVersionSnapshot, get_by_id, get_version_snapshot, list_current_version_snapshots,
}
use vpn_control_panel.Persistence.Shares.{
  create, get_by_token_hash, revoke_by_token_hash, revoke_by_id, record_access,
}
use vpn_control_panel.Persistence.RateLimits.{check_and_increment}
use vpn_control_panel.Application.Session.{World, on_session, read_session, write_session, audit}
use vpn_control_panel.Application.Login.{nonzero_or}
use vpn_control_panel.Application.ShareUseCases.Order.{sort_snapshots}
use vpn_control_panel.Application.ShareExpiration.{
  ShareExpiration, TtlSeconds, resolve_share_expiration,
}

pub record ShareOps : Type 0 where
  pub hash_share_token : String → String
  -- `str.lower`
  pub lower : String → String
  pub build_client_uris :
      ConfigProfile → Json → String → String → String → Bool → Option String → Result (List String)

pub record ShareRequest : Type 0 where
  pub secure : Bool
  pub is_permanent : Bool
  pub expires_at : Option ℕ
  pub ttl_seconds : Option TtlSeconds

-- `current_version is None or status is not ACTIVE`
unfoldable pub shareable_version : Option VpnConfigModel → Result ℕ
shareable_version none = err config_not_found
shareable_version (some m) = elim m.current_version [
  | none ↦ err (config_not_shareable "Config is not ready for sharing")
  | some v ↦
      if is_active_status m.status
      then ok v
      else err (config_not_shareable "Config is not ready for sharing")
]

abbrev time_json : Option ℕ → Json
time_json none = null
time_json (some t) = num t

abbrev ttl_json : Option TtlSeconds → Json
ttl_json none = null
ttl_json (some (TtlSeconds.seconds n)) = num n
ttl_json (some TtlSeconds.negative) = null

abbrev term_fields : ShareRequest → ShareExpiration → Fields
term_fields r e =
    field "is_permanent" (bool e.is_permanent) (
      field "expires_at" (time_json e.expires_at)
        (field "ttl_seconds" (ttl_json r.ttl_seconds) end))

-- `CreateShareLinkUseCase.execute`, for a token that was drawn; the answer is the pinned version.
-- The times are those of the check of the expiry and of the row.
unfoldable pub create_share_link :
    ShareOps → PanelSettings → ℕ → ℕ → ShareRequest → String → ℕ → ℕ → ℕ → Exec World ℕ
unfolding resolve_share_expiration get_by_id shareable_version create
create_share_link ops settings config_id user_id r raw_token share_id now row_now = do
  expiration ← lift (resolve_share_expiration r.is_permanent r.expires_at r.ttl_seconds now)
  version ← read_session (λ db. shareable_version (get_by_id config_id db))
  on_session (
      create
        (record {
          token_hash = ops.hash_share_token raw_token;
          config_id = some config_id;
          config_version = some version;
          secure = r.secure;
          is_permanent = expiration.is_permanent;
          expires_at = expiration.expires_at;
          created_by = user_id;
        })
        share_id row_now)
  audit settings "share.created"
      (obj (
        field "config_id" (num config_id) (
          field "config_version" (num version)
            (field "secure" (bool r.secure) (term_fields r expiration)))))
      user_id
  pure version

abbrev is_empty {ℓ} : {A : Type ℓ} → List A → Bool
is_empty [] = true
is_empty (x ∷ xs) = false

-- `CreateAllShareLinksUseCase.execute`; the answer is `config_count`.
unfoldable pub create_all_share_links :
    ShareOps → PanelSettings → ℕ → ShareRequest → String → ℕ → ℕ → ℕ → Exec World ℕ
unfolding resolve_share_expiration list_current_version_snapshots create
create_all_share_links ops settings user_id r raw_token share_id now row_now = do
  expiration ← lift (resolve_share_expiration r.is_permanent r.expires_at r.ttl_seconds now)
  snapshots ← read_session (λ db. ok (list_current_version_snapshots db))
  raise_if (is_empty snapshots) (config_not_shareable "No active configs available for sharing")
  on_session (
      create
        (record {
          token_hash = ops.hash_share_token raw_token;
          config_id = none;
          config_version = none;
          secure = r.secure;
          is_permanent = expiration.is_permanent;
          expires_at = expiration.expires_at;
          created_by = user_id;
        })
        share_id row_now)
  audit settings "share.created"
      (obj (
        field "all_configs" (bool true) (
          field "secure" (bool r.secure)
            (field "config_count" (num (length snapshots)) (term_fields r expiration)))))
      user_id
  pure (length snapshots)

-- `RevokeShareLinkUseCase.execute`
unfoldable pub revoke_share : ShareOps → PanelSettings → String → ℕ → ℕ → Exec World (Unit {0})
unfolding revoke_by_token_hash
revoke_share ops settings raw_token user_id now = do
  revoked ← on_session (revoke_by_token_hash (ops.hash_share_token raw_token) now)
  raise_if (not revoked) share_not_found
  audit settings "share.revoked"
      (obj (field "token_hash" (str (ops.hash_share_token raw_token)) end)) user_id

-- `RevokeShareLinkUseCase.execute_by_id`
unfoldable pub revoke_share_by_id : PanelSettings → ℕ → ℕ → ℕ → Exec World (Unit {0})
unfolding revoke_by_id
revoke_share_by_id settings link_id user_id now = do
  revoked ← on_session (revoke_by_id link_id now)
  raise_if (not revoked) share_not_found
  audit settings "share.revoked" (obj (field "link_id" (num link_id) end)) user_id

unfoldable pub uris_for_snapshot :
    ShareOps → FieldEncryptor → Bool → ConfigVersionSnapshot → Result (List String)
unfolding decrypt_config_data_fields sensitive_fields
uris_for_snapshot ops e secure s =
    and_then (decrypt_config_data_fields s.config_data (sensitive_fields s.profile) e) λ plain.
      ops.build_client_uris s.profile plain s.public_key s.cert_fingerprint s.name secure
        s.share_public_host

unfoldable pub uris_for_all :
    ShareOps → FieldEncryptor → Bool → List ConfigVersionSnapshot → Result (List String)
unfolding uris_for_snapshot
uris_for_all ops e secure [] = ok []
uris_for_all ops e secure (s ∷ ss) =
    and_then (uris_for_snapshot ops e secure s)
      λ here. and_then (uris_for_all ops e secure ss) λ rest. ok (here ++ rest)

abbrev not_expired : ℕ → Option ℕ → Bool
not_expired now none = true
not_expired now (some t) = ltb now t

-- The two checks of the row that the token's hash finds, at the time of the check.
unfoldable pub is_open : ℕ → ShareTokenModel → Bool
is_open now s = not (is_some s.revoked_at) && (s.is_permanent || not_expired now s.expires_at)

unfoldable pub open_share : ℕ → Option ShareTokenModel → Result ShareTokenModel
unfolding is_open
open_share now none = err share_not_found
open_share now (some s) = if is_open now s then ok s else err share_not_found

abbrev uris_of_all :
    ShareOps → FieldEncryptor → Bool → List ConfigVersionSnapshot → Result (List String)
uris_of_all ops e secure [] = err share_not_found
uris_of_all ops e secure (s ∷ ss) = uris_for_all ops e secure (s ∷ ss)

abbrev uris_of_version :
    ShareOps → FieldEncryptor → Bool → Option ConfigVersionSnapshot → Result (List String)
uris_of_version ops e secure none = err share_not_found
uris_of_version ops e secure (some s) = uris_for_snapshot ops e secure s

-- The URIs of a share, from the tables.
unfoldable pub share_uris : ShareOps → FieldEncryptor → ShareTokenModel → Db → Result (List String)
unfolding uris_for_all uris_for_snapshot sort_snapshots list_current_version_snapshots
    get_version_snapshot
share_uris ops e s db = elim s.config_id [
  | none ↦ uris_of_all ops e s.secure (sort_snapshots ops.lower (list_current_version_snapshots db))
  | some i ↦ elim s.config_version [
    | none ↦ err share_not_found
    | some v ↦ uris_of_version ops e s.secure (get_version_snapshot i v db)
  ]
]

-- The times of a resolution: of the limiter, of the check of the expiry, of the access.
pub record ResolveTimes : Type 0 where
  pub limited_at : ℕ
  pub checked_at : ℕ
  pub accessed_at : ℕ

-- `ResolveShareUseCase.execute`
unfoldable pub resolve_share :
    ShareOps
    → FieldEncryptor
    → PanelSettings
    → String
    → String
    → ResolveTimes
    → Exec World (List String)
unfolding check_and_increment open_share get_by_token_hash share_uris record_access
resolve_share ops e settings raw_token client_ip t = do
  on_session (
      check_and_increment "share" (String.◌++◌ "ip:" client_ip)
        (nonzero_or settings.rate_limit.share.max_requests 30)
        settings.rate_limit.share.window_seconds t.limited_at)
  share ←
      read_session
        (λ db. open_share t.checked_at (get_by_token_hash (ops.hash_share_token raw_token) db))
  uris ← read_session (share_uris ops e share)
  write_session (record_access share.id t.accessed_at)
  pure uris
