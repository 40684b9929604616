-- ===== src/Persistence/Shares.antt =====
-- `ShareTokenRepository` of panel/infrastructure/persistence/repositories/share_token.py. The hash of
-- a token (SHA-256, external) is a text that is only compared.
use vpn_control_panel.Prelude.{
  ℕ, ◌+◌, String, Bool, true, false, Option, none, some, List, [], ◌∷◌, ◌++◌, ◌&&◌, ◌||◌, not, ◌=ˢ◌,
  ◌==◌, ltb, if◌then◌else◌, find?, modify, filter, is_some, integrity_error, ok, err, Exec,
}
use vpn_control_panel.Persistence.Models.{Db, ShareTokenModel}
use vpn_control_panel.Persistence.Configs.{get_any_model}

abbrev pub has_hash : String → ShareTokenModel → Bool
has_hash h s = s.token_hash =ˢ h

abbrev pub has_share_id : ℕ → ShareTokenModel → Bool
has_share_id i s = s.id == i

unfoldable pub get_by_token_hash : String → Db → Option ShareTokenModel
get_by_token_hash h db = find? (has_hash h) db.share_tokens

unfoldable pub get_by_share_id : ℕ → Db → Option ShareTokenModel
get_by_share_id i db = find? (has_share_id i) db.share_tokens

pub record NewShare : Type 0 where
  pub token_hash : String
  pub config_id : Option ℕ
  pub config_version : Option ℕ
  pub secure : Bool
  pub is_permanent : Bool
  pub expires_at : Option ℕ
  pub created_by : ℕ

-- The row with its defaults; `id` is what `uuid4` gives, `now` the server's time.
abbrev pub share_row : NewShare → ℕ → ℕ → ShareTokenModel
share_row s id now = record {
  id = id;
  token_hash = s.token_hash;
  config_id = s.config_id;
  config_version = s.config_version;
  secure = s.secure;
  is_permanent = s.is_permanent;
  expires_at = s.expires_at;
  revoked_at = none;
  created_by = s.created_by;
  created_at = now;
  last_accessed_at = none;
  access_count = 0;
}

abbrev pub names_config : Option ℕ → Db → Bool
names_config none db = true
names_config (some i) db = is_some (get_any_model i db)

-- `create`: the primary key, the unique hash and the foreign key are the database's.
unfoldable pub create : NewShare → ℕ → ℕ → Exec Db (Unit {0})
unfolding get_by_token_hash get_by_share_id get_any_model
create s id now db =
    if is_some (get_by_token_hash s.token_hash db) || is_some (get_by_share_id id db)
    then (err integrity_error, db)
    else if names_config s.config_id db
    then (ok tt, record db { share_tokens = db.share_tokens ++ share_row s id now ∷ [] })
    else (err integrity_error, db)

abbrev pub write_share : (ShareTokenModel → Bool) → (ShareTokenModel → ShareTokenModel) → Db → Db
write_share p f db = record db { share_tokens = modify p f db.share_tokens }

abbrev pub mark_revoked : ℕ → ShareTokenModel → ShareTokenModel
mark_revoked now s = record s { revoked_at = some now }

-- The common body of the two revocations, over the row that was loaded.
abbrev pub revoke_found : Option ShareTokenModel → (ShareTokenModel → Bool) → ℕ → Exec Db Bool
revoke_found none p now db = (ok false, db)
revoke_found (some s) p now db =
    if is_some s.revoked_at then (ok false, db) else (ok true, write_share p (mark_revoked now) db)

unfoldable pub revoke_by_token_hash : String → ℕ → Exec Db Bool
unfolding get_by_token_hash
revoke_by_token_hash h now db = revoke_found (get_by_token_hash h db) (has_hash h) now db

unfoldable pub revoke_by_id : ℕ → ℕ → Exec Db Bool
unfolding get_by_share_id
revoke_by_id i now db = revoke_found (get_by_share_id i db) (has_share_id i) now db

-- `expires_at > now`, which SQL does not hold for a missing time
abbrev pub expires_after : ℕ → Option ℕ → Bool
expires_after now none = false
expires_after now (some t) = ltb now t

-- The filters of `list_active`.
unfoldable pub is_listed : ℕ → ShareTokenModel → Bool
is_listed now s = not (is_some s.revoked_at) && (s.is_permanent || expires_after now s.expires_at)

abbrev pub is_for : Option ℕ → ShareTokenModel → Bool
is_for none s = true
is_for (some i) s = elim s.config_id [ none ↦ false | some j ↦ j == i ]

-- The shares of `list_active(config_id)`, in stored order: the joins with the user and the config
-- only add names for display, and the query orders by the time of creation.
unfoldable pub list_active_shares : Option ℕ → ℕ → Db → List ShareTokenModel
unfolding is_listed
list_active_shares config_id now db =
    filter (λ s. is_listed now s && is_for config_id s) db.share_tokens

abbrev pub count_access : ℕ → ShareTokenModel → ShareTokenModel
count_access now s = record s { last_accessed_at = some now; access_count = s.access_count + 1 }

unfoldable pub record_access : ℕ → ℕ → Db → Db
record_access id now db = write_share (has_share_id id) (count_access now) db
