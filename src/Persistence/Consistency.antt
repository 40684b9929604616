-- ===== src/Persistence/Consistency.antt =====
-- The well-formedness of the tables that the repositories and use cases rely on: what no constraint
-- of the database states, and every committed transaction keeps.
pub mod Writes
pub mod Methods
use vpn_control_panel.Prelude.{
  ℕ, Bool, true, false, ◌≡◌, Option, none, some, List, ◌&&◌, ◌||◌, not, any, All, is_some,
}
use vpn_control_panel.Domain.Enums.{is_active_status}
use vpn_control_panel.Persistence.Models.{
  Db, VpnConfigModel, VpnConfigVersionModel, ShareTokenModel,
}
use vpn_control_panel.Persistence.Configs.{is_version, has_id}

abbrev pub is_stored : ℕ → ℕ → List VpnConfigVersionModel → Bool
is_stored i v rows = any (is_version i v) rows

-- The current version is stored; a config without one is not active.
abbrev pub backed : List VpnConfigVersionModel → ℕ → Option ℕ → Bool → Bool
backed rows i none ready = not ready
backed rows i (some v) ready = is_stored i v rows

abbrev pub is_backed : List VpnConfigVersionModel → VpnConfigModel → Bool
is_backed rows m = backed rows m.id m.current_version (is_active_status m.status)

-- A share of one config is pinned to a stored version; a share of all is pinned to none.
abbrev pub pins : List VpnConfigVersionModel → Option ℕ → Option ℕ → Bool
pins rows none none = true
pins rows (some i) (some v) = is_stored i v rows
pins rows none (some v) = false
pins rows (some i) none = false

-- A share is permanent and has no time of expiry, or is not and has one.
abbrev pub has_term : Bool → Option ℕ → Bool
has_term permanent none = permanent
has_term permanent (some t) = not permanent

abbrev pub is_pinned : List VpnConfigVersionModel → ShareTokenModel → Bool
is_pinned rows s = pins rows s.config_id s.config_version && has_term s.is_permanent s.expires_at

abbrev pub has_owner : List VpnConfigModel → VpnConfigVersionModel → Bool
has_owner configs r = any (has_id r.config_id) configs

pub record IsConsistent (db : Db) : Type 0 where
  pub configs : All (λ m. is_backed db.vpn_config_versions m ≡ true) db.vpn_configs
  pub versions : All (λ r. has_owner db.vpn_configs r ≡ true) db.vpn_config_versions
  pub shares : All (λ s. is_pinned db.vpn_config_versions s ≡ true) db.share_tokens
