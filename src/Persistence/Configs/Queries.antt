-- ===== src/Persistence/Configs/Queries.antt =====
-- The methods of `VpnConfigRepository` that insert, list and read configs. `ORDER BY created_at`
-- is an insertion sort that keeps rows of one time in their stored order (SQL leaves it open).
use vpn_control_panel.Prelude.{
  ℕ, String, Bool, true, false, Option, none, some, List, [], ◌∷◌, ◌++◌, ◌&&◌, ◌=ˢ◌, leb,
  if◌then◌else◌, filter, take, drop, length, is_some, get_or, integrity_error, ok, err, Exec, strip,
}
use vpn_control_panel.Json.{Json}
use vpn_control_panel.Domain.Enums.{
  ConfigProfile, VpnProtocolType, pending, is_active_status, protocol_value,
}
use vpn_control_panel.Domain.Policy.{RegeneratePolicy, Flags, to_stored}
use vpn_control_panel.Persistence.Models.{Db, VpnConfigModel, VpnConfigVersionModel}
use vpn_control_panel.Persistence.Configs.{
  get_any_model, get_model, find_version, write_model, or_none,
}

-- `ORDER BY created_at`, ascending by `leb` and descending by its flip.
unfoldable pub insert_by :
    (ℕ → ℕ → Bool) → VpnConfigModel → List VpnConfigModel → List VpnConfigModel
insert_by before x [] = x ∷ []
insert_by before x (y ∷ ys) =
    if before x.created_at y.created_at then x ∷ y ∷ ys else y ∷ insert_by before x ys

unfoldable pub order_by : (ℕ → ℕ → Bool) → List VpnConfigModel → List VpnConfigModel
unfolding insert_by
order_by before [] = []
order_by before (x ∷ xs) = insert_by before x (order_by before xs)

abbrev pub same_protocol : VpnProtocolType → VpnProtocolType → Bool
same_protocol p q = protocol_value p =ˢ protocol_value q

abbrev pub matches_filters : Option VpnProtocolType → VpnConfigModel → Bool
matches_filters none m = m.is_active
matches_filters (some p) m = m.is_active && same_protocol m.protocol p

pub record ConfigListResult : Type 0 where
  pub items : List VpnConfigModel
  pub total : ℕ

unfoldable pub list_active : Option VpnProtocolType → ℕ → ℕ → Db → ConfigListResult
unfolding order_by
list_active protocol limit offset db =
    let rows = filter (matches_filters protocol) db.vpn_configs in
    record {
      items = take limit (drop offset (order_by (λ a b. leb b a) rows));
      total = length rows;
    }

-- `get_by_id(config_id)`; the row stands for the entity, whose version detail is `find_version`.
unfoldable pub get_by_id : ℕ → Db → Option VpnConfigModel
unfolding get_model
get_by_id i db = get_model i db

abbrev pub as_deleted : ℕ → ℕ → VpnConfigModel → VpnConfigModel
as_deleted updated_by now m = record m {
  is_active = false;
  updated_by = updated_by;
  updated_at = now;
}

unfoldable pub soft_delete : ℕ → ℕ → ℕ → Exec Db Bool
unfolding get_model write_model
soft_delete i updated_by now db = elim (get_model i db) [
  | none ↦ (ok false, db)
  | some m ↦ (ok true, write_model i (as_deleted updated_by now) db)
]

-- `(host or "").strip() or None`
unfoldable pub stored_host : Option String → Option String
stored_host host = or_none (some (strip (get_or host "")))

abbrev pub stored_policy : Option RegeneratePolicy → Option Flags
stored_policy none = none
stored_policy (some p) = some (to_stored p)

-- The row that `create_pending` adds: `id` is what `uuid4` gives, `now` the server's time.
unfoldable pub pending_row :
    ℕ
    → String
    → VpnProtocolType
    → ConfigProfile
    → ℕ
    → Option RegeneratePolicy
    → Option String
    → ℕ
    → VpnConfigModel
unfolding stored_host to_stored
pending_row id name protocol profile created_by policy host now = record {
  id = id;
  name = name;
  protocol = protocol;
  profile = profile;
  status = pending;
  current_version = none;
  last_task_id = none;
  error_message = none;
  regenerate_policy = stored_policy policy;
  share_public_host = stored_host host;
  is_active = true;
  created_by = created_by;
  updated_by = created_by;
  created_at = now;
  updated_at = now;
}

-- The flush of a new row, which the primary key refuses if the id is taken.
unfoldable pub add_config : VpnConfigModel → Exec Db (Unit {0})
unfolding get_any_model
add_config row db =
    if is_some (get_any_model row.id db)
    then (err integrity_error, db)
    else (ok tt, record db { vpn_configs = db.vpn_configs ++ row ∷ [] })

unfoldable pub create_pending :
    ℕ
    → String
    → VpnProtocolType
    → ConfigProfile
    → ℕ
    → Option RegeneratePolicy
    → Option String
    → ℕ
    → Exec Db (Unit {0})
unfolding pending_row add_config
create_pending id name protocol profile created_by policy host now =
    add_config (pending_row id name protocol profile created_by policy host now)

pub record ConfigVersionSnapshot : Type 0 where
  pub config_id : ℕ
  pub protocol : VpnProtocolType
  pub profile : ConfigProfile
  pub name : String
  pub version : ℕ
  pub port : ℕ
  pub public_key : String
  pub cert_fingerprint : String
  pub config_data : Json
  pub share_public_host : Option String

abbrev pub snapshot_of : ℕ → VpnConfigModel → VpnConfigVersionModel → ConfigVersionSnapshot
snapshot_of i m r = record {
  config_id = i;
  protocol = m.protocol;
  profile = m.profile;
  name = m.name;
  version = r.version;
  port = r.port;
  public_key = r.public_key;
  cert_fingerprint = r.cert_fingerprint;
  config_data = r.config_data;
  share_public_host = or_none m.share_public_host;
}

unfoldable pub get_version_snapshot : ℕ → ℕ → Db → Option ConfigVersionSnapshot
unfolding get_any_model find_version
get_version_snapshot i v db = elim (get_any_model i db) [
  | none ↦ none
  | some m ↦ elim (find_version i v db) [ none ↦ none | some r ↦ some (snapshot_of i m r) ]
]

abbrev pub is_current : VpnConfigModel → Bool
is_current m = m.is_active && is_active_status m.status && is_some m.current_version

abbrev pub cons_some {ℓ} : {A : Type ℓ} → Option A → List A → List A
cons_some none xs = xs
cons_some (some x) xs = x ∷ xs

abbrev current_snapshot : Db → VpnConfigModel → Option ConfigVersionSnapshot
current_snapshot db m = elim m.current_version [
  | none ↦ none
  | some v ↦ get_version_snapshot m.id v db
]

unfoldable pub collect_snapshots : Db → List VpnConfigModel → List ConfigVersionSnapshot
unfolding get_version_snapshot
collect_snapshots db [] = []
collect_snapshots db (m ∷ ms) = cons_some (current_snapshot db m) (collect_snapshots db ms)

unfoldable pub list_current_version_snapshots : Db → List ConfigVersionSnapshot
unfolding collect_snapshots order_by
list_current_version_snapshots db =
    collect_snapshots db (order_by leb (filter is_current db.vpn_configs))
