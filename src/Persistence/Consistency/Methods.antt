-- ===== src/Persistence/Consistency/Methods.antt =====
-- Every method of the repositories keeps the tables consistent, whether it returns or raises.
use vpn_control_panel.Prelude.{
  ℕ, String, Bool, true, ◌≡◌, refl, Option, none, some, List, is_some, arith, Exec, Option-cases,
  Bool-cases, inl, inr, any-eq-is_some, ◌∙◌, find?_sound, ==_iff,
}
use vpn_control_panel.Json.{Json}
use vpn_control_panel.Domain.Enums.{is_active_status, ConfigProfile, VpnProtocolType}
use vpn_control_panel.Domain.Policy.{RegeneratePolicy}
use vpn_control_panel.Persistence.Models.{
  Db, VpnConfigModel, VpnConfigVersionModel, ShareTokenModel,
}
use vpn_control_panel.Persistence.Configs.{
  has_id, write_model, write_or_raise, set_last_task_id, mark_processing, mark_active, mark_failed,
  insert_version, update_version_config_data, prepare_regenerate, update_regenerate_policy,
  get_any_model, get_model, write_version, with_task, as_processing, as_active, as_failed,
  as_pending, touched, with_policy, with_data,
}
use vpn_control_panel.Persistence.Configs.Queries.{
  soft_delete, create_pending, pending_row, as_deleted,
}
use vpn_control_panel.Persistence.Shares.{
  NewShare, create, share_row, revoke_found, revoke_by_token_hash, revoke_by_id, record_access,
  mark_revoked, count_access, get_by_token_hash, get_by_share_id, has_hash, has_share_id,
}
use vpn_control_panel.Persistence.Consistency.{is_stored, is_backed, is_pinned, IsConsistent}
use vpn_control_panel.Persistence.Consistency.Writes.{
  write_model-IsConsistent, append_version-IsConsistent, write_version-IsConsistent,
  append_config-IsConsistent, append_share-IsConsistent, write_share-IsConsistent,
}

abbrev pub Keeps {ℓ} : {A : Type ℓ} → Exec Db A → Type 0
Keeps m = (db : Db) → IsConsistent db → IsConsistent (m db).1

-- A write of columns that the invariant does not read.
module _ (f : VpnConfigModel → VpnConfigModel) (same_id : (m : VpnConfigModel) → (f m).id ≡ m.id)
    (weaker : (rows : List VpnConfigVersionModel) (m : VpnConfigModel)
      → is_backed rows m ≡ true
      → is_backed rows (f m) ≡ true) where
  write_model-Keeps : (i : ℕ) (db : Db) → IsConsistent db → IsConsistent (write_model i f db)
  write_model-Keeps i db =
      write_model-IsConsistent i f db same_id (λ m _. weaker db.vpn_config_versions m)

  write_or_raise-Keeps : (o : Option VpnConfigModel) → Keeps (write_or_raise o f)
  unfolding write_or_raise
  write_or_raise-Keeps none db h = h
  write_or_raise-Keeps (some m) db h = write_model-Keeps m.id db h

-- A config that is not active needs less.
backed_weaken :
    (rows : List VpnConfigVersionModel) (m m' : VpnConfigModel)
    → m'.id ≡ m.id
    → m'.current_version ≡ m.current_version
    → (is_active_status m'.status ≡ true → is_active_status m.status ≡ true)
    → is_backed rows m ≡ true
    → is_backed rows m' ≡ true
backed_weaken rows m m' e v s h = elim (Option-cases m.current_version) [
  | inl n ↦ rw v (rw n (ground (arith, rw n at h, s)))
  | inr (k, n) ↦ rw v (rw n (rw e (rw n at h)))
]

module _ (i now : ℕ) where
  pub set_last_task_id-Keeps : (task : String) → Keeps (set_last_task_id i task now)
  unfolding set_last_task_id
  set_last_task_id-Keeps task db =
      write_or_raise-Keeps (with_task task now) (λ m. refl) (λ rows m h. h) (get_model i db) db

  pub mark_processing-Keeps : Keeps (mark_processing i now)
  unfolding mark_processing
  mark_processing-Keeps db =
      write_or_raise-Keeps (as_processing now) (λ m. refl)
        (λ rows m. backed_weaken rows m (as_processing now m) refl refl (λ e. cc))
        (get_any_model i db) db

  pub mark_failed-Keeps : (text : String) → Keeps (mark_failed i text now)
  unfolding mark_failed
  mark_failed-Keeps text db =
      write_or_raise-Keeps (as_failed text now) (λ m. refl)
        (λ rows m. backed_weaken rows m (as_failed text now m) refl refl (λ e. cc))
        (get_any_model i db) db

  -- The version has to be stored.
  mark_active_found :
      (version : ℕ) (db : Db)
      → is_stored i version db.vpn_config_versions ≡ true
      → (o : Option VpnConfigModel) → get_any_model i db ≡ o
      → IsConsistent db
      → IsConsistent (write_or_raise o (as_active version now) db).1
  unfolding write_or_raise get_any_model
  mark_active_found version db stored none e h = h
  mark_active_found version db stored (some m) e h =
      write_model-IsConsistent m.id (as_active version now) db (λ x. refl)
        (λ x same b.
          rw (same ∙ (==_iff m.id i).0 (find?_sound (has_id i) db.vpn_configs m e)) stored)
        h

  pub mark_active-IsConsistent :
      (version : ℕ) (db : Db)
      → is_stored i version db.vpn_config_versions ≡ true
      → IsConsistent db
      → IsConsistent (mark_active i version now db).1
  unfolding mark_active
  mark_active-IsConsistent version db stored h =
      mark_active_found version db stored (get_any_model i db) refl h

  pub update_regenerate_policy-Keeps :
      (policy : RegeneratePolicy) (updated_by : ℕ)
      → Keeps (update_regenerate_policy i policy updated_by now)
  unfolding update_regenerate_policy
  update_regenerate_policy-Keeps policy updated_by db =
      write_or_raise-Keeps (with_policy policy updated_by now) (λ m. refl) (λ rows m h. h)
        (get_model i db) db

  pub prepare_regenerate-Keeps : (updated_by : ℕ) → Keeps (prepare_regenerate i updated_by now)
  unfolding prepare_regenerate
  prepare_regenerate-Keeps updated_by db h =
      let written =
        write_model-Keeps (as_pending updated_by now) (λ m. refl)
          (λ rows m. backed_weaken rows m (as_pending updated_by now m) refl refl (λ e. cc)) i db
          h in
      ground (arith, written)

  pub soft_delete-Keeps : (updated_by : ℕ) → Keeps (soft_delete i updated_by now)
  unfolding soft_delete
  soft_delete-Keeps updated_by db h =
      let written =
        write_model-Keeps (as_deleted updated_by now) (λ m. refl) (λ rows m b. b) i db h in
      ground (arith, written)

  pub update_version_config_data-Keeps :
      (v : ℕ) (config_data : Json) (port updated_by : ℕ)
      → Keeps (update_version_config_data i v config_data port updated_by now)
  unfolding update_version_config_data
  update_version_config_data-Keeps v config_data port updated_by db h =
      let written =
        write_model-Keeps (touched updated_by now) (λ m. refl) (λ rows m b. b) i
          (write_version i v (with_data config_data port) db)
          (write_version-IsConsistent i v (with_data config_data port) db (λ r. (refl, refl)) h) in
      ground (arith, written)

pub insert_version-Keeps : (row : VpnConfigVersionModel) → Keeps (insert_version row)
unfolding insert_version
insert_version-Keeps row db h = elim (Bool-cases (is_some (get_any_model row.config_id db))) [
  | inl e ↦
      let added =
        append_version-IsConsistent row db
          (any-eq-is_some (has_id row.config_id) db.vpn_configs ∙ unfold get_any_model in e) h in
      ground (arith, added)
  | inr e ↦ ground arith
]

pub create_pending-Keeps :
    (id : ℕ) (name : String) (protocol : VpnProtocolType) (profile : ConfigProfile) (user : ℕ)
    (policy : Option RegeneratePolicy) (host : Option String) (now : ℕ)
    → Keeps (create_pending id name protocol profile user policy host now)
unfolding create_pending
create_pending-Keeps id name protocol profile user policy host now db h =
    let added =
      append_config-IsConsistent (pending_row id name protocol profile user policy host now) db refl
        h in
    ground (arith, added)

-- A new share that is pinned and has a term.
pub create-IsConsistent :
    (s : NewShare) (id now : ℕ) (db : Db)
    → is_pinned db.vpn_config_versions (share_row s id now) ≡ true
    → IsConsistent db
    → IsConsistent (create s id now db).1
unfolding create
create-IsConsistent s id now db p h =
    let added = append_share-IsConsistent (share_row s id now) db p h in ground (arith, added)

revoke_found-Keeps :
    (o : Option ShareTokenModel) (p : ShareTokenModel → Bool) (now : ℕ)
    → Keeps (revoke_found o p now)
revoke_found-Keeps none p now db h = h
revoke_found-Keeps (some s) p now db h =
    let written = write_share-IsConsistent p (mark_revoked now) db (λ x. refl) h in
    ground (arith, written)

pub revoke_by_token_hash-Keeps : (hash : String) (now : ℕ) → Keeps (revoke_by_token_hash hash now)
unfolding revoke_by_token_hash
revoke_by_token_hash-Keeps hash now db =
    revoke_found-Keeps (get_by_token_hash hash db) (has_hash hash) now db

pub revoke_by_id-Keeps : (i now : ℕ) → Keeps (revoke_by_id i now)
unfolding revoke_by_id
revoke_by_id-Keeps i now db = revoke_found-Keeps (get_by_share_id i db) (has_share_id i) now db

pub record_access-IsConsistent :
    (i now : ℕ) (db : Db) → IsConsistent db → IsConsistent (record_access i now db)
unfolding record_access
record_access-IsConsistent i now db h =
    write_share-IsConsistent (has_share_id i) (count_access now) db (λ x. refl) h
