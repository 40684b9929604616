-- ===== src/Application/Deletion.antt =====
-- What the soft deletion of a config hides, and what it leaves.
use vpn_control_panel.Prelude.{
  ℕ, true, ◌≡◌, refl, sym, ◌∙◌, none, some, arith, ok, err, Option-cases, inl, inr,
  find?-modify_self, config_not_found,
}
use vpn_control_panel.Json.FieldCrypto.{FieldEncryptor}
use vpn_control_panel.Persistence.Models.{Db, VpnConfigModel}
use vpn_control_panel.Persistence.Configs.{
  has_id, get_any_model, get_model, find_version, write_model,
}
use vpn_control_panel.Persistence.Configs.Queries.{
  as_deleted, soft_delete, get_by_id, get_version_snapshot,
}
use vpn_control_panel.Application.ConfigData.{get_config_data}
use vpn_control_panel.Worker.Snapshots.{snapshot_lem, snapshot-modify}

module _ (id user now : ℕ) (db : Db) where
  deleted-row :
      (soft_delete id user now db).0 ≡ ok true
      → (soft_delete id user now db).1 ≡ write_model id (as_deleted user now) db
  unfolding soft_delete
  deleted-row h = elim (Option-cases (get_model id db)) [
    | inl n ↦ ground (arith, n, h)
    | inr (m, n) ↦ ground (arith, n, h)
  ]

  hidden :
      (m : VpnConfigModel)
      → get_any_model id db ≡ some m
      → get_by_id id (write_model id (as_deleted user now) db) ≡ none
  unfolding get_by_id get_model get_any_model write_model
  hidden m n =
      let found =
        find?-modify_self (has_id id) (as_deleted user now) db.vpn_configs (λ x p. p) m n in
      ground (arith, found)

  stored-row :
      (soft_delete id user now db).0 ≡ ok true
      → (m : VpnConfigModel) × (get_any_model id db ≡ some m)
  unfolding soft_delete get_model
  stored-row h = elim (Option-cases (get_any_model id db)) [
    | inl n ↦ ground (arith, n, h)
    | inr (m, n) ↦ (m, n)
  ]

  kept :
      (i v : ℕ)
      → get_version_snapshot i v (write_model id (as_deleted user now) db)
        ≡ get_version_snapshot i v db
  unfolding write_model get_any_model find_version
  kept i v =
      snapshot_lem i v (write_model id (as_deleted user now) db)
      ∙ snapshot-modify i v id (as_deleted user now) (λ m. refl) (λ m r. refl) db.vpn_configs
          (find_version i v db)
      ∙ sym (snapshot_lem i v db)

  -- When a config was deleted, its lookup and a read of its data do not find it, while the snapshot of
  -- every version of every config, which pinned shares show, is what it was.
  pub soft_delete-get_by_id :
      (e : FieldEncryptor) (i v : ℕ)
      → (soft_delete id user now db).0 ≡ ok true
      → (get_by_id id (soft_delete id user now db).1 ≡ none)
        × (get_config_data e id (soft_delete id user now db).1 ≡ err config_not_found)
        × (get_version_snapshot i v (soft_delete id user now db).1 ≡ get_version_snapshot i v db)
  unfolding get_config_data
  soft_delete-get_by_id e i v h =
      let (m, n) = stored-row h in rw (deleted-row h) (hidden m n, rw (hidden m n) refl, kept i v)
