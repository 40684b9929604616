-- ===== src/Application/ConfigData/ReadBack.antt =====
-- Reading the data of a config after an update of it.
use vpn_control_panel.Prelude.{
  ℕ, true, ◌≡◌, ap, Option, none, some, arith, ok, and_then, Option-cases, inl, inr, find?,
  find?-modify_self, find?_sound, ==_iff,
}
use vpn_control_panel.Json.{Json}
use vpn_control_panel.Json.FieldCrypto.{
  FieldEncryptor, sensitive_fields, encrypt_config_data_fields,
}
use vpn_control_panel.Json.FieldCrypto.Inverse.{IsFaithful, decrypt-encrypt_config_data_fields}
use vpn_control_panel.Persistence.Models.{Db, VpnConfigModel}
use vpn_control_panel.Persistence.Configs.{
  has_id, is_version, get_any_model, get_model, find_version, write_model, write_version, touched,
  with_data, update_version_config_data,
}
use vpn_control_panel.Persistence.Configs.Queries.{
  ConfigVersionSnapshot, get_by_id, get_version_snapshot,
}
use vpn_control_panel.Application.ConfigData.{current_of, get_config_data}

module _ (i v user now port : ℕ) (stored : Json) (db : Db) where
  abbrev pub updated : Db
  updated = write_model i (touched user now) (write_version i v (with_data stored port) db)

  pub update-updated :
      (update_version_config_data i v stored port user now db).0 ≡ ok tt
      → (update_version_config_data i v stored port user now db).1 ≡ updated
  unfolding update_version_config_data
  update-updated h = ground (arith, h)

  module _ (m : VpnConfigModel) (found : get_by_id i db ≡ some m) where
    loaded : (get_any_model i db ≡ some m) × (m.is_active ≡ true)
    unfolding get_by_id get_model
    loaded = elim (Option-cases (get_any_model i db)) [
      | inl n ↦ ground (arith, n, found)
      | inr (x, n) ↦ ground (arith, n, found)
    ]

    any_model-updated : get_any_model i updated ≡ some (touched user now m)
    unfolding get_any_model write_model
    any_model-updated =
        find?-modify_self (has_id i) (touched user now) db.vpn_configs (λ x p. p) m (loaded.0)

    pub get_by_id-updated : get_by_id i updated ≡ some (touched user now m)
    unfolding get_by_id get_model
    get_by_id-updated = ground (arith, any_model-updated, loaded)

    snapshot-updated :
        (s : ConfigVersionSnapshot)
        → get_version_snapshot i v db ≡ some s
        → get_version_snapshot i v updated ≡ some (record s { config_data = stored; port = port })
    unfolding get_version_snapshot find_version write_model
    snapshot-updated s h = elim (Option-cases (find? (is_version i v) db.vpn_config_versions)) [
      | inl n ↦ ground (arith, loaded, n, h)
      | inr (r, n) ↦
          let row =
            find?-modify_self (is_version i v) (with_data stored port) db.vpn_config_versions
              (λ x p. p) r n in
          ground (arith, loaded, any_model-updated, n, row, h)
    ]

-- What the handler reads first.
pub read-updated :
    (e : FieldEncryptor) (ok_e : IsFaithful e) (i v user now port : ℕ) (d : Json) (db : Db)
    (m : VpnConfigModel) (s : ConfigVersionSnapshot)
    → get_by_id i db ≡ some m
    → m.current_version ≡ some v
    → get_version_snapshot i v db ≡ some s
    → get_config_data e i
        (updated i v user now port (encrypt_config_data_fields d (sensitive_fields s.profile) e) db)
      ≡ ok (s.version, d)
unfolding get_config_data
read-updated e ok_e i v user now port d db m s found current shown =
    let sealed = encrypt_config_data_fields d (sensitive_fields s.profile) e in
    let row = get_by_id-updated i v user now port sealed db m found in
    let after = snapshot-updated i v user now port sealed db m found s shown in
    rw row (
      rw current (
        rw after (
          ap (λ r. and_then r λ x. ok (s.version, x))
            (decrypt-encrypt_config_data_fields e ok_e s.profile d))))

-- The snapshot of a config has the profile of its row.
pub snapshot-profile :
    (i v : ℕ) (db : Db) (m : VpnConfigModel) (s : ConfigVersionSnapshot)
    → get_by_id i db ≡ some m
    → get_version_snapshot i v db ≡ some s
    → s.profile ≡ m.profile
unfolding get_version_snapshot find_version get_by_id get_model
snapshot-profile i v db m s found h =
    elim (Option-cases (find? (is_version i v) db.vpn_config_versions)) [
      | inl n ↦ elim (Option-cases (get_any_model i db)) [
        | inl k ↦ ground (arith, k, n, h)
        | inr (x, k) ↦ ground (arith, k, n, h)
      ]
      | inr (r, n) ↦ elim (Option-cases (get_any_model i db)) [
        | inl k ↦ ground (arith, k, n, h, found)
        | inr (x, k) ↦ ground (arith, k, n, h, found)
      ]
    ]

-- The current version and its snapshot carry the same number.
pub snapshot-version :
    (i v : ℕ) (db : Db) (s : ConfigVersionSnapshot)
    → get_version_snapshot i v db ≡ some s
    → s.version ≡ v
unfolding get_version_snapshot find_version
snapshot-version i v db s h = elim (Option-cases (find? (is_version i v) db.vpn_config_versions)) [
  | inl n ↦ elim (Option-cases (get_any_model i db)) [
    | inl k ↦ ground (arith, k, n, h)
    | inr (m, k) ↦ ground (arith, k, n, h)
  ]
  | inr (r, n) ↦
      let passes = find?_sound (is_version i v) db.vpn_config_versions r n in
      elim (Option-cases (get_any_model i db)) [
        | inl k ↦ ground (arith, k, n, h)
        | inr (m, k) ↦ ground (arith, k, n, h, passes, ==_iff r.version v)
      ]
]

pub current_of-ok :
    (o : Option VpnConfigModel) (c : VpnConfigModel × ℕ)
    → current_of o ≡ ok c
    → (o ≡ some c.0) × (c.0.current_version ≡ some c.1)
current_of-ok none c h = ground (arith, h)
current_of-ok (some m) (x, v) h = elim (Option-cases m.current_version) [
  | inl n ↦ ground (arith, n, rw n at h)
  | inr (k, n) ↦ ground (arith, n, rw n at h)
]
