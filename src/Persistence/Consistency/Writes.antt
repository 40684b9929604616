-- ===== src/Persistence/Consistency/Writes.antt =====
-- Every way in which the repositories write to the tables keeps them consistent.
use vpn_control_panel.Prelude.{
  ℕ, Bool, true, ◌≡◌, refl, Option, none, some, List, [], ◌∷◌, ◌++◌, any, All, arith, modify,
  any-append, Bool-cases, inl, inr, ◌∙◌,
}
use vpn_control_panel.Domain.Enums.{is_active_status}
use vpn_control_panel.Persistence.Models.{
  Db, VpnConfigModel, VpnConfigVersionModel, ShareTokenModel,
}
use vpn_control_panel.Persistence.Configs.{is_version, has_id, write_model, write_version}
use vpn_control_panel.Persistence.Shares.{write_share}
use vpn_control_panel.Persistence.Consistency.{
  is_stored, backed, is_backed, pins, is_pinned, has_owner, IsConsistent,
}

module _ {A : Type 0} where
  All-map : (P Q : A → Type 0) (xs : List A) → ((x : A) → P x → Q x) → All P xs → All Q xs
  All-map P Q [] f h = tt
  All-map P Q (x ∷ xs) f h = (f x h.0, All-map P Q xs f h.1)

  All-append : (P : A → Type 0) (xs : List A) (y : A) → All P xs → P y → All P (xs ++ y ∷ [])
  All-append P [] y h p = (p, tt)
  All-append P (x ∷ xs) y h p = (h.0, All-append P xs y h.1 p)

  All-modify :
      (P : A → Type 0) (p : A → Bool) (f : A → A) (xs : List A)
      → ((x : A) → p x ≡ true → P x → P (f x))
      → All P xs
      → All P (modify p f xs)
  All-modify P p f [] keep h = tt
  All-modify P p f (x ∷ xs) keep h = elim (Bool-cases (p x)) [
    | inl e ↦ rw e (keep x e h.0, h.1)
    | inr e ↦ rw e (h.0, All-modify P p f xs keep h.1)
  ]

  any-modify :
      (p q : A → Bool) (f : A → A) (xs : List A)
      → ((x : A) → q (f x) ≡ q x)
      → any q (modify p f xs) ≡ any q xs
  any-modify p q f [] same = refl
  any-modify p q f (x ∷ xs) same = ground (arith, same x, any-modify p q f xs same)

-- A write to a config row, where the new row is backed.
pub write_model-IsConsistent :
    (i : ℕ) (f : VpnConfigModel → VpnConfigModel) (db : Db)
    → ((m : VpnConfigModel) → (f m).id ≡ m.id)
    → ((m : VpnConfigModel)
        → m.id ≡ i
        → is_backed db.vpn_config_versions m ≡ true
        → is_backed db.vpn_config_versions (f m) ≡ true)
    → IsConsistent db
    → IsConsistent (write_model i f db)
unfolding write_model
write_model-IsConsistent i f db same keep h = record {
  configs =
      All-modify (λ m. is_backed db.vpn_config_versions m ≡ true) (has_id i) f db.vpn_configs
        (λ m e b. keep m (ground arith) b) h.configs;
  versions =
      All-map (λ r. has_owner db.vpn_configs r ≡ true)
        (λ r. has_owner (modify (has_id i) f db.vpn_configs) r ≡ true) db.vpn_config_versions
        (λ r o.
          rw
            (any-modify (has_id i) (has_id r.config_id) f db.vpn_configs
              (λ m. ground (arith, same m)))
            o)
        h.versions;
  shares = h.shares;
}

-- What is backed stays backed when versions are added.
backed-grow :
    (rows rows' : List VpnConfigVersionModel) (i : ℕ) (v : Option ℕ) (ready : Bool)
    → ((j w : ℕ) → is_stored j w rows ≡ true → is_stored j w rows' ≡ true)
    → backed rows i v ready ≡ true
    → backed rows' i v ready ≡ true
backed-grow rows rows' i none ready grow h = h
backed-grow rows rows' i (some v) ready grow h = grow i v h

pins-grow :
    (rows rows' : List VpnConfigVersionModel) (i v : Option ℕ)
    → ((j w : ℕ) → is_stored j w rows ≡ true → is_stored j w rows' ≡ true)
    → pins rows i v ≡ true
    → pins rows' i v ≡ true
pins-grow rows rows' none none grow h = h
pins-grow rows rows' (some i) (some v) grow h = grow i v h
pins-grow rows rows' none (some v) grow h = h
pins-grow rows rows' (some i) none grow h = h

module _ (rows : List VpnConfigVersionModel) (db : Db)
    (grow : (j w : ℕ) → is_stored j w db.vpn_config_versions ≡ true → is_stored j w rows ≡ true)
    (owned : All (λ r. has_owner db.vpn_configs r ≡ true) rows) where
  grow-IsConsistent : IsConsistent db → IsConsistent (record db { vpn_config_versions = rows })
  grow-IsConsistent h = record {
    configs =
        All-map (λ m. is_backed db.vpn_config_versions m ≡ true) (λ m. is_backed rows m ≡ true)
          db.vpn_configs
          (λ m.
            backed-grow db.vpn_config_versions rows m.id m.current_version
              (is_active_status m.status) grow)
          h.configs;
    versions = owned;
    shares =
        All-map (λ s. is_pinned db.vpn_config_versions s ≡ true) (λ s. is_pinned rows s ≡ true)
          db.share_tokens
          (λ s p.
            ground (arith, pins-grow db.vpn_config_versions rows s.config_id s.config_version grow))
          h.shares;
  }

pub append_version-IsConsistent :
    (r : VpnConfigVersionModel) (db : Db)
    → has_owner db.vpn_configs r ≡ true
    → IsConsistent db
    → IsConsistent (record db { vpn_config_versions = db.vpn_config_versions ++ r ∷ [] })
append_version-IsConsistent r db o h =
    grow-IsConsistent (db.vpn_config_versions ++ r ∷ []) db
      (λ j w. any-append (is_version j w) db.vpn_config_versions r)
      (All-append (λ x. has_owner db.vpn_configs x ≡ true) db.vpn_config_versions r h.versions o) h

-- A write to the data of a version row.
pub write_version-IsConsistent :
    (i v : ℕ) (f : VpnConfigVersionModel → VpnConfigVersionModel) (db : Db)
    → ((r : VpnConfigVersionModel) → ((f r).config_id ≡ r.config_id) × ((f r).version ≡ r.version))
    → IsConsistent db
    → IsConsistent (write_version i v f db)
write_version-IsConsistent i v f db same h =
    grow-IsConsistent (modify (is_version i v) f db.vpn_config_versions) db
      (λ j w s.
        rw
          (any-modify (is_version i v) (is_version j w) f db.vpn_config_versions
            (λ r. ground (arith, same r)))
          s)
      (All-modify (λ x. has_owner db.vpn_configs x ≡ true) (is_version i v) f db.vpn_config_versions
        (λ r e o. rw ((same r).0) o) h.versions)
      h

pub append_config-IsConsistent :
    (m : VpnConfigModel) (db : Db)
    → is_backed db.vpn_config_versions m ≡ true
    → IsConsistent db
    → IsConsistent (record db { vpn_configs = db.vpn_configs ++ m ∷ [] })
append_config-IsConsistent m db b h = record {
  configs =
      All-append (λ x. is_backed db.vpn_config_versions x ≡ true) db.vpn_configs m h.configs b;
  versions =
      All-map (λ r. has_owner db.vpn_configs r ≡ true)
        (λ r. has_owner (db.vpn_configs ++ m ∷ []) r ≡ true) db.vpn_config_versions
        (λ r. any-append (has_id r.config_id) db.vpn_configs m) h.versions;
  shares = h.shares;
}

pub append_share-IsConsistent :
    (s : ShareTokenModel) (db : Db)
    → is_pinned db.vpn_config_versions s ≡ true
    → IsConsistent db
    → IsConsistent (record db { share_tokens = db.share_tokens ++ s ∷ [] })
append_share-IsConsistent s db p h = record {
  configs = h.configs;
  versions = h.versions;
  shares = All-append (λ x. is_pinned db.vpn_config_versions x ≡ true) db.share_tokens s h.shares p;
}

pub write_share-IsConsistent :
    (p : ShareTokenModel → Bool) (f : ShareTokenModel → ShareTokenModel) (db : Db)
    → ((s : ShareTokenModel)
        → is_pinned db.vpn_config_versions (f s) ≡ is_pinned db.vpn_config_versions s)
    → IsConsistent db
    → IsConsistent (write_share p f db)
write_share-IsConsistent p f db same h = record {
  configs = h.configs;
  versions = h.versions;
  shares =
      All-modify (λ x. is_pinned db.vpn_config_versions x ≡ true) p f db.share_tokens
        (λ s e b. same s ∙ b) h.shares;
}
