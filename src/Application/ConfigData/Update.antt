-- ===== src/Application/ConfigData/Update.antt =====
-- An update of a config's data is what the next read gives.
use vpn_control_panel.Prelude.{
  ℕ, String, Bool, true, false, ◌≡◌, refl, sym, ap, ◌∙◌, Option, none, some, arith, Error, Result,
  ok, err, or_raise, get_or, Exec, continue, continue-holds, raise_if, Bool-cases, inl, inr,
  config_data_unavailable,
}
use vpn_control_panel.Json.{Json}
use vpn_control_panel.Json.FieldCrypto.{
  FieldEncryptor, sensitive_fields, encrypt_config_data_fields,
}
use vpn_control_panel.Json.FieldCrypto.Inverse.{IsFaithful}
use vpn_control_panel.Domain.Enums.{ConfigProfile}
use vpn_control_panel.Domain.Settings.{PanelSettings}
use vpn_control_panel.Persistence.Models.{Db, VpnConfigModel}
use vpn_control_panel.Persistence.Configs.{update_version_config_data, touched}
use vpn_control_panel.Persistence.Configs.Queries.{
  ConfigVersionSnapshot, get_by_id, get_version_snapshot,
}
use vpn_control_panel.Worker.Build.{BuilderOps}
use vpn_control_panel.Application.Audit.{audit_log}
use vpn_control_panel.Application.Session.{
  World, Committed, open_session, committed_on_ok, committing_request,
}
use vpn_control_panel.Application.ConfigData.{
  Parsers, DataRequest, current_of, get_config_data, update_config_data, parsed_data,
  format_for_profile, ConfigFormat,
}
use vpn_control_panel.Application.ConfigData.ReadBack.{
  update-updated, read-updated, snapshot-version, snapshot-profile, get_by_id-updated,
  current_of-ok,
}

-- The format in which the configs of a profile are written.
unfoldable pub own_format : ConfigProfile → ConfigFormat
own_format ConfigProfile.xray_reality = ConfigFormat.json
own_format ConfigProfile.xray_grpc = ConfigFormat.json
own_format ConfigProfile.xray_xhttp = ConfigFormat.json
own_format ConfigProfile.hysteria2 = ConfigFormat.yaml

format_for_profile-own_format : (p : ConfigProfile) → format_for_profile p ≡ own_format p
unfolding format_for_profile own_format
format_for_profile-own_format ConfigProfile.xray_reality = refl
format_for_profile-own_format ConfigProfile.xray_grpc = refl
format_for_profile-own_format ConfigProfile.xray_xhttp = refl
format_for_profile-own_format ConfigProfile.hysteria2 = refl

audited_row :
    (settings : PanelSettings) (event : String) (payload : Json) (user : Option ℕ) (i : ℕ) (db : Db)
    → get_by_id i (audit_log settings event payload user db) ≡ get_by_id i db
unfolding audit_log get_by_id
audited_row settings event payload user i db = elim (Bool-cases settings.audit.enabled) [
  | inl t ↦ rw t refl
  | inr t ↦ rw t refl
]

module _ (ps : Parsers) (e : FieldEncryptor) (id : ℕ) (r : DataRequest) where
  -- A read of the config gives the version and the document of the request, which is read in the
  -- format that the request names or in that of the config's profile.
  unfoldable pub IsReadBack : ℕ → Db → Type 0
  IsReadBack version db =
      (m : VpnConfigModel) × (d : Json) × (get_by_id id db ≡ some m)
      × (parsed_data ps r (get_or r.format (own_format m.profile)) ≡ ok d)
      × (get_config_data e id db ≡ ok (version, d))

  ReadsBack : Result (ℕ × Json) × World → Type 0
  ReadsBack out = (a : ℕ × Json) → out.0 ≡ ok a → IsReadBack a.0 out.1.session

  bind-ReadsBack :
      {A : Type 0} (x : Result A) (w : World) (f : A → Exec World (ℕ × Json))
      → ((a : A) → x ≡ ok a → ReadsBack (f a w))
      → ReadsBack (continue x w f)
  unfolding ReadsBack
  bind-ReadsBack x w f goes = continue-holds ReadsBack x w f (λ y a h. ground (arith, h)) goes

  raise-ReadsBack :
      (b : Bool) (y : Error) (w : World) (f : Unit {0} → Exec World (ℕ × Json))
      → ReadsBack (f tt w)
      → ReadsBack (continue (raise_if b y w).0 (raise_if b y w).1 f)
  unfolding ReadsBack
  raise-ReadsBack true y w f goes a h = ground (arith, h)
  raise-ReadsBack false y w f goes a h = goes a h

  audited :
      (settings : PanelSettings) (event : String) (payload : Json) (user : ℕ) (db : Db)
      → get_config_data e id (audit_log settings event payload (some user) db)
        ≡ get_config_data e id db
  unfolding audit_log get_config_data
  audited settings event payload user db = elim (Bool-cases settings.audit.enabled) [
    | inl t ↦ rw t refl
    | inr t ↦ rw t refl
  ]

  or_raise-ok : {A : Type 0} (o : Option A) (y : Error) (a : A) → or_raise o y ≡ ok a → o ≡ some a
  or_raise-ok none y a h = ground (arith, h)
  or_raise-ok (some x) y a h = ground (arith, h)

  module _ (ok_e : IsFaithful e) (settings : PanelSettings) (user now : ℕ) where
    written :
        (w : World) (c : VpnConfigModel × ℕ) (s : ConfigVersionSnapshot) (d j : Json) (port : ℕ)
        (event : String) (payload : Json)
        → current_of (get_by_id id w.session) ≡ ok c
        → or_raise (get_version_snapshot id c.1 w.session) config_data_unavailable ≡ ok s
        → parsed_data ps r (get_or r.format (format_for_profile s.profile)) ≡ ok d
        → (update_version_config_data id s.version
            (encrypt_config_data_fields d (sensitive_fields s.profile) e)
            port
            user
            now
            w.session).0
          ≡ ok tt
        → ReadsBack (
          ok (s.version, j),
          record w {
            session =
                audit_log settings event payload
                  (some user)
                  (update_version_config_data id s.version
                    (encrypt_config_data_fields d (sensitive_fields s.profile) e)
                    port
                    user
                    now
                    w.session).1;
          },
        )
    unfolding ReadsBack IsReadBack
    written w c s d j port event payload at_c at_s at_d done a h =
        let (found, current) = current_of-ok (get_by_id id w.session) c at_c in
        let shown =
          or_raise-ok (get_version_snapshot id c.1 w.session) config_data_unavailable s at_s in
        let same = snapshot-version id c.1 w.session s shown in
        let sealed = encrypt_config_data_fields d (sensitive_fields s.profile) e in
        let after = (update_version_config_data id s.version sealed port user now w.session).1 in
        let read =
          read-updated e ok_e id s.version user now port d w.session c.0 s found
            (current ∙ ap some (sym same))
            (ap (λ x. get_version_snapshot id x w.session) same ∙ shown) in
        let version_is : s.version ≡ a.0 = ground (arith, h) in
        let profile = snapshot-profile id c.1 w.session c.0 s found shown in
        let format = format_for_profile-own_format s.profile ∙ ap own_format profile in
        (
          touched user now c.0,
          d,
          audited_row settings event payload (some user) id after
              ∙ ap (get_by_id id) (update-updated id s.version user now port sealed w.session done)
              ∙ get_by_id-updated id s.version user now port sealed w.session c.0 found,
          ap (λ f. parsed_data ps r (get_or r.format f)) (sym format) ∙ at_d,
          audited settings event payload user after
              ∙ ap (get_config_data e id)
                  (update-updated id s.version user now port sealed w.session done)
              ∙ read
              ∙ ap (λ x. ok (x, d)) version_is,
        )

    update_config_data-ReadsBack :
        (builder : BuilderOps) (w : World)
        → ReadsBack (update_config_data builder ps e settings id user r now w)
    unfolding update_config_data
    update_config_data-ReadsBack builder w =
        search (bind-ReadsBack, raise-ReadsBack, written) depth 20

committed-IsReadBack :
    (ps : Parsers) (e : FieldEncryptor) (id : ℕ) (r : DataRequest) (out : Result (ℕ × Json) × World)
    (a : ℕ × Json)
    → ReadsBack ps e id r out
    → out.0 ≡ ok a
    → IsReadBack ps e id r a.0 (committed_on_ok out).1.committed
unfolding ReadsBack
committed-IsReadBack ps e id r (ok x, w) a reads h = reads a h
committed-IsReadBack ps e id r (err y, w) a reads h = ground (arith, h)

-- When an update of a config's data succeeds, a read of the committed tables gives the version that
-- the update answered and exactly the document of the request, read in the format that it names or in
-- that of the config's profile, its sensitive fields decrypted. A document is a tree: aliases of YAML
-- and keys that are no text are outside of it. The encryptor is assumed to decrypt what it encrypts
-- and to give no empty token.
pub update_config_data-get_config_data :
    (builder : BuilderOps) (ps : Parsers) (e : FieldEncryptor) (settings : PanelSettings)
    (id user : ℕ) (r : DataRequest) (now : ℕ) (c : Committed) (a : ℕ × Json)
    → IsFaithful e
    → (update_config_data builder ps e settings id user r now (open_session c)).0 ≡ ok a
    → IsReadBack ps e id r a.0
        (committing_request (update_config_data builder ps e settings id user r now) c).1.db
update_config_data-get_config_data builder ps e settings id user r now c a ok_e h =
    committed-IsReadBack ps e id r
      (update_config_data builder ps e settings id user r now (open_session c)) a
      (update_config_data-ReadsBack ps e id r ok_e settings user now builder (open_session c)) h
