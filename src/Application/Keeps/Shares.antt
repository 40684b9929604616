-- ===== src/Application/Keeps/Shares.antt =====
-- The use cases of shares, of the data of a version and of the rate limiter keep the tables
-- consistent.
use vpn_control_panel.Prelude.{
  ℕ, String, Bool, true, false, ◌≡◌, refl, Option, none, some, List, [], ◌∷◌, arith, ok, Bool-cases,
  Option-cases, inl, inr, All, find?, find?_sound, ==_iff, zero, suc, sym,
}
use vpn_control_panel.Domain.Settings.{PanelSettings}
use vpn_control_panel.Json.FieldCrypto.{FieldEncryptor}
use vpn_control_panel.Persistence.Models.{
  Db, VpnConfigModel, VpnConfigVersionModel, RateLimitEntryModel,
}
use vpn_control_panel.Persistence.Configs.{get_model, get_any_model, only_active, has_id}
use vpn_control_panel.Persistence.Configs.Queries.{get_by_id}
use vpn_control_panel.Persistence.Shares.{share_row, create}
use vpn_control_panel.Persistence.RateLimits.{check_and_increment, upsert, rate_key, window_start}
use vpn_control_panel.Persistence.Consistency.{
  IsConsistent, is_stored, is_backed, has_term, is_pinned,
}
use vpn_control_panel.Persistence.Consistency.Methods.{
  Keeps, create-IsConsistent, update_version_config_data-Keeps, revoke_by_token_hash-Keeps,
  revoke_by_id-Keeps, record_access-IsConsistent,
}
use vpn_control_panel.Application.ConfigData.{Parsers, DataRequest, update_config_data}
use vpn_control_panel.Worker.Build.{BuilderOps}
use vpn_control_panel.Application.ShareExpiration.{
  ShareExpiration, TtlSeconds, seconds, negative, resolve_share_expiration,
}
use vpn_control_panel.Application.ShareUseCases.{
  ShareOps, ShareRequest, shareable_version, create_share_link, create_all_share_links,
  revoke_share, revoke_share_by_id, ResolveTimes, resolve_share,
}
use vpn_control_panel.Application.Keeps.{
  Sound, bind-Sound, session-Sound, on_session-Sound, raise_if-Sound, audit-Sound,
  audit_log-IsConsistent,
}

All-find? :
    {A : Type 0} (P : A → Type 0) (p : A → Bool) (xs : List A) (a : A)
    → find? p xs ≡ some a
    → All P xs
    → P a
All-find? P p [] a e h = ground arith
All-find? P p (x ∷ xs) a e h = elim (Bool-cases (p x)) [
  | inl t ↦ ground (arith, h.0, t, e)
  | inr t ↦ All-find? P p xs a (rw t at e) h.1
]

only_active-some :
    (o : Option VpnConfigModel) (m : VpnConfigModel) → only_active o ≡ some m → o ≡ some m
only_active-some none m e = ground arith
only_active-some (some x) m e = ground arith

shareable_version-current :
    (o : Option VpnConfigModel) (v : ℕ)
    → shareable_version o ≡ ok v
    → (m : VpnConfigModel) × (o ≡ some m) × (m.current_version ≡ some v)
unfolding shareable_version
shareable_version-current none v e = ground arith
shareable_version-current (some m) v e = elim (Option-cases m.current_version) [
  | inl n ↦ ground (arith, rw n at e)
  | inr (k, n) ↦ (m, refl, ground (arith, n, rw n at e))
]

-- A version that can be shared is stored.
pub shareable_version-stored :
    (db : Db) (i v : ℕ)
    → shareable_version (get_by_id i db) ≡ ok v
    → IsConsistent db
    → is_stored i v db.vpn_config_versions ≡ true
unfolding get_by_id get_model get_any_model
shareable_version-stored db i v e h =
    let (m, found, current) = shareable_version-current (get_by_id i db) v e in
    let row = only_active-some (get_any_model i db) m found in
    let backing =
      All-find? (λ x. is_backed db.vpn_config_versions x ≡ true) (has_id i) db.vpn_configs m row
        h.configs in
    rw (sym ((==_iff m.id i).0 (find?_sound (has_id i) db.vpn_configs m row)))
      (rw current at backing)

-- What is accepted is permanent or expires after the request.
pub resolve_share_expiration-has_term :
    (permanent : Bool) (at : Option ℕ) (ttl : Option TtlSeconds) (now : ℕ) (x : ShareExpiration)
    → resolve_share_expiration permanent at ttl now ≡ ok x
    → has_term x.is_permanent x.expires_at ≡ true
unfolding resolve_share_expiration
resolve_share_expiration-has_term true none none now x e = ground arith
resolve_share_expiration-has_term true (some t) none now x e = ground arith
resolve_share_expiration-has_term false none none now x e = ground arith
resolve_share_expiration-has_term false (some t) none now x e = ground arith
resolve_share_expiration-has_term permanent at (some negative) now x e = ground arith
resolve_share_expiration-has_term permanent at (some (seconds zero)) now x e = ground arith
resolve_share_expiration-has_term permanent at (some (seconds (suc n))) now x e = ground arith

other_tables-IsConsistent :
    (db : Db) (rows : List RateLimitEntryModel)
    → IsConsistent db
    → IsConsistent (record db { rate_limit_entries = rows })
other_tables-IsConsistent db rows h = record {
  configs = h.configs;
  versions = h.versions;
  shares = h.shares;
}

pinned :
    (rows : List VpnConfigVersionModel) (hash : String) (i v : ℕ) (secure permanent : Bool)
    (expires_at : Option ℕ) (user id now : ℕ)
    → is_stored i v rows ≡ true
    → has_term permanent expires_at ≡ true
    → is_pinned rows (
        share_row
          (record {
            token_hash = hash;
            config_id = some i;
            config_version = some v;
            secure = secure;
            is_permanent = permanent;
            expires_at = expires_at;
            created_by = user;
          })
          id
          now)
      ≡ true
pinned rows hash i v secure permanent expires_at user id now s t = ground arith

create_unpinned-Keeps :
    (hash : String) (secure permanent : Bool) (expires_at : Option ℕ) (user id now : ℕ)
    → has_term permanent expires_at ≡ true
    → Keeps (
        create
          (record {
            token_hash = hash;
            config_id = none;
            config_version = none;
            secure = secure;
            is_permanent = permanent;
            expires_at = expires_at;
            created_by = user;
          })
          id
          now)
create_unpinned-Keeps hash secure permanent expires_at user id now t db h =
    create-IsConsistent _ id now db t h

pub check_and_increment-Keeps :
    (scope identifier : String) (limit window_seconds now : ℕ)
    → Keeps (check_and_increment scope identifier limit window_seconds now)
unfolding check_and_increment
check_and_increment-Keeps scope identifier limit window_seconds now db h =
    let kept =
      other_tables-IsConsistent db
        (upsert (rate_key scope identifier) (window_start now window_seconds) db.rate_limit_entries)
        h in
    ground (arith, kept)

module _ (settings : PanelSettings) (user_id now : ℕ) where
  pub create_share_link-Sound :
      (ops : ShareOps) (config_id : ℕ) (r : ShareRequest) (token : String) (share_id row_now : ℕ)
      → Sound (create_share_link ops settings config_id user_id r token share_id now row_now)
  unfolding create_share_link
  create_share_link-Sound ops config_id r token share_id row_now w h =
      search
        (
          bind-Sound, session-Sound, create-IsConsistent, audit-Sound, audit_log-IsConsistent,
          pinned, resolve_share_expiration-has_term, shareable_version-stored,
        )
        depth 14

  pub create_all_share_links-Sound :
      (ops : ShareOps) (r : ShareRequest) (token : String) (share_id row_now : ℕ)
      → Sound (create_all_share_links ops settings user_id r token share_id now row_now)
  unfolding create_all_share_links
  create_all_share_links-Sound ops r token share_id row_now w h =
      search
        (
          bind-Sound, on_session-Sound, create_unpinned-Keeps, audit-Sound, raise_if-Sound,
          resolve_share_expiration-has_term,
        )
        depth 14

  pub revoke_share-Sound :
      (ops : ShareOps) (token : String) → Sound (revoke_share ops settings token user_id now)
  unfolding revoke_share
  revoke_share-Sound ops token w h =
      search (bind-Sound, on_session-Sound, revoke_by_token_hash-Keeps, audit-Sound, raise_if-Sound)
        depth 14

  pub revoke_share_by_id-Sound :
      (link_id : ℕ) → Sound (revoke_share_by_id settings link_id user_id now)
  unfolding revoke_share_by_id
  revoke_share_by_id-Sound link_id w h =
      search (bind-Sound, on_session-Sound, revoke_by_id-Keeps, audit-Sound, raise_if-Sound) depth
        14

  pub update_config_data-Sound :
      (builder : BuilderOps) (ps : Parsers) (e : FieldEncryptor) (id : ℕ) (r : DataRequest)
      → Sound (update_config_data builder ps e settings id user_id r now)
  unfolding update_config_data
  update_config_data-Sound builder ps e id r w h =
      search
        (
          bind-Sound, on_session-Sound, update_version_config_data-Keeps, audit-Sound,
          raise_if-Sound,
        )
        depth 20

pub resolve_share-Sound :
    (ops : ShareOps) (e : FieldEncryptor) (settings : PanelSettings) (token ip : String)
    (t : ResolveTimes)
    → Sound (resolve_share ops e settings token ip t)
unfolding resolve_share
resolve_share-Sound ops e settings token ip t w h =
    search
      (
        bind-Sound, on_session-Sound, session-Sound, check_and_increment-Keeps,
        record_access-IsConsistent,
      )
      depth 14
