-- ===== src/Application/Sharing.antt =====
-- The life of a share: created, listed, open until it expires or is revoked.
use vpn_control_panel.Prelude.{
  zero, suc, Bool, Option, none, false, ℕ, String, true, ◌||◌, ◌≡◌, refl, some, List, [], ◌∷◌,
  arith, All, find?, find?-append, find?-modify_self, ok, err, share_not_found, Option-cases, inl,
  inr, eq_refl,
}
use vpn_control_panel.Persistence.Models.{Db, ShareTokenModel, VpnConfigVersionModel}
use vpn_control_panel.Persistence.Shares.{
  NewShare, share_row, create, get_by_token_hash, revoke_by_token_hash, is_listed, expires_after,
  has_hash, mark_revoked,
}
use vpn_control_panel.Persistence.Consistency.{IsConsistent, has_term, is_pinned}
use vpn_control_panel.Application.ShareExpiration.{
  ShareExpiration, TtlSeconds, seconds, negative, resolve_share_expiration,
}
use vpn_control_panel.Application.ShareUseCases.{is_open, open_share}

is_listed-is_open :
    (now : ℕ) (s : ShareTokenModel)
    → has_term s.is_permanent s.expires_at ≡ true
    → is_listed now s ≡ is_open now s
unfolding is_listed is_open
is_listed-is_open now s h = elim (Option-cases s.expires_at) [
  | inl n ↦ ground (arith, n, rw n at h)
  | inr (t, n) ↦ ground (arith, n, rw n at h)
]

rows-listed :
    (now : ℕ) (rows : List VpnConfigVersionModel) (ss : List ShareTokenModel)
    → All (λ s. is_pinned rows s ≡ true) ss
    → All (λ s. is_listed now s ≡ is_open now s) ss
rows-listed now rows [] h = tt
rows-listed now rows (s ∷ ss) h =
    (is_listed-is_open now s (ground (arith, h.0)), rows-listed now rows ss h.1)

-- In consistent tables, at any time, a share passes the filter of the list of active shares exactly
-- when it passes the checks of revocation and expiry that its link is resolved with.
pub listed-iff-open :
    (now : ℕ) (db : Db)
    → IsConsistent db
    → All (λ s. is_listed now s ≡ is_open now s) db.share_tokens
listed-iff-open now db h = rows-listed now db.vpn_config_versions db.share_tokens h.shares

-- A token whose revocation succeeded opens nothing at any later or earlier time.
pub revoke_by_token_hash-open_share :
    (hash : String) (now later : ℕ) (db : Db)
    → (revoke_by_token_hash hash now db).0 ≡ ok true
    → open_share later (get_by_token_hash hash (revoke_by_token_hash hash now db).1)
      ≡ err share_not_found
unfolding revoke_by_token_hash get_by_token_hash open_share is_open
revoke_by_token_hash-open_share hash now later db h =
    elim (Option-cases (find? (has_hash hash) db.share_tokens)) [
      | inl n ↦ ground (arith, n, rw n at h)
      | inr (s, n) ↦
          let found =
            find?-modify_self (has_hash hash) (mark_revoked now) db.share_tokens (λ x p. p) s n in
          ground (arith, n, rw n at h, found)
    ]

create-get_by_token_hash :
    (s : NewShare) (id now : ℕ) (db : Db)
    → (create s id now db).0 ≡ ok tt
    → get_by_token_hash s.token_hash (create s id now db).1 ≡ some (share_row s id now)
unfolding create get_by_token_hash
create-get_by_token_hash s id now db h =
    let found = find?-append (has_hash s.token_hash) db.share_tokens (share_row s id now ∷ []) in
    let same = eq_refl s.token_hash in ground (arith, h, found, same)

new-is_open :
    (s : NewShare) (id now later : ℕ)
    → (s.is_permanent || expires_after later s.expires_at) ≡ true
    → is_open later (share_row s id now) ≡ true
unfolding is_open
new-is_open s id now later valid = elim (Option-cases s.expires_at) [
  | inl n ↦ ground (arith, n, rw n at valid)
  | inr (t, n) ↦ ground (arith, n, rw n at valid)
]

open_share-some :
    (later : ℕ) (s : ShareTokenModel) → is_open later s ≡ true → open_share later (some s) ≡ ok s
unfolding open_share
open_share-some later s h = rw h refl

-- The link of a share that was created opens its row while it is permanent or not expired.
pub create-open_share :
    (s : NewShare) (id now later : ℕ) (db : Db)
    → (create s id now db).0 ≡ ok tt
    → (s.is_permanent || expires_after later s.expires_at) ≡ true
    → open_share later (get_by_token_hash s.token_hash (create s id now db).1)
      ≡ ok (share_row s id now)
create-open_share s id now later db h valid =
    rw (create-get_by_token_hash s id now db h)
      (open_share-some later (share_row s id now) (new-is_open s id now later valid))

-- What the request's terms are accepted as has either no end or an end in the future, so that the
-- new share is open at the time of the request.
pub resolve_share_expiration-is_open :
    (permanent : Bool) (at : Option ℕ) (ttl : Option TtlSeconds) (now : ℕ) (x : ShareExpiration)
    → resolve_share_expiration permanent at ttl now ≡ ok x
    → (has_term x.is_permanent x.expires_at ≡ true)
      × ((x.is_permanent || expires_after now x.expires_at) ≡ true)
unfolding resolve_share_expiration
resolve_share_expiration-is_open true none none now x e = ground arith
resolve_share_expiration-is_open true (some t) none now x e = ground arith
resolve_share_expiration-is_open false none none now x e = ground arith
resolve_share_expiration-is_open false (some t) none now x e = ground arith
resolve_share_expiration-is_open permanent at (some negative) now x e = ground arith
resolve_share_expiration-is_open permanent at (some (seconds zero)) now x e = ground arith
resolve_share_expiration-is_open permanent at (some (seconds (suc n))) now x e = ground arith
