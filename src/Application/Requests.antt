-- ===== src/Application/Requests.antt =====
-- The two public handlers that commit what was written when a request is refused:
-- `login` of panel/api/routers/auth.py and `resolve_share` of panel/api/routers/share.py.
pub mod Counted
use vpn_control_panel.Prelude.{
  ℕ, String, Bool, true, false, List, if◌then◌else◌, Error, rate_limit_exceeded,
  invalid_credentials, share_not_found, Result, ok, err, Exec,
}
use vpn_control_panel.Json.FieldCrypto.{FieldEncryptor}
use vpn_control_panel.Domain.Settings.{PanelSettings}
use vpn_control_panel.Persistence.Models.{Db}
use vpn_control_panel.Application.Session.{
  World, Committed, on_session, open_session, close_session,
}
use vpn_control_panel.Application.Login.{SecurityOps, login}
use vpn_control_panel.Application.ShareUseCases.{ShareOps, ResolveTimes, resolve_share}

-- The exceptions that the handlers catch.
abbrev pub is_login_refusal : Error → Bool
is_login_refusal rate_limit_exceeded = true
is_login_refusal invalid_credentials = true
is_login_refusal _ = false

abbrev pub is_share_refusal : Error → Bool
is_share_refusal rate_limit_exceeded = true
is_share_refusal share_not_found = true
is_share_refusal _ = false

abbrev pub committed_if : {A : Type 0} → (Error → Bool) → Result A × World → Result A × World
committed_if caught (ok a, w) = (ok a, record w { committed = w.session })
committed_if caught (err e, w) = (err e, if caught e then record w { committed = w.session } else w)

unfoldable pub login_request :
    SecurityOps → PanelSettings → String → String → String → ℕ → Exec Committed String
unfolding login
login_request ops settings username password client_ip now c =
    let r =
      committed_if is_login_refusal
        (on_session (login ops settings username password client_ip now) (open_session c)) in
    (r.0, close_session r.1)

unfoldable pub resolve_request :
    ShareOps
    → FieldEncryptor
    → PanelSettings
    → String
    → String
    → ResolveTimes
    → Exec Committed (List String)
unfolding resolve_share
resolve_request ops e settings token client_ip t c =
    let r =
      committed_if is_share_refusal
        (resolve_share ops e settings token client_ip t (open_session c)) in
    (r.0, close_session r.1)
