-- ===== src/Application/Requests/Counted.antt =====
-- Which login attempts are counted.
use Prim.Native.String
use vpn_control_panel.Prelude.{
  ℕ, ◌+◌, String, Bool, true, false, not, if◌then◌else◌, ◌≡◌, refl, ap, ◌∙◌, Option, none, some,
  arith, Exec, continue, Result, ok, err, Bool-cases, inl, inr,
}
use vpn_control_panel.Domain.Settings.{PanelSettings}
use vpn_control_panel.Persistence.Models.{Db, UserModel}
use vpn_control_panel.Persistence.RateLimits.{
  check_and_increment, current_count, upsert, find_entry, rate_key, window_start, count_of,
}
use vpn_control_panel.Persistence.RateLimits.Windows.{find_entry-upsert_self}
use vpn_control_panel.Application.Audit.{log_failed_login, audit_log}
use vpn_control_panel.Application.Session.{Committed, open_session}
use vpn_control_panel.Application.Login.{
  SecurityOps, login, checked_user, checked_password, get_by_username, nonzero_or,
}
use vpn_control_panel.Application.Requests.{login_request, committed_if, is_login_refusal}

check_and_increment-entries :
    (scope who : String) (limit window now : ℕ) (db : Db)
    → (check_and_increment scope who limit window now db).1.rate_limit_entries
      ≡ upsert (rate_key scope who) (window_start now window) db.rate_limit_entries
unfolding check_and_increment
check_and_increment-entries scope who limit window now db = ground arith

log_failed_login-entries :
    (settings : PanelSettings) (username ip : String) (db : Db)
    → (log_failed_login settings username ip db).rate_limit_entries ≡ db.rate_limit_entries
unfolding log_failed_login audit_log
log_failed_login-entries settings username ip db = ground arith

-- An exception that the handler lets through.
unfoldable pub is_uncaught : Result String → Bool
is_uncaught (ok a) = false
is_uncaught (err e) = not (is_login_refusal e)

module _ (ops : SecurityOps) (settings : PanelSettings) (username password ip : String) where
  checked_password-entries :
      (u : UserModel) (r : Result Bool) (db : Db)
      → (checked_password ops settings username ip u r db).1.rate_limit_entries
        ≡ db.rate_limit_entries
  checked_password-entries u (ok true) db = refl
  checked_password-entries u (ok false) db = log_failed_login-entries settings username ip db
  checked_password-entries u (err e) db = refl

  checked_user-entries :
      (user : Option UserModel) (db : Db)
      → (checked_user ops settings username password ip user db).1.rate_limit_entries
        ≡ db.rate_limit_entries
  checked_user-entries none db = log_failed_login-entries settings username ip db
  checked_user-entries (some u) db =
      checked_password-entries u (ops.verify_password password u.password_hash) db

  abbrev rest : Unit {0} → Exec Db String
  rest _ db = checked_user ops settings username password ip (get_by_username username db) db

  continue-entries :
      (out : Result (Unit {0}) × Db)
      → (continue out.0 out.1 rest).1.rate_limit_entries ≡ out.1.rate_limit_entries
  continue-entries (ok _, db) = checked_user-entries (get_by_username username db) db
  continue-entries (err x, db) = refl

  -- The client's count of the window.
  abbrev count_at : ℕ → Db → ℕ
  count_at now db =
      current_count "login" (String.◌++◌ "ip:" ip) settings.rate_limit.login.window_seconds now db

  committed_if-count :
      (now : ℕ) (out : Result String × Db) (c : Committed)
      → count_at now out.1 ≡ count_at now c.db + 1
      → let r =
          committed_if is_login_refusal (out.0, record (open_session c) { session = out.1 }) in
        count_at now r.1.committed
        ≡ (if is_uncaught r.0 then count_at now c.db else count_at now c.db + 1)
  unfolding is_uncaught
  committed_if-count now (ok a, db) c h = h
  committed_if-count now (err e, db) c h = elim (Bool-cases (is_login_refusal e)) [
    | inl t ↦ rw t h
    | inr t ↦ rw t refl
  ]

  -- A login attempt that is answered, refused ones included, leaves its client's count of the window
  -- one higher in the committed tables. One that the handler does not catch, as when the check of
  -- the password raises, leaves the count as it was.
  pub login_request-current_count :
      (now : ℕ) (c : Committed)
      → let out = login_request ops settings username password ip now c in
        current_count "login"
          (String.◌++◌ "ip:" ip)
          settings.rate_limit.login.window_seconds
          now
          out.1.db
        ≡ (if is_uncaught out.0 then count_at now c.db else count_at now c.db + 1)
  unfolding login_request login current_count
  login_request-current_count now c =
      let window = settings.rate_limit.login.window_seconds in
      let who = String.◌++◌ "ip:" ip in
      let limit = nonzero_or settings.rate_limit.login.max_attempts 5 in
      let checked = check_and_increment "login" who limit window now c.db in
      let out = continue checked.0 checked.1 rest in
      let entries =
        continue-entries checked ∙ check_and_increment-entries "login" who limit window now c.db in
      committed_if-count now out c (
        ap (λ rows. count_of (find_entry (rate_key "login" who) (window_start now window) rows))
          entries
        ∙ find_entry-upsert_self (rate_key "login" who) (window_start now window)
            c.db.rate_limit_entries)
