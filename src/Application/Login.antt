-- ===== src/Application/Login.antt =====
-- panel/application/login.py and the users table's lookup of
-- panel/infrastructure/persistence/repositories/user.py. The password's check and the token are the
-- security library's, an interface.
use Prim.Native.String
use vpn_control_panel.Prelude.{
  ℕ, String, Bool, true, false, Result, Option, none, some, ◌==◌, ◌=ˢ◌, if◌then◌else◌, find?,
  invalid_credentials, ok, err, Exec, ◌>>◌,
}
use vpn_control_panel.Domain.Settings.{PanelSettings}
use vpn_control_panel.Persistence.Models.{Db, UserModel}
use vpn_control_panel.Persistence.RateLimits.{check_and_increment}
use vpn_control_panel.Application.Audit.{log_failed_login}

pub record SecurityOps : Type 0 where
  -- bcrypt's check, which may raise a ValueError
  pub verify_password : String → String → Result Bool
  pub create_access_token : ℕ → String

unfoldable pub get_by_username : String → Db → Option UserModel
get_by_username username db = find? (λ u. u.username =ˢ username) db.users

-- `value or default`, for a number
abbrev pub nonzero_or : Option ℕ → ℕ → ℕ
nonzero_or none d = d
nonzero_or (some n) d = if n == 0 then d else n

abbrev refused_user : PanelSettings → String → String → Exec Db String
refused_user settings username ip db =
    (err invalid_credentials, log_failed_login settings username ip db)

abbrev pub checked_password :
    SecurityOps → PanelSettings → String → String → UserModel → Result Bool → Exec Db String
checked_password ops settings username ip u (ok true) db = (ok (ops.create_access_token u.id), db)
checked_password ops settings username ip u (ok false) db = refused_user settings username ip db
checked_password ops settings username ip u (err e) db = (err e, db)

-- `user is None or not verify_password(...)`
abbrev pub checked_user :
    SecurityOps → PanelSettings → String → String → String → Option UserModel → Exec Db String
checked_user ops settings username password ip none db = refused_user settings username ip db
checked_user ops settings username password ip (some u) db =
    checked_password ops settings username ip u (ops.verify_password password u.password_hash) db

-- `LoginUseCase.execute`
unfoldable pub login : SecurityOps → PanelSettings → String → String → String → ℕ → Exec Db String
unfolding check_and_increment get_by_username log_failed_login
login ops settings username password client_ip now = do
  check_and_increment "login" (String.◌++◌ "ip:" client_ip)
      (nonzero_or settings.rate_limit.login.max_attempts 5) settings.rate_limit.login.window_seconds
      now
  λ db. checked_user ops settings username password client_ip (get_by_username username db) db
