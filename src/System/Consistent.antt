-- ===== src/System/Consistent.antt =====
-- Whatever the order of requests, deliveries and redeliveries, the committed tables are consistent.
use vpn_control_panel.Prelude.{
  ℕ, String, Bool, true, false, Option, some, none, Result, ok, err, Error, Exec, continue,
  continue-holds, Bool-cases, inl, inr, ◌&&◌,
}
use vpn_control_panel.Domain.Settings.{PanelSettings}
use vpn_control_panel.Persistence.Models.{Db, UserModel}
use vpn_control_panel.Persistence.Consistency.{IsConsistent}
use vpn_control_panel.Persistence.Consistency.Methods.{Keeps}
use vpn_control_panel.Application.Audit.{log_failed_login}
use vpn_control_panel.Application.Session.{
  World, Committed, on_session, publish_task, request, committing_request, committed_on_ok,
  open_session,
}
use vpn_control_panel.Application.Login.{SecurityOps, login, checked_user, checked_password}
use vpn_control_panel.Application.ConfigUseCases.{
  create_begin, create_end, initialize_task, regenerate_begin, regenerate_end, regenerate_task,
  delete_config, update_policy,
}
use vpn_control_panel.Application.ConfigData.{update_config_data}
use vpn_control_panel.Application.ShareUseCases.{
  create_share_link, create_all_share_links, revoke_share, revoke_share_by_id, resolve_share,
}
use vpn_control_panel.Application.Requests.{
  committed_if, is_login_refusal, is_share_refusal, login_request, resolve_request,
}
use vpn_control_panel.Application.Keeps.{
  IsSound, Sound, create_begin-Sound, create_end-Sound, publish_task-Sound, regenerate_begin-Sound,
  regenerate_end-Sound, delete_config-Sound, update_policy-Sound, audit_log-IsConsistent,
  on_session-Sound,
}
use vpn_control_panel.Application.Keeps.Shares.{
  create_share_link-Sound, create_all_share_links-Sound, revoke_share-Sound,
  revoke_share_by_id-Sound, update_config_data-Sound, resolve_share-Sound,
  check_and_increment-Keeps,
}
use vpn_control_panel.Worker.Keeps.{process_task-IsConsistent}
use vpn_control_panel.System.{
  Environment, Step, create_started, create_published, create_finished, regenerate_started,
  regenerate_published, regenerate_finished, delivered, forgotten, deleted, policy_updated,
  data_updated, shared, all_shared, revoked, revoked_by_id, resolved, logged_in, Run, here, next,
}

opened : (c : Committed) → IsConsistent c.db → IsSound (open_session c)
opened c h = record { committed = h; session = h }

request-IsConsistent :
    {A : Type 0} (m : Exec World A)
    → Sound m
    → (c : Committed) → IsConsistent c.db
    → IsConsistent (request m c).1.db
request-IsConsistent m s c h = (s (open_session c) (opened c h)).committed

committed_on_ok-Sound :
    {A : Type 0} (out : Result A × World) → IsSound out.1 → IsSound (committed_on_ok out).1
committed_on_ok-Sound (ok a, w) h = record { committed = h.session; session = h.session }
committed_on_ok-Sound (err e, w) h = h

committing_request-IsConsistent :
    {A : Type 0} (m : Exec World A)
    → Sound m
    → (c : Committed) → IsConsistent c.db
    → IsConsistent (committing_request m c).1.db
committing_request-IsConsistent m s c h =
    (committed_on_ok-Sound (m (open_session c)) (s (open_session c) (opened c h))).committed

committed_if-Sound :
    {A : Type 0} (caught : Error → Bool) (out : Result A × World)
    → IsSound out.1
    → IsSound (committed_if caught out).1
committed_if-Sound caught (ok a, w) h = record { committed = h.session; session = h.session }
committed_if-Sound caught (err e, w) h = elim (Bool-cases (caught e)) [
  | inl t ↦ rw t (record { committed = h.session; session = h.session })
  | inr t ↦ rw t h
]

log_failed_login-IsConsistent :
    (settings : PanelSettings) (username ip : String) (db : Db)
    → IsConsistent db
    → IsConsistent (log_failed_login settings username ip db)
unfolding log_failed_login
log_failed_login-IsConsistent settings username ip db h =
    elim (Bool-cases (settings.audit.enabled && settings.audit.log_failed_login)) [
      | inl t ↦ rw t (search audit_log-IsConsistent)
      | inr t ↦ rw t h
    ]

checked_password-Keeps :
    (ops : SecurityOps) (settings : PanelSettings) (username ip : String) (u : UserModel)
    (r : Result Bool)
    → Keeps (checked_password ops settings username ip u r)
checked_password-Keeps ops settings username ip u (ok true) db h = h
checked_password-Keeps ops settings username ip u (ok false) db h =
    log_failed_login-IsConsistent settings username ip db h
checked_password-Keeps ops settings username ip u (err e) db h = h

checked_user-Keeps :
    (ops : SecurityOps) (settings : PanelSettings) (username password ip : String)
    (user : Option UserModel)
    → Keeps (checked_user ops settings username password ip user)
checked_user-Keeps ops settings username password ip none db h =
    log_failed_login-IsConsistent settings username ip db h
checked_user-Keeps ops settings username password ip (some u) db h =
    checked_password-Keeps ops settings username ip u (ops.verify_password password u.password_hash)
      db h

bind-Keeps :
    {A B : Type 0} (r : Result A) (db : Db) (f : A → Exec Db B)
    → IsConsistent db
    → ((a : A) → IsConsistent (f a db).1)
    → IsConsistent (continue r db f).1
bind-Keeps r db f h goes =
    continue-holds (λ out. IsConsistent out.1) r db f (λ _. h) (λ a _. goes a)

login-Keeps :
    (ops : SecurityOps) (settings : PanelSettings) (username password ip : String) (now : ℕ)
    → Keeps (login ops settings username password ip now)
unfolding login
login-Keeps ops settings username password ip now db h =
    search (bind-Keeps, checked_user-Keeps, check_and_increment-Keeps)

module _ (env : Environment) where
  Step-IsConsistent : (c d : Committed) → Step env c d → IsConsistent c.db → IsConsistent d.db
  unfolding login_request resolve_request
  Step-IsConsistent c d (create_started a id now) h =
      request-IsConsistent (create_begin env.worker.settings a id now)
        (create_begin-Sound env.worker.settings id 0 now a) c h
  Step-IsConsistent c d (create_published a id reply) h =
      request-IsConsistent (publish_task (initialize_task a id) reply)
        (publish_task-Sound (initialize_task a id) reply) c h
  Step-IsConsistent c d (create_finished a id host task now) h =
      request-IsConsistent (create_end env.worker.settings a id host task now)
        (create_end-Sound env.worker.settings id 0 now a host task) c h
  Step-IsConsistent c d (regenerate_started id user now) h =
      request-IsConsistent (regenerate_begin id user now)
        (regenerate_begin-Sound env.worker.settings id user now) c h
  Step-IsConsistent c d (regenerate_published id user r reply) h =
      request-IsConsistent (publish_task (regenerate_task id user r) reply)
        (publish_task-Sound (regenerate_task id user r) reply) c h
  Step-IsConsistent c d (regenerate_finished id user target task now) h =
      request-IsConsistent (regenerate_end env.worker.settings id user target task now)
        (regenerate_end-Sound env.worker.settings id user now target task) c h
  Step-IsConsistent c d (delivered builder before after t now e) h =
      process_task-IsConsistent (record env.worker { builder = builder }) t now c.db h
  Step-IsConsistent c d (forgotten before after t e) h = h
  Step-IsConsistent c d (deleted id user remove_unit now) h =
      committing_request-IsConsistent (delete_config env.worker.settings id user remove_unit now)
        (delete_config-Sound env.worker.settings id user now remove_unit) c h
  Step-IsConsistent c d (policy_updated id user flags now) h =
      committing_request-IsConsistent (update_policy env.worker.settings id user flags now)
        (update_policy-Sound env.worker.settings id user now flags) c h
  Step-IsConsistent c d (data_updated builder id user r now) h =
      committing_request-IsConsistent
        (update_config_data builder env.parsers env.worker.encryptor env.worker.settings id user r
          now)
        (update_config_data-Sound env.worker.settings user now builder env.parsers
          env.worker.encryptor id r)
        c h
  Step-IsConsistent c d (shared id user r token share_id now row_now) h =
      committing_request-IsConsistent
        (create_share_link env.shares env.worker.settings id user r token share_id now row_now)
        (create_share_link-Sound env.worker.settings user now env.shares id r token share_id
          row_now)
        c h
  Step-IsConsistent c d (all_shared user r token share_id now row_now) h =
      committing_request-IsConsistent
        (create_all_share_links env.shares env.worker.settings user r token share_id now row_now)
        (create_all_share_links-Sound env.worker.settings user now env.shares r token share_id
          row_now)
        c h
  Step-IsConsistent c d (revoked token user now) h =
      committing_request-IsConsistent (revoke_share env.shares env.worker.settings token user now)
        (revoke_share-Sound env.worker.settings user now env.shares token) c h
  Step-IsConsistent c d (revoked_by_id link user now) h =
      committing_request-IsConsistent (revoke_share_by_id env.worker.settings link user now)
        (revoke_share_by_id-Sound env.worker.settings user now link) c h
  Step-IsConsistent c d (resolved token client_ip t) h =
      (committed_if-Sound is_share_refusal
        (resolve_share env.shares env.worker.encryptor env.worker.settings token client_ip t
          (open_session c))
        (resolve_share-Sound env.shares env.worker.encryptor env.worker.settings token client_ip t
          (open_session c) (opened c h))).committed
  Step-IsConsistent c d (logged_in username password client_ip now) h =
      (committed_if-Sound is_login_refusal
        (on_session (login env.security env.worker.settings username password client_ip now)
          (open_session c))
        (on_session-Sound (login env.security env.worker.settings username password client_ip now)
          (login-Keeps env.security env.worker.settings username password client_ip now)
          (open_session c) (opened c h))).committed

  -- From consistent tables, every run of requests, broker answers and task deliveries ends in
  -- consistent tables, whatever their order and however often a task is delivered.
  pub Run-IsConsistent : (c d : Committed) → Run env c d → IsConsistent c.db → IsConsistent d.db
  Run-IsConsistent c d here h = h
  Run-IsConsistent c d (next {d = m} run step) h =
      Step-IsConsistent m d step (Run-IsConsistent c m run h)
