-- ===== src/Application/Keeps.antt =====
-- Every use case keeps the committed tables and those of its session consistent, whatever it
-- returns or raises, and so does each request.
pub mod Shares
use vpn_control_panel.Prelude.{
  ℕ, String, Bool, true, false, not, ◌≡◌, refl, Option, none, some, List, arith, Exec, ◌>>=◌, ◌>>◌,
  continue, Result, ok, err, Error, continue-holds, value_error, Bool-cases, inl, inr, pure, lift,
  raise_if, or_raise,
}
use vpn_control_panel.Json.{Json}
use vpn_control_panel.Domain.Settings.{PanelSettings}
use vpn_control_panel.Domain.Policy.{Flags}
use vpn_control_panel.Persistence.Models.{Db}
use vpn_control_panel.Persistence.Configs.Queries.{create_pending, soft_delete}
use vpn_control_panel.Persistence.Configs.{
  set_last_task_id, prepare_regenerate, update_regenerate_policy, update_version_config_data,
}
use vpn_control_panel.Persistence.Consistency.{IsConsistent}
use vpn_control_panel.Persistence.Consistency.Methods.{
  Keeps, create_pending-Keeps, soft_delete-Keeps, set_last_task_id-Keeps, prepare_regenerate-Keeps,
  update_regenerate_policy-Keeps, update_version_config_data-Keeps, revoke_by_token_hash-Keeps,
  revoke_by_id-Keeps, record_access-IsConsistent,
}
use vpn_control_panel.Application.Audit.{audit_log}
use vpn_control_panel.Application.Session.{
  World, Committed, on_session, read_session, write_session, commit, publish_task, BrokerReply,
  accepted, refused, lost, audit, open_session, close_session, committed_on_ok, request,
  committing_request,
}
use vpn_control_panel.Application.ConfigUseCases.{
  CreateArguments, create_begin, create_end, regenerate_begin, regenerate_end, rewrap,
  delete_config, update_policy,
}
use vpn_control_panel.Worker.Task.{PublishedTask}

pub record IsSound (w : World) : Type 0 where
  pub committed : IsConsistent w.committed
  pub session : IsConsistent w.session

abbrev pub Sound {ℓ} : {A : Type ℓ} → Exec World A → Type 0
Sound m = (w : World) → IsSound w → IsSound (m w).1

pub bind-Sound :
    {A B : Type 0} (r : Result A) (w : World) (f : A → Exec World B)
    → IsSound w
    → ((a : A) → r ≡ ok a → IsSound (f a w).1)
    → IsSound (continue r w f).1
bind-Sound r w f h goes = continue-holds (λ out. IsSound out.1) r w f (λ _. h) goes

pub session-Sound :
    (w : World) (db : Db) → IsConsistent db → IsSound w → IsSound (record w { session = db })
session-Sound w db c h = record { committed = h.committed; session = c }

-- What a commit leaves.
pub saved-Sound :
    (db : Db) (queue : List PublishedTask)
    → IsConsistent db
    → IsSound (record { committed = db; session = db; queue = queue })
saved-Sound db queue h = record { committed = h; session = h }

pub audit_log-IsConsistent :
    (settings : PanelSettings) (event : String) (payload : Json) (user : Option ℕ) (db : Db)
    → IsConsistent db
    → IsConsistent (audit_log settings event payload user db)
unfolding audit_log
audit_log-IsConsistent settings event payload user db h = elim (Bool-cases settings.audit.enabled) [
  | inl e ↦ rw e (record { configs = h.configs; versions = h.versions; shares = h.shares })
  | inr e ↦ rw e h
]

pub audit-Sound :
    (settings : PanelSettings) (event : String) (payload : Json) (user : ℕ)
    → Sound (audit settings event payload user)
audit-Sound settings event payload user w h =
    session-Sound w (audit_log settings event payload (some user) w.session)
      (audit_log-IsConsistent settings event payload (some user) w.session h.session) h

pub on_session-Sound : {A : Type 0} (m : Exec Db A) → Keeps m → Sound (on_session m)
on_session-Sound m k w h = session-Sound w (m w.session).1 (k w.session h.session) h

pub publish_task-Sound : (t : PublishedTask) (reply : BrokerReply) → Sound (publish_task t reply)
unfolding publish_task
publish_task-Sound t (accepted id) w h = record { committed = h.committed; session = h.session }
publish_task-Sound t (refused e) w h = h
publish_task-Sound t (lost e) w h = record { committed = h.committed; session = h.session }

raise_if-Sound : (b : Bool) (e : Error) (w : World) → IsSound w → IsSound (raise_if b e w).1
raise_if-Sound true e w h = h
raise_if-Sound false e w h = h

rewrap-Keeps : (out : Result (Unit {0}) × Db) → IsConsistent out.1 → IsConsistent (rewrap out).1
rewrap-Keeps (ok u, db) h = h
rewrap-Keeps (err e, db) h = elim e as (λ x. IsConsistent (rewrap (err x, db)).1) [
  | value_error s ↦ h
  | _ ↦ h
]

module _ (settings : PanelSettings) (id user_id now : ℕ) where
  pub create_begin-Sound : (a : CreateArguments) → Sound (create_begin settings a id now)
  unfolding create_begin
  create_begin-Sound a w h = search (bind-Sound, on_session-Sound, create_pending-Keeps) depth 14

  pub create_end-Sound :
      (a : CreateArguments) (host : Option String) (task : String)
      → Sound (create_end settings a id host task now)
  unfolding create_end
  create_end-Sound a host task w h =
      search
        (bind-Sound, on_session-Sound, set_last_task_id-Keeps, audit_log-IsConsistent, saved-Sound)
        depth 14

  pub regenerate_begin-Sound : Sound (regenerate_begin id user_id now)
  unfolding regenerate_begin
  regenerate_begin-Sound w h =
      search (bind-Sound, session-Sound, rewrap-Keeps, prepare_regenerate-Keeps) depth 14

  pub regenerate_end-Sound :
      (target : ℕ) (task : String) → Sound (regenerate_end settings id user_id target task now)
  unfolding regenerate_end
  regenerate_end-Sound target task w h =
      search
        (bind-Sound, on_session-Sound, set_last_task_id-Keeps, audit_log-IsConsistent, saved-Sound)
        depth 14

  pub delete_config-Sound :
      (remove_unit : Result (Unit {0})) → Sound (delete_config settings id user_id remove_unit now)
  unfolding delete_config
  delete_config-Sound remove_unit w h =
      search (bind-Sound, on_session-Sound, soft_delete-Keeps, audit-Sound, raise_if-Sound) depth 14

  pub update_policy-Sound : (flags : Flags) → Sound (update_policy settings id user_id flags now)
  unfolding update_policy
  update_policy-Sound flags w h =
      search (bind-Sound, on_session-Sound, update_regenerate_policy-Keeps, audit-Sound) depth 14
