-- ===== src/Worker/Active.antt =====
-- What an acknowledged task has done: its version is stored, and the config is active on it.
use mathlib.Core.Path.{subst}
use vpn_control_panel.Prelude.{
  ℕ, true, ◌≡◌, refl, sym, Option, none, some, arith, ◌>>◌, continue, continue-holds, Result, ok,
  err, Error, Bool-cases, inl, inr, find?, modify, find?-modify_self, ==_iff, find?_sound,
}
use vpn_control_panel.Domain.Enums.{ConfigProfile, active, parse_profile}
use vpn_control_panel.Persistence.Models.{Db, VpnConfigModel}
use vpn_control_panel.Persistence.Configs.{
  has_id, get_any_model, write_model, write_or_raise, has_version, mark_processing, mark_active,
  as_active,
}
use vpn_control_panel.Persistence.Consistency.{IsConsistent, is_stored}
use vpn_control_panel.Persistence.Consistency.Methods.{mark_processing-Keeps}
use vpn_control_panel.Worker.Build.{WorkerContext, build_and_persist_version}
use vpn_control_panel.Worker.Task.{
  TaskPayload, PublishedTask, ack, config_task_body, run_config_task, finish_task, fail_task,
  task_from, process_task, has_handler, reply_of,
}
use vpn_control_panel.Worker.Keeps.{Stores, Builds-Stores, build-Builds}

-- The config is active on the version, which is stored.
unfoldable pub IsReady : ℕ → ℕ → Db → Type 0
IsReady i v db =
    (m : VpnConfigModel) × (get_any_model i db ≡ some m)
    × (m.status ≡ active)
    × (m.current_version ≡ some v)
    × (is_stored i v db.vpn_config_versions ≡ true)

Done : ℕ → ℕ → Result (Unit {0}) × Db → Type 0
Done i v out = out.0 ≡ ok tt → IsReady i v out.1

err-Done : (i v : ℕ) (e : Error) (db : Db) → Done i v (err e, db)
unfolding Done
err-Done i v e db h = ground (arith, h)

module _ (i v now : ℕ) where
  mark_active_found-Done :
      (db : Db)
      → is_stored i v db.vpn_config_versions ≡ true
      → (o : Option VpnConfigModel) → get_any_model i db ≡ o
      → Done i v (write_or_raise o (as_active v now) db)
  unfolding Done IsReady write_or_raise write_model get_any_model
  mark_active_found-Done db stored none n h = ground (arith, h)
  mark_active_found-Done db stored (some m) n h =
      let same = (==_iff m.id i).0 (find?_sound (has_id i) db.vpn_configs m n) in
      let found = find?-modify_self (has_id i) (as_active v now) db.vpn_configs (λ x p. p) m n in
      (
        as_active v now m,
        subst
            (λ j.
              find? (has_id i) (modify (has_id j) (as_active v now) db.vpn_configs)
              ≡ some (as_active v now m))
            (sym same) found,
        refl,
        refl,
        stored,
      )

  mark_active-Done :
      (db : Db) → is_stored i v db.vpn_config_versions ≡ true → Done i v (mark_active i v now db)
  unfolding mark_active
  mark_active-Done db stored = mark_active_found-Done db stored (get_any_model i db) refl

  activate-Done :
      (out : Result (Unit {0}) × Db)
      → Stores i v out
      → Done i v (continue out.0 out.1 λ _. mark_active i v now)
  unfolding Stores
  activate-Done (ok _, db) h = mark_active-Done db (h.1 refl)
  activate-Done (err e, db) h = err-Done i v e db

module _ (ctx : WorkerContext) (p : TaskPayload) (now : ℕ) (db : Db) (h : IsConsistent db) where
  built-Done :
      (profile : ConfigProfile) (s : Db)
      → IsConsistent s
      → Done p.config_id p.target_version (
          continue
            (build_and_persist_version ctx p.config_id profile p.target_version p.name s).0
            (build_and_persist_version ctx p.config_id profile p.target_version p.name s).1
            λ _. mark_active p.config_id p.target_version now)
  built-Done profile s hs =
      let out = build_and_persist_version ctx p.config_id profile p.target_version p.name s in
      activate-Done p.config_id p.target_version now out (
        Builds-Stores p.config_id p.target_version s out
          (build-Builds ctx p.config_id profile p.target_version p.name s) hs)

  config_task_body-Done :
      (profile : ConfigProfile)
      → Done p.config_id p.target_version (config_task_body ctx p profile now db)
  unfolding config_task_body has_version
  config_task_body-Done profile = elim (Bool-cases (has_version p.config_id p.target_version db)) [
    | inl e ↦ rw e (mark_active-Done p.config_id p.target_version now db e)
    | inr e ↦ rw e (
        continue-holds (Done p.config_id p.target_version) (mark_processing p.config_id now db).0
          (mark_processing p.config_id now db).1
          (λ _.
            build_and_persist_version ctx p.config_id profile p.target_version p.name
            >> mark_active p.config_id p.target_version now)
          (λ x. err-Done p.config_id p.target_version x (mark_processing p.config_id now db).1)
          (λ _ _.
            built-Done profile (mark_processing p.config_id now db).1
              (mark_processing-Keeps p.config_id now db h)))
  ]

  finish_task-Done :
      (out : Result (Unit {0}) × Db)
      → Done p.config_id p.target_version out
      → Done p.config_id p.target_version (finish_task p now db out)
  unfolding Done fail_task
  finish_task-Done (ok _, s) d k = d k
  finish_task-Done (err e, s) d k = ground (arith, k)

  task_from-Done :
      (r : Result ConfigProfile) → Done p.config_id p.target_version (task_from ctx p now r db)
  task_from-Done (err e) = err-Done p.config_id p.target_version e db
  task_from-Done (ok profile) =
      finish_task-Done (config_task_body ctx p profile now db) (config_task_body-Done profile)

reply_of-ack :
    (out : Result (Unit {0}) × Db)
    → (reply_of out).0 ≡ ack
    → (out.0 ≡ ok tt) × ((reply_of out).1 ≡ out.1)
reply_of-ack (ok _, db) h = (refl, refl)
reply_of-ack (err e, db) h = ground (arith, h)

-- From consistent tables, a task that the worker acknowledges leaves its config active on the
-- task's version, and that version is stored.
pub process_task-IsReady :
    (ctx : WorkerContext) (t : PublishedTask) (now : ℕ) (db : Db)
    → IsConsistent db
    → (process_task ctx t now db).0 ≡ ack
    → IsReady t.payload.config_id t.payload.target_version (process_task ctx t now db).1
unfolding process_task run_config_task Done
process_task-IsReady ctx t now db h = elim (Bool-cases (has_handler t.task_type)) [
  | inl e ↦ rw e λ k.
      let out = task_from ctx t.payload now (parse_profile t.payload.profile) db in
      let replied = reply_of-ack out k in
      rw (replied.1)
        (task_from-Done ctx t.payload now db h (parse_profile t.payload.profile) (replied.0))
  | inr e ↦ rw e λ k. ground (arith, k)
]
