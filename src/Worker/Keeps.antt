-- ===== src/Worker/Keeps.antt =====
-- A task keeps the tables consistent, whatever its payload and however often it is delivered.
use vpn_control_panel.Prelude.{
  ℕ, String, true, ◌≡◌, refl, arith, Exec, ◌>>◌, continue, Result, ok, err, Error, Bool-cases, inl,
  inr, continue-holds, any-append_last, ==_refl, message, sym,
}
use vpn_control_panel.Json.{Json}
use vpn_control_panel.Domain.Enums.{ConfigProfile, parse_profile}
use vpn_control_panel.Persistence.Models.{Db, VpnConfigVersionModel}
use vpn_control_panel.Persistence.Configs.{
  has_version, insert_version, mark_processing, mark_active, is_version,
}
use vpn_control_panel.Persistence.Consistency.{IsConsistent, is_stored}
use vpn_control_panel.Persistence.Consistency.Methods.{
  Keeps, mark_processing-Keeps, mark_failed-Keeps, mark_active-IsConsistent, insert_version-Keeps,
}
use vpn_control_panel.Vpn.ConfigBuilder.{BuildResult}
use vpn_control_panel.Worker.Build.{WorkerContext, build_and_persist_version, version_row}
use vpn_control_panel.Worker.Task.{
  TaskPayload, PublishedTask, config_task_body, run_config_task, fail_task, finish_task,
  process_task, has_handler, reply_of, task_from,
}

-- A build raises and leaves the tables alone, or it inserts one row of the target version.
pub data Builds (i target : ℕ) (db : Db) : Result (Unit {0}) × Db → Type 0 where
  raised : {e : Error} → Builds i target db (err e, db)
  inserted :
      (row : VpnConfigVersionModel)
      → {out : Result (Unit {0}) × Db} → row.config_id ≡ i
      → row.version ≡ target
      → out ≡ insert_version row db
      → Builds i target db out

bind-Builds :
    {A : Type 0} (i target : ℕ) (db : Db) (r : Result A) (f : A → Exec Db (Unit {0}))
    → ((a : A) → Builds i target db (f a db))
    → Builds i target db (continue r db f)
bind-Builds i target db r f h =
    continue-holds (Builds i target db) r db f (λ e. raised) (λ a _. h a)

built :
    (ctx : WorkerContext) (i : ℕ) (profile : ConfigProfile) (target : ℕ) (db : Db) (port : ℕ)
    (r : BuildResult) (d : Json)
    → Builds i target db (insert_version (version_row ctx profile i target port r d) db)
unfolding version_row
built ctx i profile target db port r d =
    inserted (version_row ctx profile i target port r d) refl refl refl

pub build-Builds :
    (ctx : WorkerContext) (i : ℕ) (profile : ConfigProfile) (target : ℕ) (name : String) (db : Db)
    → Builds i target db (build_and_persist_version ctx i profile target name db)
unfolding build_and_persist_version
build-Builds ctx i profile target name db =
    search (bind-Builds i target db, built ctx i profile target db) depth 14

unfoldable pub Stores : ℕ → ℕ → Result (Unit {0}) × Db → Type 0
Stores i v out =
    IsConsistent out.1 × (out.0 ≡ ok tt → is_stored i v out.1.vpn_config_versions ≡ true)

insert_version-Stores :
    (row : VpnConfigVersionModel) (db : Db)
    → IsConsistent db
    → Stores row.config_id row.version (insert_version row db)
unfolding insert_version Stores
insert_version-Stores row db h =
    let added =
      any-append_last (is_version row.config_id row.version) db.vpn_config_versions row
        (ground (arith, ==_refl row.config_id, ==_refl row.version)) in
    (insert_version-Keeps row db h, ground (arith, added))

-- What a build returns without an exception is stored.
pub Builds-Stores :
    (i target : ℕ) (db : Db) (out : Result (Unit {0}) × Db)
    → Builds i target db out
    → IsConsistent db
    → Stores i target out
unfolding Stores
Builds-Stores i target db out (raised {e = e}) h = (h, λ x. ground arith)
Builds-Stores i target db out (inserted row same_id same_version made) h =
    rw made (rw (sym same_id) (rw (sym same_version) (insert_version-Stores row db h)))

module _ (ctx : WorkerContext) (p : TaskPayload) (now : ℕ) where
  activate :
      (out : Result (Unit {0}) × Db)
      → Stores p.config_id p.target_version out
      → IsConsistent (continue out.0 out.1 λ _. mark_active p.config_id p.target_version now).1
  unfolding Stores
  activate (ok _, db) h =
      mark_active-IsConsistent p.config_id now p.target_version db (h.1 refl) h.0
  activate (err e, db) h = h.0

  pub config_task_body-Keeps :
      (profile : ConfigProfile) → Keeps (config_task_body ctx p profile now)
  unfolding config_task_body has_version
  config_task_body-Keeps profile db h =
      elim (Bool-cases (has_version p.config_id p.target_version db)) [
        | inl e ↦ rw e (mark_active-IsConsistent p.config_id now p.target_version db e h)
        | inr e ↦ rw e (
            continue-holds (λ out. IsConsistent out.1) (mark_processing p.config_id now db).0
              (mark_processing p.config_id now db).1 rest
              (λ _. mark_processing-Keeps p.config_id now db h)
              (λ _ _.
                built_and_active (mark_processing p.config_id now db).1
                  (mark_processing-Keeps p.config_id now db h)))
      ]
    where
      rest : Unit {0} → Exec Db (Unit {0})
      rest _ =
          build_and_persist_version ctx p.config_id profile p.target_version p.name
          >> mark_active p.config_id p.target_version now

      built_and_active : (s : Db) → IsConsistent s → IsConsistent (rest tt s).1
      built_and_active s hs =
          let out = build_and_persist_version ctx p.config_id profile p.target_version p.name s in
          activate out (
            Builds-Stores p.config_id p.target_version s out
              (build-Builds ctx p.config_id profile p.target_version p.name s) hs)

  finish_task-Keeps :
      (db : Db) (out : Result (Unit {0}) × Db)
      → IsConsistent db
      → IsConsistent out.1
      → IsConsistent (finish_task p now db out).1
  unfolding fail_task
  finish_task-Keeps db (ok _, db') h h' = h'
  finish_task-Keeps db (err e, db') h h' =
      let failed = mark_failed-Keeps p.config_id now (message e) db h in ground (arith, failed)

  task_from-Keeps : (r : Result ConfigProfile) → Keeps (task_from ctx p now r)
  task_from-Keeps (err e) db h = h
  task_from-Keeps (ok profile) db h =
      finish_task-Keeps db (config_task_body ctx p profile now db) h
        (config_task_body-Keeps profile db h)

  pub run_config_task-Keeps : Keeps (run_config_task ctx p now)
  unfolding run_config_task
  run_config_task-Keeps = task_from-Keeps (parse_profile p.profile)

reply_of-IsConsistent :
    (out : Result (Unit {0}) × Db) → IsConsistent out.1 → IsConsistent (reply_of out).1
reply_of-IsConsistent (ok _, db) h = h
reply_of-IsConsistent (err e, db) h = h

-- One delivery of a task.
pub process_task-IsConsistent :
    (ctx : WorkerContext) (t : PublishedTask) (now : ℕ) (db : Db)
    → IsConsistent db
    → IsConsistent (process_task ctx t now db).1
unfolding process_task
process_task-IsConsistent ctx t now db h = elim (Bool-cases (has_handler t.task_type)) [
  | inl e ↦ rw e (
      reply_of-IsConsistent (run_config_task ctx t.payload now db)
        (run_config_task-Keeps ctx t.payload now db h))
  | inr e ↦ rw e h
]
