-- ===== src/Worker/Task.antt =====
-- `_run_config_task` of panel/worker/services/config_task.py and `_process_task` of
-- panel/worker/main.py. A session works on a copy of the committed tables: `commit` publishes the
-- copy, `rollback` drops it. One task is one transaction. The heartbeat, which only renews the
-- broker's lock, is left out.
use Prim.Native.String
use vpn_control_panel.Prelude.{
  ℕ, String, Bool, ◌=ˢ◌, ◌||◌, if◌then◌else◌, Error, Result, ok, err, Exec, ◌>>◌, message,
}
use vpn_control_panel.Domain.Enums.{ConfigProfile, VpnProtocolType, parse_profile}
use vpn_control_panel.Persistence.Models.{Db}
use vpn_control_panel.Persistence.Configs.{mark_processing, mark_active, mark_failed, has_version}
use vpn_control_panel.Worker.Build.{WorkerContext, build_and_persist_version}

pub record TaskPayload : Type 0 where
  pub config_id : ℕ
  pub protocol : VpnProtocolType
  pub profile : String
  pub name : String
  pub requested_by : ℕ
  pub target_version : ℕ

pub record PublishedTask : Type 0 where
  pub task_type : String
  pub payload : TaskPayload

-- The body of the `try`, up to its commit.
unfoldable pub config_task_body :
    WorkerContext → TaskPayload → ConfigProfile → ℕ → Exec Db (Unit {0})
unfolding has_version mark_processing mark_active
config_task_body ctx p profile now db =
    if has_version p.config_id p.target_version db
    then mark_active p.config_id p.target_version now db
    else (do
      mark_processing p.config_id now
      build_and_persist_version ctx p.config_id profile p.target_version p.name
      mark_active p.config_id p.target_version now)
        db

abbrev after_mark : Error → Db → Result (Unit {0}) × Db → Result (Unit {0}) × Db
after_mark e db (ok _, db') = (err e, db')
after_mark e db (err e', _) = (err e', db)

-- The `except`: the session's copy is dropped, a new session marks the config as failed, and the
-- exception goes on, or that of `mark_failed` in its place.
unfoldable pub fail_task : TaskPayload → ℕ → Error → Db → Result (Unit {0}) × Db
unfolding mark_failed
fail_task p now e db = after_mark e db (mark_failed p.config_id (message e) now db)

abbrev pub finish_task : TaskPayload → ℕ → Db → Result (Unit {0}) × Db → Result (Unit {0}) × Db
finish_task p now db (ok _, db') = (ok tt, db')
finish_task p now db (err e, _) = fail_task p now e db

abbrev pub task_from : WorkerContext → TaskPayload → ℕ → Result ConfigProfile → Exec Db (Unit {0})
task_from ctx p now (err e) db = (err e, db)
task_from ctx p now (ok profile) db = finish_task p now db (config_task_body ctx p profile now db)

-- From committed tables to committed tables.
unfoldable pub run_config_task : WorkerContext → TaskPayload → ℕ → Exec Db (Unit {0})
unfolding parse_profile config_task_body fail_task
run_config_task ctx p now db = task_from ctx p now (parse_profile p.profile) db

-- What the worker tells the broker.
pub data Reply : Type 0 where
  ack : Reply
  nack : String → Reply

abbrev pub has_handler : String → Bool
has_handler t = t =ˢ "config.initialize" || t =ˢ "config.regenerate"

abbrev pub reply_of : Result (Unit {0}) × Db → Reply × Db
reply_of (ok _, db) = (ack, db)
reply_of (err e, db) = (nack (message e), db)

unfoldable pub process_task : WorkerContext → PublishedTask → ℕ → Db → Reply × Db
unfolding run_config_task
process_task ctx t now db =
    if has_handler t.task_type
    then reply_of (run_config_task ctx t.payload now db)
    else (nack (String.◌++◌ "Unknown task type: " t.task_type), db)
