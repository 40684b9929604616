-- ===== src/Tests/Runs.antt =====
-- The theorems on the tables at a concrete run: a config is created and built, and a regeneration of
-- it is requested.
use vpn_control_panel.Prelude.{String, Result, if◌then◌else◌, false}
use vpn_control_panel.Prelude.{config_not_found}
use vpn_control_panel.Persistence.Configs.Queries.{soft_delete, get_by_id}
use vpn_control_panel.Application.ConfigData.{get_config_data}
use vpn_control_panel.Application.Deletion.{soft_delete-get_by_id}
use vpn_control_panel.Json.{Json, str, obj, field, end}
use vpn_control_panel.Application.Session.{committing_request}
use vpn_control_panel.Application.ConfigData.{DataRequest, update_config_data}
use vpn_control_panel.Application.ConfigData.Update.{IsReadBack, update_config_data-get_config_data}
use vpn_control_panel.Tests.{encryptor, encryptor-IsFaithful}
use vpn_control_panel.Prelude.{arith, ◌≡◌, ◌+◌, refl, none, some, [], err, config_not_regeneratable}
use vpn_control_panel.Domain.Enums.{ConfigProfile, VpnProtocolType}
use vpn_control_panel.Persistence.Models.{Db}
use vpn_control_panel.Persistence.Configs.{RegenerateContext}
use vpn_control_panel.Persistence.Configs.Queries.{ConfigVersionSnapshot, get_version_snapshot}
use vpn_control_panel.Persistence.RateLimits.{
  current_count, check_and_increment, upsert, find_entry,
}
use vpn_control_panel.Persistence.Consistency.{IsConsistent}
use vpn_control_panel.Application.Session.{Committed, accepted, request, publish_task, open_session}
use vpn_control_panel.Application.ConfigUseCases.{
  create_begin, create_end, initialize_task, regenerate_begin, regenerate_task,
}
use vpn_control_panel.Application.RegenerateAll.{Answers, regenerate_all}
use vpn_control_panel.Application.RegenerateAll.Counting.{active_count}
use vpn_control_panel.Application.RegenerateAll.Tried.{HasTried, regenerate_all-HasTried}
use vpn_control_panel.Application.ConfigUseCases.Busy.{regenerate_begin-busy}
use vpn_control_panel.Application.Requests.{login_request}
use vpn_control_panel.Application.Requests.Counted.{is_uncaught, login_request-current_count}
use vpn_control_panel.Application.Audit.{audit_log}
use vpn_control_panel.Worker.Build.{build_and_persist_version}
use vpn_control_panel.Worker.Task.{PublishedTask, process_task}
use vpn_control_panel.Worker.Active.{IsReady, process_task-IsReady}
use vpn_control_panel.Worker.Snapshots.{process_task-get_version_snapshot}
use vpn_control_panel.System.{
  Run, here, next, create_started, create_published, create_finished, delivered,
}
use vpn_control_panel.System.Consistent.{Run-IsConsistent}
use vpn_control_panel.Tests.{
  environment, settings, worker, start, arguments, empty_db-IsConsistent, built_data,
}

abbrev task : PublishedTask
task = initialize_task arguments 7

abbrev begun : Committed
unfolding create_begin
begun = (request (create_begin settings arguments 7 100) start).1

abbrev published : Committed
unfolding publish_task
published = (request (publish_task task (accepted "t1")) begun).1

abbrev created : Committed
unfolding create_end
created = (request (create_end settings arguments 7 none "t1" 101) published).1

abbrev built_db : Db
unfolding process_task
built_db = (process_task worker task 110 created.db).1

abbrev active : Committed
active = record created { db = built_db }

created-Run : Run environment start created
unfolding create_begin publish_task create_end
created-Run =
    next
      (next (next here (create_started arguments 7 100))
        (create_published arguments 7 (accepted "t1")))
      (create_finished arguments 7 none "t1" 101)

active-Run : Run environment start active
unfolding process_task publish_task create_begin create_end
active-Run = next created-Run (delivered worker.builder [] [] task 110 refl)

Run-IsConsistent_example : IsConsistent active.db
Run-IsConsistent_example =
    Run-IsConsistent environment start active active-Run empty_db-IsConsistent

process_task-IsReady_example : IsReady 7 1 built_db
unfolding process_task create_begin publish_task create_end audit_log build_and_persist_version
process_task-IsReady_example =
    process_task-IsReady worker task 110 created.db
      (Run-IsConsistent environment start created created-Run empty_db-IsConsistent) refl

abbrev context : RegenerateContext
context = record {
  protocol = VpnProtocolType.xray;
  profile = ConfigProfile.xray_reality;
  name = "home";
  target_version = 2;
}

abbrev first_snapshot : ConfigVersionSnapshot
first_snapshot = record {
  config_id = 7;
  protocol = VpnProtocolType.xray;
  profile = ConfigProfile.xray_reality;
  name = "home";
  version = 1;
  port = 443;
  public_key = "public";
  cert_fingerprint = "public";
  config_data = built_data;
  share_public_host = none;
}

process_task-get_version_snapshot_example :
    get_version_snapshot 7 1 (process_task worker (regenerate_task 7 1 context) 130 active.db).1
    ≡ some first_snapshot
unfolding get_version_snapshot process_task create_begin publish_task create_end audit_log
    build_and_persist_version
process_task-get_version_snapshot_example =
    process_task-get_version_snapshot 7 1 first_snapshot worker (regenerate_task 7 1 context) 130
      active.db refl

regenerate_begin-busy_example :
    request (regenerate_begin 7 1 121) (request (regenerate_begin 7 1 120) active).1 ≡ (
      err (config_not_regeneratable "Config is busy"),
      (request (regenerate_begin 7 1 120) active).1,
    )
unfolding regenerate_begin process_task create_begin publish_task create_end audit_log
    build_and_persist_version
regenerate_begin-busy_example = regenerate_begin-busy 7 1 120 1 121 active context refl

abbrev answers : Answers
answers = record { now = λ id. 160; reply = λ id. accepted "t2"; task_now = λ id. 161 }

regenerate_all-HasTried_example :
    HasTried 1 (regenerate_all settings 1 answers 2 (open_session active)).0
unfolding active_count process_task create_begin publish_task create_end audit_log
    build_and_persist_version
regenerate_all-HasTried_example =
    regenerate_all-HasTried settings 1 answers 2 (open_session active) (omega arith)

abbrev refused_login : Result String × Committed
unfolding login_request
refused_login = login_request environment.security settings "admin" "wrong" "10.0.0.1" 1000 start

login_request-current_count_example :
    current_count "login" "ip:10.0.0.1" 60 1000 refused_login.1.db ≡ (
      if is_uncaught refused_login.0
      then current_count "login" "ip:10.0.0.1" 60 1000 start.db
      else current_count "login" "ip:10.0.0.1" 60 1000 start.db + 1)
unfolding login_request
login_request-current_count_example =
    login_request-current_count environment.security settings "admin" "wrong" "10.0.0.1" 1000 start

-- The refusal of a wrong password is caught.
refused_login-is_uncaught : is_uncaught refused_login.0 ≡ false
unfolding is_uncaught login_request check_and_increment upsert find_entry
refused_login-is_uncaught = refl

abbrev new_data : Json
new_data = obj (field "log" (str "none") end)

abbrev request_body : DataRequest
request_body = record { config_data = some new_data; content = none; format = none }

update_config_data-get_config_data_example :
    IsReadBack environment.parsers encryptor 7 request_body 1
      (committing_request
        (update_config_data worker.builder environment.parsers encryptor settings 7 1 request_body
          140)
        active).1.db
unfolding update_config_data process_task create_begin publish_task create_end audit_log
    build_and_persist_version
update_config_data-get_config_data_example =
    update_config_data-get_config_data worker.builder environment.parsers encryptor settings 7 1
      request_body 140 active (1, new_data) encryptor-IsFaithful refl

soft_delete-get_by_id_example :
    (get_by_id 7 (soft_delete 7 1 150 active.db).1 ≡ none)
    × (get_config_data encryptor 7 (soft_delete 7 1 150 active.db).1 ≡ err config_not_found)
    × (get_version_snapshot 7 1 (soft_delete 7 1 150 active.db).1
        ≡ get_version_snapshot 7 1 active.db)
unfolding soft_delete process_task create_begin publish_task create_end audit_log
    build_and_persist_version
soft_delete-get_by_id_example = soft_delete-get_by_id 7 1 150 active.db encryptor 7 1 refl
