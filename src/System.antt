-- ===== src/System.antt =====
-- The system of the API (panel/api/routers), the broker and the worker (panel/worker/main.py) over the
-- committed tables. A step is one transaction or one answer of the broker, so that the steps of
-- requests that run at the same time, and of tasks that are delivered again, come in any order. A
-- transaction is taken to see the tables that the last one committed.
pub mod Consistent
use vpn_control_panel.Prelude.{ℕ, String, Option, List, ◌∷◌, ◌++◌, ◌≡◌, Result}
use vpn_control_panel.Domain.Settings.{PanelSettings}
use vpn_control_panel.Domain.Policy.{Flags}
use vpn_control_panel.Persistence.Configs.{RegenerateContext}
use vpn_control_panel.Application.Session.{
  Committed, BrokerReply, publish_task, request, committing_request,
}
use vpn_control_panel.Application.ConfigUseCases.{
  CreateArguments, create_begin, create_end, initialize_task, regenerate_begin, regenerate_end,
  regenerate_task, delete_config, update_policy,
}
use vpn_control_panel.Application.ConfigData.{Parsers, DataRequest, update_config_data}
use vpn_control_panel.Application.ShareUseCases.{
  ShareOps, ShareRequest, ResolveTimes, create_share_link, create_all_share_links, revoke_share,
  revoke_share_by_id,
}
use vpn_control_panel.Application.Login.{SecurityOps}
use vpn_control_panel.Application.Requests.{login_request, resolve_request}
use vpn_control_panel.Worker.Build.{WorkerContext, BuilderOps}
use vpn_control_panel.Worker.Task.{PublishedTask, process_task}

-- What the parts of the system get when they start.
pub record Environment : Type 0 where
  pub worker : WorkerContext
  pub parsers : Parsers
  pub shares : ShareOps
  pub security : SecurityOps

pub data Step (env : Environment) (c : Committed) : Committed → Type 0 where
  create_started :
      (a : CreateArguments) (id now : ℕ)
      → Step env c (request (create_begin env.worker.settings a id now) c).1
  create_published :
      (a : CreateArguments) (id : ℕ) (reply : BrokerReply)
      → Step env c (request (publish_task (initialize_task a id) reply) c).1
  create_finished :
      (a : CreateArguments) (id : ℕ) (host : Option String) (task : String) (now : ℕ)
      → Step env c (request (create_end env.worker.settings a id host task now) c).1
  regenerate_started : (id user now : ℕ) → Step env c (request (regenerate_begin id user now) c).1
  regenerate_published :
      (id user : ℕ) (r : RegenerateContext) (reply : BrokerReply)
      → Step env c (request (publish_task (regenerate_task id user r) reply) c).1
  regenerate_finished :
      (id user target : ℕ) (task : String) (now : ℕ)
      → Step env c (request (regenerate_end env.worker.settings id user target task now) c).1
  -- a queued task, which stays queued until the broker forgets it; what its build draws and meets is
  -- another at each delivery
  delivered :
      (builder : BuilderOps) (before after : List PublishedTask) (t : PublishedTask) (now : ℕ)
      → c.queue ≡ before ++ t ∷ after
      → Step env c
          (record c { db = (process_task (record env.worker { builder = builder }) t now c.db).1 })
  forgotten :
      (before after : List PublishedTask) (t : PublishedTask)
      → c.queue ≡ before ++ t ∷ after
      → Step env c (record c { queue = before ++ after })
  deleted :
      (id user : ℕ) (remove_unit : Result (Unit {0})) (now : ℕ)
      → Step env c
          (committing_request (delete_config env.worker.settings id user remove_unit now) c).1
  policy_updated :
      (id user : ℕ) (flags : Flags) (now : ℕ)
      → Step env c (committing_request (update_policy env.worker.settings id user flags now) c).1
  data_updated :
      (builder : BuilderOps) (id user : ℕ) (r : DataRequest) (now : ℕ)
      → Step env c
          (committing_request
            (update_config_data builder env.parsers env.worker.encryptor env.worker.settings id user
              r now)
            c).1
  shared :
      (id user : ℕ) (r : ShareRequest) (token : String) (share_id now row_now : ℕ)
      → Step env c
          (committing_request
            (create_share_link env.shares env.worker.settings id user r token share_id now row_now)
            c).1
  all_shared :
      (user : ℕ) (r : ShareRequest) (token : String) (share_id now row_now : ℕ)
      → Step env c
          (committing_request
            (create_all_share_links env.shares env.worker.settings user r token share_id now
              row_now)
            c).1
  revoked :
      (token : String) (user now : ℕ)
      → Step env c
          (committing_request (revoke_share env.shares env.worker.settings token user now) c).1
  revoked_by_id :
      (link user now : ℕ)
      → Step env c (committing_request (revoke_share_by_id env.worker.settings link user now) c).1
  resolved :
      (token client_ip : String) (t : ResolveTimes)
      → Step env c
          (resolve_request env.shares env.worker.encryptor env.worker.settings token client_ip t
            c).1
  logged_in :
      (username password client_ip : String) (now : ℕ)
      → Step env c
          (login_request env.security env.worker.settings username password client_ip now c).1

-- Any number of steps.
pub data Run (env : Environment) (c : Committed) : Committed → Type 0 where
  here : Run env c c
  next : {d e : Committed} → Run env c d → Step env d e → Run env c e
