-- ===== src/Application/Session.antt =====
-- The session of a request (panel/api/deps.py, persistence/database.py) and the client of the broker
-- (panel/infrastructure/broker/http_client.py). A session works on a copy of the committed tables;
-- `commit` publishes the copy, and the end of the request drops what was not committed. The
-- broker's queue is the list of the tasks that it has accepted.
use vpn_control_panel.Prelude.{ℕ, String, some, List, [], ◌∷◌, ◌++◌, Error, Result, ok, err, Exec}
use vpn_control_panel.Json.{Json}
use vpn_control_panel.Domain.Settings.{PanelSettings}
use vpn_control_panel.Persistence.Models.{Db}
use vpn_control_panel.Application.Audit.{audit_log}
use vpn_control_panel.Worker.Task.{PublishedTask}

pub record Committed : Type 0 where
  pub db : Db
  pub queue : List PublishedTask

pub record World : Type 0 where
  pub committed : Db
  pub session : Db
  pub queue : List PublishedTask

abbrev pub on_session : {A : Type 0} → Exec Db A → Exec World A
on_session m w = let r = m w.session in (r.0, record w { session = r.1 })

abbrev pub read_session : {A : Type 0} → (Db → Result A) → Exec World A
read_session f w = (f w.session, w)

abbrev pub write_session : (Db → Db) → Exec World (Unit {0})
write_session f w = (ok tt, record w { session = f w.session })

abbrev pub commit : Exec World (Unit {0})
commit w = (ok tt, record w { committed = w.session })

-- What the broker answers to a publication: an id; a refusal; or it takes the task and the answer is
-- lost, as on a timeout.
pub data BrokerReply : Type 0 where
  accepted : String → BrokerReply
  refused lost : Error → BrokerReply

unfoldable pub publish_task : PublishedTask → BrokerReply → Exec World String
publish_task t (accepted id) w = (ok id, record w { queue = w.queue ++ t ∷ [] })
publish_task t (refused e) w = (err e, w)
publish_task t (lost e) w = (err e, record w { queue = w.queue ++ t ∷ [] })

abbrev pub audit : PanelSettings → String → Json → ℕ → Exec World (Unit {0})
audit settings event payload user w =
    (ok tt, record w { session = audit_log settings event payload (some user) w.session })

abbrev pub open_session : Committed → World
open_session c = record { committed = c.db; session = c.db; queue = c.queue }

abbrev pub close_session : World → Committed
close_session w = record { db = w.committed; queue = w.queue }

abbrev pub committed_on_ok : {A : Type 0} → Result A × World → Result A × World
committed_on_ok (ok a, w) = (ok a, record w { committed = w.session })
committed_on_ok (err e, w) = (err e, w)

-- A request whose use case makes its own commits.
abbrev pub request : {A : Type 0} → Exec World A → Exec Committed A
request m c = let r = m (open_session c) in (r.0, close_session r.1)

-- A request whose router commits when the use case returns.
abbrev pub committing_request : {A : Type 0} → Exec World A → Exec Committed A
committing_request m c = let r = committed_on_ok (m (open_session c)) in (r.0, close_session r.1)
