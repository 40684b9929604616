-- ===== src/Lib.antt =====
-- A verification library of the VPN control panel (panel/): the API creates, regenerates and shares
-- VPN configs, a worker builds them from tasks of a broker, and both work on one database.
--
-- Files and code:
--   Prelude             tests on numbers, lists as tables, results with the program's exceptions, texts
--   Domain              panel/domain/value_objects: Enums, Policy (RegeneratePolicy), PublicHost
--                       (normalize_share_public_host); Settings: the sections of panel/config.py
--   Json                documents as dicts, lists and scalars; Json/Access: the paths into them;
--                       Json/Reading and Json/Editing: what `get`, subscripts and assignments of
--                       Python do on them; Json/FieldCrypto: panel/infrastructure/crypto/config_data.py
--   Persistence         panel/infrastructure/persistence: Models (models.py), Configs
--                       (repositories/vpn_config.py), Shares (share_token.py), RateLimits (rate_limit.py);
--                       Consistency: the invariant of the tables
--   Application         panel/application: Audit (audit_service.py, infrastructure/audit/sanitizer.py),
--                       Login, ConfigUseCases (create_config.py, regenerate_config.py, configs.py),
--                       RegenerateAll (regenerate_all_configs.py), ConfigStatus
--                       (get_config_status.py, get_config_runtime.py, get_config_logs.py),
--                       ConfigData (update_config_data.py), ShareExpiration, ShareUseCases (create, revoke
--                       and resolve shares); Session: the transaction of a request (panel/api/deps.py) and
--                       the broker client; Requests: the handlers that commit refusals; Keeps,
--                       Sharing, Deletion
--   Worker              panel/worker: Build (services/config_build.py), Task (services/config_task.py and
--                       _process_task of main.py); Keeps, Snapshots, Active
--   Vpn                 panel/infrastructure/vpn: PortPicker (port_picker.py), ClientUri
--                       (client_uri.py), ConfigBuilder (config_builder.py, template_loader.py and the
--                       certificates of crypto_utils.py),
--                       Shared443 (nginx_shared_443.py), SystemdUnit (systemd_unit.py,
--                       systemd_reload.py), ServiceRuntime (service_runtime.py, service_logs.py)
--   System              the steps of API, broker and worker over the committed tables
--   Tests               a concrete deployment, and the theorems at it
--
-- State. The tables are lists of rows in one record, Db. A method of a repository takes the tables
-- and gives a result and the tables. A request works on a copy that a commit publishes; a task of the
-- worker is one transaction, which is dropped on an exception before the failure is marked. Ids and
-- times are numbers that are only compared and moved on; those that the interpreter or the database
-- makes are arguments. A step of System is one transaction or one answer of the broker, so that requests
-- interleave and tasks are delivered again; transactions are taken to be serial. The digits of a
-- number are written on fuel, one more than the number, which is more than it has digits, and the
-- pages of RegenerateAll are read on fuel, one page more than there are active configs; nothing else
-- needs fuel.
--
-- Interfaces. The worker sees the profile builder and the control of units through
-- Worker.Build.BuilderOps. The field encryptor, SHA-256 and the token hash, the client URIs as a
-- resolved share shows them, the JSON and YAML parsers, the password check, the making of keys
-- and passwords and the cryptography package (Vpn.ConfigBuilder.BuilderEnv), the files and systemctl
-- (Vpn.SystemdUnit.SystemOps) and the probes (Vpn.ServiceRuntime.RuntimeOps) are records of
-- functions; the bind test of a port and the random choice are functions.
--
-- Documents are trees with text keys: a YAML document whose aliases share a node, or with other keys,
-- is outside of the model, as are the exceptions of the interpreter and the database that the code does
-- not name. A step of System that builds takes its own builder, so that draws and failures differ from
-- one delivery to the next.
--
-- Not modelled: the file writes of the builder (write_files), the readiness loop, the probes of
-- vpn_connectivity.py, templates, the schemas of requests, web pages, command lines and migrations.
pub mod Prelude
pub mod Domain
pub mod Json
pub mod Persistence
pub mod Application
pub mod Worker
pub mod System
pub mod Tests
pub mod Vpn
