-- ===== src/Worker/Snapshots.antt =====
-- What a version row and its config say to a client never changes by a task: a share that is pinned to
-- a version gives the same answer after any delivery of any task.
use vpn_control_panel.Prelude.{
  ℕ, String, ◌≡◌, refl, Option, none, some, List, [], ◌∷◌, ◌++◌, arith, Exec, continue,
  continue-holds, Result, ok, err, Bool-cases, inl, inr, find?, find?-append, modify, sym, ◌∙◌,
  message,
}
use vpn_control_panel.Domain.Enums.{ConfigProfile, parse_profile}
use vpn_control_panel.Persistence.Models.{Db, VpnConfigModel, VpnConfigVersionModel}
use vpn_control_panel.Persistence.Configs.{
  has_id, is_version, write_model, write_or_raise, get_any_model, find_version, has_version,
  insert_version, mark_processing, mark_active, mark_failed, as_processing, as_active, as_failed,
}
use vpn_control_panel.Persistence.Configs.Queries.{
  ConfigVersionSnapshot, snapshot_of, get_version_snapshot,
}
use vpn_control_panel.Worker.Build.{WorkerContext, build_and_persist_version}
use vpn_control_panel.Worker.Task.{
  TaskPayload, PublishedTask, config_task_body, run_config_task, fail_task, finish_task, task_from,
  process_task, has_handler, reply_of,
}
use vpn_control_panel.Worker.Keeps.{Builds, raised, inserted, build-Builds}

module _ (i v : ℕ) where
  abbrev pub snapshot :
      Option VpnConfigModel → Option VpnConfigVersionModel → Option ConfigVersionSnapshot
  snapshot none r = none
  snapshot (some m) none = none
  snapshot (some m) (some r) = some (snapshot_of i m r)

  pub snapshot_lem :
      (db : Db) → get_version_snapshot i v db ≡ snapshot (get_any_model i db) (find_version i v db)
  unfolding get_version_snapshot
  snapshot_lem db =
      elim (get_any_model i db)
        as (λ o.
          elim o [
            | none ↦ none
            | some m ↦ elim (find_version i v db) [
              | none ↦ none
              | some r ↦ some (snapshot_of i m r)
            ]
          ]
          ≡ snapshot o (find_version i v db)) [ none ↦ refl | some m ↦ ground arith ]

  -- A write to columns that no snapshot shows.
  pub snapshot-modify :
      (j : ℕ) (f : VpnConfigModel → VpnConfigModel)
      → ((m : VpnConfigModel) → (f m).id ≡ m.id)
      → ((m : VpnConfigModel) (r : VpnConfigVersionModel)
          → snapshot_of i (f m) r ≡ snapshot_of i m r)
      → (rows : List VpnConfigModel) (o : Option VpnConfigVersionModel)
      → snapshot (find? (has_id i) (modify (has_id j) f rows)) o
        ≡ snapshot (find? (has_id i) rows) o
  snapshot-modify j f same shows [] o = refl
  snapshot-modify j f same shows (x ∷ xs) none =
      ground (arith, same x, snapshot-modify j f same shows xs none)
  snapshot-modify j f same shows (x ∷ xs) (some r) =
      ground (arith, same x, shows x r, snapshot-modify j f same shows xs (some r))

  module _ (s : ConfigVersionSnapshot) where
    abbrev pub Shows : Db → Type 0
    Shows db = get_version_snapshot i v db ≡ some s

    write_or_raise-Shows :
        (o : Option VpnConfigModel) (f : VpnConfigModel → VpnConfigModel)
        → ((m : VpnConfigModel) → (f m).id ≡ m.id)
        → ((m : VpnConfigModel) (r : VpnConfigVersionModel)
            → snapshot_of i (f m) r ≡ snapshot_of i m r)
        → (db : Db) → Shows db
        → Shows (write_or_raise o f db).1
    unfolding write_or_raise write_model get_any_model find_version
    write_or_raise-Shows none f same shows db h = h
    write_or_raise-Shows (some m) f same shows db h =
        snapshot_lem (write_model m.id f db)
        ∙ snapshot-modify m.id f same shows db.vpn_configs (find_version i v db)
        ∙ sym (snapshot_lem db)
        ∙ h

    snapshot-insert :
        (o : Option VpnConfigModel) (rows : List VpnConfigVersionModel)
        (row : VpnConfigVersionModel)
        → snapshot o (find? (is_version i v) rows) ≡ some s
        → snapshot o (find? (is_version i v) (rows ++ row ∷ [])) ≡ some s
    snapshot-insert none rows row h = h
    snapshot-insert (some m) rows row h =
        ground (arith, h, find?-append (is_version i v) rows (row ∷ []))

    insert_version-Shows :
        (row : VpnConfigVersionModel) (db : Db) → Shows db → Shows (insert_version row db).1
    unfolding insert_version find_version
    insert_version-Shows row db h =
        let db' = record db { vpn_config_versions = db.vpn_config_versions ++ row ∷ [] } in
        let grown =
          snapshot_lem db'
          ∙ snapshot-insert (get_any_model i db) db.vpn_config_versions row
              (sym (snapshot_lem db) ∙ h) in
        ground (arith, grown)

    Builds-Shows :
        (j target : ℕ) (db : Db) (out : Result (Unit {0}) × Db)
        → Builds j target db out
        → Shows db
        → Shows out.1
    Builds-Shows j target db out raised h = h
    Builds-Shows j target db out (inserted row same_id same_version made) h =
        rw made (insert_version-Shows row db h)

    build-Shows :
        (ctx : WorkerContext) (j : ℕ) (profile : ConfigProfile) (target : ℕ) (name : String)
        (db : Db)
        → Shows db
        → Shows (build_and_persist_version ctx j profile target name db).1
    build-Shows ctx j profile target name db h =
        Builds-Shows j target db (build_and_persist_version ctx j profile target name db)
          (build-Builds ctx j profile target name db) h

    bind-Shows :
        {A B : Type 0} (r : Result A) (db : Db) (f : A → Exec Db B)
        → Shows db
        → ((a : A) → Shows (f a db).1)
        → Shows (continue r db f).1
    bind-Shows r db f h goes = continue-holds (λ out. Shows out.1) r db f (λ _. h) (λ a _. goes a)

    module _ (now j : ℕ) (db : Db) (h : Shows db) where
      mark_processing-Shows : Shows (mark_processing j now db).1
      unfolding mark_processing
      mark_processing-Shows =
          write_or_raise-Shows (get_any_model j db) (as_processing now) (λ m. refl) (λ m r. refl) db
            h

      mark_active-Shows : (version : ℕ) → Shows (mark_active j version now db).1
      unfolding mark_active
      mark_active-Shows version =
          write_or_raise-Shows (get_any_model j db) (as_active version now) (λ m. refl)
            (λ m r. refl) db h

      mark_failed-Shows : (text : String) → Shows (mark_failed j text now db).1
      unfolding mark_failed
      mark_failed-Shows text =
          write_or_raise-Shows (get_any_model j db) (as_failed text now) (λ m. refl) (λ m r. refl)
            db h

    module _ (ctx : WorkerContext) (p : TaskPayload) (now : ℕ) (db : Db) (h : Shows db) where
      config_task_body-Shows :
          (profile : ConfigProfile) → Shows (config_task_body ctx p profile now db).1
      unfolding config_task_body has_version
      config_task_body-Shows profile =
          elim (Bool-cases (has_version p.config_id p.target_version db)) [
            | inl e ↦ rw e (mark_active-Shows now p.config_id db h p.target_version)
            | inr e ↦
                rw e (search (bind-Shows, mark_processing-Shows, build-Shows, mark_active-Shows))
          ]

      finish_task-Shows :
          (out : Result (Unit {0}) × Db) → Shows out.1 → Shows (finish_task p now db out).1
      unfolding fail_task
      finish_task-Shows (ok _, db') h' = h'
      finish_task-Shows (err e, db') h' =
          let marked = mark_failed-Shows now p.config_id db h (message e) in ground (arith, marked)

      task_from-Shows : (r : Result ConfigProfile) → Shows (task_from ctx p now r db).1
      task_from-Shows (err e) = h
      task_from-Shows (ok profile) =
          finish_task-Shows (config_task_body ctx p profile now db) (config_task_body-Shows profile)

    reply_of-Shows : (out : Result (Unit {0}) × Db) → Shows out.1 → Shows (reply_of out).1
    reply_of-Shows (ok _, db) h = h
    reply_of-Shows (err e, db) h = h

    -- A snapshot of a stored version is the same after a delivery of any task, the failed and the
    -- repeated ones included.
    pub process_task-get_version_snapshot :
        (ctx : WorkerContext) (t : PublishedTask) (now : ℕ) (db : Db)
        → get_version_snapshot i v db ≡ some s
        → get_version_snapshot i v (process_task ctx t now db).1 ≡ some s
    unfolding process_task run_config_task
    process_task-get_version_snapshot ctx t now db h = elim (Bool-cases (has_handler t.task_type)) [
      | inl e ↦ rw e (
          reply_of-Shows (run_config_task ctx t.payload now db)
            (task_from-Shows ctx t.payload now db h (parse_profile t.payload.profile)))
      | inr e ↦ rw e h
    ]
