-- ===== src/Resources/Lifecycle.antt =====
-- A database from a job to the report on its command, and after its deletion.
use your_stack.Common.{
  ℕ, ◌≡◌, refl, ◌∙◌, ap, Bool, true, false, Option, none, some, List, [], ◌∷◌, ◌==◌, ◌&&◌, not,
  find, find-update, any, update, arith, if◌then◌else◌, ok, err, AppError,
}
use your_stack.Common.Text.{Text}
use your_stack.Deploy.{is_final}
use your_stack.Resources.State.{
  DatabaseStatus, ManagedDatabase, DatabaseAction, provision, stop, remove, backup, DatabasePayload,
  DatabaseCommand, DatabaseStore,
}
use your_stack.Resources.Databases.{
  find_database, update_database, queue_job, request_action, delete_database, container_name_of,
  marked, payload_of, timeout_of, send_command, process_placed, process_database, provision_spec,
}
use your_stack.Resources.Reports.{
  ResourceTables, ResourceCommand, ResourceReport, is_ok, apply_resource_result, report_resource,
}

-- What the handler of the report reads of a command's payload.
abbrev pub reported : DatabasePayload → ResourceCommand
reported (DatabasePayload.provision_database spec) =
    ResourceCommand.provision_database spec.database_id
reported (DatabasePayload.stop_database id name) = ResourceCommand.stop_database id
reported (DatabasePayload.remove_database id name volume) = ResourceCommand.remove_database id
reported (DatabasePayload.backup_database id name engine) = ResourceCommand.backup_database id

abbrev pub report_first :
    List DatabaseCommand → ResourceReport → ℕ → ResourceTables → ResourceTables
report_first [] r now t = t
report_first (c ∷ cs) r now t = report_resource (reported c.payload) r now t

-- The status of a database and the time of its last backup once the report on an action is in.
abbrev pub outcome : DatabaseAction → Bool → ℕ → ManagedDatabase → DatabaseStatus × Option ℕ
outcome provision done now d =
    (if done then DatabaseStatus.running else DatabaseStatus.failed, d.last_backup_at)
outcome stop done now d =
    (if done then DatabaseStatus.stopped else DatabaseStatus.failed, d.last_backup_at)
outcome remove done now d = (d.status, d.last_backup_at)
outcome backup done now d = (DatabaseStatus.running, some now)

abbrev pub seen : Option ManagedDatabase → Option (DatabaseStatus × Option ℕ)
seen none = none
seen (some d) = some (d.status, d.last_backup_at)

module _ (decrypt : Text → Option Text) (text_of : ℕ → Text) where
  marked-id :
      (action : DatabaseAction) (d e : ManagedDatabase)
      → (marked decrypt text_of action d e).id ≡ e.id
  marked-id provision d e = refl
  marked-id stop d e = refl
  marked-id remove d e = refl
  marked-id backup d e = refl

  -- What a job for a database on a node that exists leaves.
  abbrev after_job : DatabaseAction → ManagedDatabase → ℕ → DatabaseStore → DatabaseStore
  unfolding payload_of
  after_job action d node_id s = record s {
    databases = update (λ e. e.id == d.id) (marked decrypt text_of action d) s.databases;
    commands =
        record {
          node_id = node_id;
          app_id = d.id;
          timeout_ms = timeout_of decrypt text_of action;
          payload = payload_of decrypt text_of action d;
        }
        ∷ s.commands;
  }

  process_database-after_job :
      (action : DatabaseAction) (d : ManagedDatabase) (node_id : ℕ) (s : DatabaseStore)
      → find (λ e. e.id == d.id) s.databases ≡ some d
      → d.node_id ≡ some node_id
      → any (λ n. n == node_id) s.nodes ≡ true
      → process_database decrypt text_of (record { database_id = d.id; action = action }) s
        ≡ after_job action d node_id s
  unfolding process_database process_placed send_command
  process_database-after_job action d node_id s found on stands =
      let placed : process_database decrypt text_of (record { database_id = d.id; action = action })
            s
          ≡ process_placed decrypt text_of d.node_id action d s =
        rw (found, process_database) refl in
      placed ∙ ap (λ o. process_placed decrypt text_of o action d s) on ∙ rw stands refl

  marked_row :
      (action : DatabaseAction) (d : ManagedDatabase) (rows : List ManagedDatabase)
      → find (λ e. e.id == d.id) rows ≡ some d
      → find (λ e. e.id == d.id) (update (λ e. e.id == d.id) (marked decrypt text_of action d) rows)
        ≡ some (marked decrypt text_of action d d)
  marked_row action d rows found =
      find-update (λ e. e.id == d.id) (marked decrypt text_of action d) rows d
        (λ e. ap (λ n. n == d.id) (marked-id action d e)) found

  settled :
      (action : DatabaseAction) (d : ManagedDatabase) (node_id : ℕ) (s : DatabaseStore)
      (t : ResourceTables) (r : ResourceReport) (now : ℕ)
      → find (λ e. e.id == d.id) s.databases ≡ some d
      → is_final r.status ≡ true
      → let done = after_job action d node_id s in
        let tables = report_first done.commands r now (record t { databases = done.databases }) in
        seen (find (λ e. e.id == d.id) tables.databases)
        ≡ some (outcome action (is_ok r.status) now d)
  unfolding report_resource apply_resource_result payload_of provision_spec
  settled provision d node_id s t r now found final = rw final (
      ap seen (
        find-update (λ e. e.id == d.id) _ _ _ (λ e. refl)
          (marked_row provision d s.databases found)))
  settled stop d node_id s t r now found final = rw final (
      ap seen
        (find-update (λ e. e.id == d.id) _ _ _ (λ e. refl) (marked_row stop d s.databases found)))
  settled remove d node_id s t r now found final =
      rw final (ap seen (marked_row remove d s.databases found))
  settled backup d node_id s t r now found final = rw final (
      ap seen
        (find-update (λ e. e.id == d.id) _ _ _ (λ e. refl) (marked_row backup d s.databases found)))

  -- A job for a database whose node exists, and then the final report on its command, put the database
  -- into the state of the outcome: running or failed after a provision, stopped or failed after a stop,
  -- as it was after a removal, and after a backup running with the time of the report as that of its last
  -- backup, whether the backup succeeded or not.
  pub report-process_database :
      (action : DatabaseAction) (d : ManagedDatabase) (node_id : ℕ) (s : DatabaseStore)
      (t : ResourceTables) (r : ResourceReport) (now : ℕ)
      → find (λ e. e.id == d.id) s.databases ≡ some d
      → d.node_id ≡ some node_id
      → any (λ n. n == node_id) s.nodes ≡ true
      → is_final r.status ≡ true
      → let done =
          process_database decrypt text_of (record { database_id = d.id; action = action }) s in
        let tables = report_first done.commands r now (record t { databases = done.databases }) in
        seen (find (λ e. e.id == d.id) tables.databases)
        ≡ some (outcome action (is_ok r.status) now d)
  unfolding report_resource apply_resource_result payload_of provision_spec
  report-process_database action d node_id s t r now found on stands final =
      rw (process_database-after_job action d node_id s found on stands)
        (settled action d node_id s t r now found final)

find-live :
    (id : ℕ) (rows : List ManagedDatabase) (d : ManagedDatabase)
    → find (λ e. e.id == id) rows ≡ some d
    → d.deleted ≡ false
    → find (λ e. e.id == id && not e.deleted) rows ≡ some d
find-live id [] d found live = absurd (cc found)
find-live id (e ∷ rows) d found live =
    ground (arith, found, live, ap (λ x. x.deleted) {x = e} {y = d}, find-live id rows d)

abbrev retired : ManagedDatabase → ManagedDatabase
retired d = record d { deleted = true; status = DatabaseStatus.stopped }

find-retired :
    (id : ℕ) (rows : List ManagedDatabase)
    → find (λ e. e.id == id && not e.deleted) (update (λ e. e.id == id) retired rows) ≡ none
find-retired id [] = refl
find-retired id (e ∷ rows) = ground (arith, find-retired id rows)

-- A database that a request deleted is found by no further request for an action, and its remove job
-- queues the command that removes its container and volume: the database was there and not deleted, and
-- stands on a node that exists.
pub delete_database-remove :
    (decrypt : Text → Option Text) (text_of : ℕ → Text) (node_id : ℕ) (d : ManagedDatabase)
    (action : DatabaseAction) (s : DatabaseStore)
    → find (λ e. e.id == d.id) s.databases ≡ some d
    → d.deleted ≡ false
    → d.node_id ≡ some node_id
    → any (λ n. n == node_id) s.nodes ≡ true
    → (later : DatabaseStore) × (delete_database d.id s ≡ ok later)
      × (request_action d.id action later ≡ err (AppError.not_found "Database not found"))
      × ((process_database decrypt text_of
            (record { database_id = d.id; action = remove })
            later).commands
          ≡ record {
            node_id = node_id;
            app_id = d.id;
            timeout_ms = none;
            payload =
                DatabasePayload.remove_database d.id (container_name_of decrypt text_of d) true;
          }
            ∷ s.commands)
unfolding payload_of delete_database request_action find_database queue_job
delete_database-remove decrypt text_of node_id d action s found live on stands =
    let later = queue_job d.id remove (update_database d.id retired s) in
    let same : find (λ e. e.id == d.id) later.databases ≡ some (retired d) =
      find-update (λ e. e.id == d.id) retired s.databases d (λ e. refl) found in
    (
      later,
      rw (find-live d.id s.databases d found live, delete_database) refl,
      rw (find-retired d.id s.databases, request_action) refl,
      ap (λ x. x.commands)
          (process_database-after_job decrypt text_of remove (retired d) node_id later same on
            stands),
    )
