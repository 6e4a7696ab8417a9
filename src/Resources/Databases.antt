-- ===== src/Resources/Databases.antt =====
-- The handlers of apps/api/src/routes/databases.ts that queue a job, after their permission check, and
-- `processDatabase` of apps/worker/src/processors/database.ts. Names are ASCII here.
use your_stack.Common.{
  ℕ, ◌+◌, ◌*◌, true, Option, none, some, [], ◌∷◌, ◌++◌, map, ◌==◌, ◌&&◌, ◌||◌, not, find, any,
  update, leb, or_else, if◌then◌else◌, Result, ok, err, AppError,
}
use your_stack.Common.Text.{Text, codes}
use your_stack.Resources.State.{
  DatabaseEngine, postgres, mysql, redis, mongodb, stopped, backing_up, ManagedDatabase,
  DatabaseAction, provision, stop, remove, backup, DatabaseJob, ProvisionSpec, DatabasePayload,
  provision_database, stop_database, remove_database, backup_database, DatabaseCommand,
  DatabaseStore,
}

-- `dbWithWorkspace`
unfoldable pub find_database : ℕ → DatabaseStore → Option ManagedDatabase
find_database id s = find (λ d. d.id == id && not d.deleted) s.databases

unfoldable pub queue_job : ℕ → DatabaseAction → DatabaseStore → DatabaseStore
queue_job id action s = record s { jobs = record { database_id = id; action = action } ∷ s.jobs }

-- `POST /databases/:id/stop`, `/start` (as a provision job) and `/backup`.
unfoldable pub request_action : ℕ → DatabaseAction → DatabaseStore → Result DatabaseStore
unfolding find_database queue_job
request_action id action s = elim (find_database id s) [
  | none ↦ err (AppError.not_found "Database not found")
  | some d ↦ ok (queue_job d.id action s)
]

abbrev pub update_database : ℕ → (ManagedDatabase → ManagedDatabase) → DatabaseStore → DatabaseStore
update_database id f s = record s { databases = update (λ d. d.id == id) f s.databases }

-- `DELETE /databases/:id`
unfoldable pub delete_database : ℕ → DatabaseStore → Result DatabaseStore
unfolding find_database queue_job
delete_database id s = elim (find_database id s) [
  | none ↦ err (AppError.not_found "Database not found")
  | some d ↦ ok (
      queue_job d.id remove
        (update_database id (λ e. record e { deleted = true; status = stopped }) s))
]

abbrev pub default_version : DatabaseEngine → Text
default_version postgres = codes "16"
default_version mysql = codes "8"
default_version redis = codes "7"
default_version mongodb = codes "7"

-- `value || fallback` on texts.
abbrev pub or_text : Text → Text → Text
or_text [] fallback = fallback
or_text (c ∷ s) fallback = c ∷ s

-- A character after `toLowerCase` and the replacement of what is no letter, digit or underscore.
abbrev pub name_char : ℕ → ℕ
name_char c =
    if leb 65 c && leb c 90
    then c + 32
    else if (leb 97 c && leb c 122) || (leb 48 c && leb c 57) || c == 95
    then c
    else 95

abbrev pub db_name_of : Text → Text
db_name_of name = or_text (map name_char name) (codes "app")

module _ (decrypt : Text → Option Text) (text_of : ℕ → Text) where
  -- `db.passwordCipher ? safeDecrypt(ctx, db.passwordCipher) : ''`
  abbrev pub password_of : Option Text → Text
  password_of none = []
  password_of (some []) = []
  password_of (some (c ∷ cipher)) = or_else (decrypt (c ∷ cipher)) []

  abbrev pub container_name_of : ManagedDatabase → Text
  container_name_of db = or_else db.container_name (codes "yourstack-db-" ++ text_of db.id)

  unfoldable pub provision_spec : ManagedDatabase → ProvisionSpec
  provision_spec db = record {
    database_id = db.id;
    engine = db.engine;
    version = or_text db.version (default_version db.engine);
    container_name = container_name_of db;
    db_name = db_name_of db.name;
    username = db.username;
    password = password_of db.password_cipher;
    storage_mb = db.storage_mb;
    cpu = db.cpu;
    memory_mb = db.memory_mb;
    port = or_else db.port 5432;
    network_name = codes "yourstack_db_" ++ text_of db.id;
  }

  unfoldable pub payload_of : DatabaseAction → ManagedDatabase → DatabasePayload
  unfolding provision_spec
  payload_of provision db = provision_database (provision_spec db)
  payload_of stop db = stop_database db.id (container_name_of db)
  payload_of remove db = remove_database db.id (container_name_of db) true
  payload_of backup db = backup_database db.id (container_name_of db) db.engine

  abbrev pub timeout_of : DatabaseAction → Option ℕ
  timeout_of provision = some (10 * 60_000)
  timeout_of _ = none

  -- `createSignedCommand`, which throws where the node is not found.
  unfoldable pub send_command : ℕ → DatabaseAction → ManagedDatabase → DatabaseStore → DatabaseStore
  unfolding payload_of
  send_command node_id action db s =
      let command : DatabaseCommand = record {
        node_id = node_id;
        app_id = db.id;
        timeout_ms = timeout_of action;
        payload = payload_of action db;
      } in
      if any (λ n. n == node_id) s.nodes then record s { commands = command ∷ s.commands } else s

  -- What is written before the command: the name of the container where it has none, and the status of a
  -- backup.
  abbrev pub marked : DatabaseAction → ManagedDatabase → ManagedDatabase → ManagedDatabase
  marked backup db e = record e {
    container_name = some (container_name_of db);
    status = backing_up;
  }
  marked _ db e = record e { container_name = some (container_name_of db) }

  -- `processDatabase` for a database that was found.
  unfoldable pub process_placed :
      Option ℕ → DatabaseAction → ManagedDatabase → DatabaseStore → DatabaseStore
  unfolding send_command
  process_placed none action db s = s
  process_placed (some node_id) action db s =
      send_command node_id action db (update_database db.id (marked action db) s)

  -- `processDatabase`
  unfoldable pub process_database : DatabaseJob → DatabaseStore → DatabaseStore
  unfolding process_placed
  process_database job s = elim (find (λ d. d.id == job.database_id) s.databases) [
    | none ↦ s
    | some db ↦ process_placed db.node_id job.action db s
  ]
