-- ===== src/Tests/Engines.antt =====
-- Managed databases.
use your_stack.Common.{
  ◌≡◌, refl, true, false, Option, none, some, [], ◌∷◌, ◌==◌, find, ok, err, AppError,
}
use your_stack.Common.Text.{Text, codes, decimal}
use your_stack.Deploy.{CommandStatus, is_final}
use your_stack.Resources.{
  DatabaseEngine, DatabaseStatus, ManagedDatabase, stop, remove, backup, DatabasePayload,
  DatabaseStore, delete_database, request_action, container_name_of, process_database,
  ResourceTables, ResourceReport,
}
use your_stack.Resources.Lifecycle.{
  report_first, seen, report-process_database, delete_database-remove,
}

abbrev plain : Text → Option Text
plain s = some s

abbrev orders : ManagedDatabase
orders = record {
  id = 4;
  node_id = some 5;
  name = codes "Orders";
  engine = DatabaseEngine.postgres;
  version = codes "16";
  status = DatabaseStatus.running;
  port = some 20100;
  container_name = none;
  container_id = none;
  username = codes "yourstack";
  password_cipher = none;
  storage_mb = 10240;
  cpu = codes "1";
  memory_mb = 1024;
  last_backup_at = none;
  deleted = false;
}

abbrev store : DatabaseStore
store = record { databases = orders ∷ []; nodes = 5 ∷ []; jobs = []; commands = [] }

abbrev no_tables : ResourceTables
no_tables = record {
  databases = [];
  buckets = [];
  functions = [];
  invocations = [];
  runners = [];
  policies = [];
  firewalls = [];
  load_balancers = [];
}

abbrev failure : ResourceReport
failure = record {
  status = CommandStatus.failed;
  container_id = none;
  host_port = none;
  endpoint = none;
  url = none;
  replicas = none;
  duration_ms = none;
  exit_code = none;
}

-- A backup that failed counts as the last backup.
report-process_database_example :
    let done = process_database plain decimal (record { database_id = 4; action = backup }) store in
    let tables =
      report_first done.commands failure 900 (record no_tables { databases = done.databases }) in
    seen (find (λ e. e.id == 4) tables.databases) ≡ some (DatabaseStatus.running, some 900)
unfolding is_final
report-process_database_example =
    report-process_database plain decimal backup orders 5 store no_tables failure 900 refl refl refl
      refl

delete_database-remove_example :
    (later : DatabaseStore) × (delete_database 4 store ≡ ok later)
    × (request_action 4 stop later ≡ err (AppError.not_found "Database not found"))
    × ((process_database plain decimal (record { database_id = 4; action = remove }) later).commands
        ≡ record {
          node_id = 5;
          app_id = 4;
          timeout_ms = none;
          payload = DatabasePayload.remove_database 4 (container_name_of plain decimal orders) true;
        }
          ∷ [])
delete_database-remove_example =
    delete_database-remove plain decimal 5 orders stop store refl refl refl refl
