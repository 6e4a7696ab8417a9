-- ===== src/Resources/Reports.antt =====
-- `applyResourceResult` of apps/api/src/services/command-result.service.ts, with the test of
-- `applyCommandResult` before it. Where a row that has to be there is missing the update throws, which
-- changes nothing either.
use your_stack.Common.{
  ℕ, Bool, true, false, Option, none, some, List, ◌∷◌, ◌==◌, update, or_else, if◌then◌else◌,
}
use your_stack.Common.Text.{Text}
use your_stack.Deploy.{CommandStatus, is_final}
use your_stack.Network.{FirewallRow, FirewallStatus, LoadBalancer, LbStatus, ContainerName}
use your_stack.Scaling.{Runner, RunnerStatus}
use your_stack.Resources.State.{
  DatabaseStatus, BucketStatus, FunctionStatus, ManagedDatabase, StorageBucket, ServerlessFunction,
  FunctionInvocation,
}

-- The replicas in the scaling policy of an app.
pub record PolicyRow : Type 0 where
  pub app_id : ℕ
  pub current_replicas : ℕ

pub record ResourceTables : Type 0 where
  pub databases : List ManagedDatabase
  pub buckets : List StorageBucket
  pub functions : List ServerlessFunction
  pub invocations : List FunctionInvocation
  pub runners : List Runner
  pub policies : List PolicyRow
  pub firewalls : List FirewallRow
  pub load_balancers : List LoadBalancer

-- The commands on managed resources, with what the report's handler reads of their specs.
pub data ResourceCommand : Type 0 where
  provision_database : (database_id : ℕ) → ResourceCommand
  stop_database : (database_id : ℕ) → ResourceCommand
  remove_database : (database_id : ℕ) → ResourceCommand
  backup_database : (database_id : ℕ) → ResourceCommand
  provision_storage : (bucket_id : ℕ) → ResourceCommand
  remove_storage : (bucket_id : ℕ) → ResourceCommand
  deploy_function : (function_id : ℕ) → ResourceCommand
  invoke_function : (function_id : ℕ) → ResourceCommand
  remove_function : (function_id : ℕ) → ResourceCommand
  register_runner : (runner_id : ℕ) → ResourceCommand
  deregister_runner : (runner_id : ℕ) → ResourceCommand
  scale_app : (app_id replicas : ℕ) → ResourceCommand
  configure_firewall : (firewall_id : ℕ) → ResourceCommand
  provision_lb : (load_balancer_id : ℕ) (container_name : ContainerName) → ResourceCommand
  remove_lb : (load_balancer_id : ℕ) → ResourceCommand

pub record ResourceReport : Type 0 where
  pub status : CommandStatus
  pub container_id : Option Text
  pub host_port : Option ℕ
  pub endpoint : Option Text
  pub url : Option Text
  pub replicas : Option ℕ
  pub duration_ms : Option ℕ
  pub exit_code : Option ℕ

abbrev pub is_ok : CommandStatus → Bool
is_ok CommandStatus.succeeded = true
is_ok _ = false

-- A column that is left as it is where the report gives no value.
abbrev pub or_keep {ℓ} : {A : Type ℓ} → Option A → Option A → Option A
or_keep none old = old
or_keep (some new) old = some new

abbrev pub set_databases : ℕ → (ManagedDatabase → ManagedDatabase) → ResourceTables → ResourceTables
set_databases id f t = record t { databases = update (λ d. d.id == id) f t.databases }

-- `REGISTER_RUNNER` and `DEREGISTER_RUNNER`
abbrev pub set_runner : ℕ → RunnerStatus → ResourceTables → ResourceTables
set_runner id status t = record t {
  runners = update (λ r. r.id == id) (λ r. record r { status = status }) t.runners;
}

unfoldable pub apply_resource_result :
    ResourceCommand → ResourceReport → ℕ → ResourceTables → ResourceTables
apply_resource_result (provision_database id) r now t =
    set_databases id
      (λ d. record d {
        status = if is_ok r.status then DatabaseStatus.running else DatabaseStatus.failed;
        container_id = or_keep r.container_id d.container_id;
        port = or_keep r.host_port d.port;
      })
      t
apply_resource_result (stop_database id) r now t =
    set_databases id
      (λ d. record d {
        status = if is_ok r.status then DatabaseStatus.stopped else DatabaseStatus.failed;
      })
      t
apply_resource_result (backup_database id) r now t =
    set_databases id (λ d. record d { last_backup_at = some now; status = DatabaseStatus.running })
      t
apply_resource_result (provision_storage id) r now t = record t {
  buckets =
      update (λ b. b.id == id)
        (λ b. record b {
          status = if is_ok r.status then BucketStatus.active else BucketStatus.failed;
          endpoint = or_keep r.endpoint b.endpoint;
        })
        t.buckets;
}
apply_resource_result (deploy_function id) r now t = record t {
  functions =
      update (λ f. f.id == id)
        (λ f. record f {
          status = if is_ok r.status then FunctionStatus.active else FunctionStatus.failed;
          url = or_keep r.url f.url;
        })
        t.functions;
}
apply_resource_result (invoke_function id) r now t = record t {
  invocations =
      record {
        function_id = id;
        is_success = is_ok r.status;
        duration_ms = or_else r.duration_ms 0;
        status_code = or_else r.exit_code (if is_ok r.status then 200 else 500);
      }
      ∷ t.invocations;
}
apply_resource_result (register_runner id) r now t =
    set_runner id (if is_ok r.status then RunnerStatus.idle else RunnerStatus.offline) t
apply_resource_result (deregister_runner id) r now t = set_runner id RunnerStatus.offline t
apply_resource_result (scale_app id replicas) r now t = record t {
  policies =
      update (λ p. p.app_id == id)
        (λ p. record p { current_replicas = or_else r.replicas replicas }) t.policies;
}
apply_resource_result (configure_firewall id) r now t = record t {
  firewalls =
      update (λ f. f.id == id)
        (λ f. record f {
          status = if is_ok r.status then FirewallStatus.active else FirewallStatus.failed;
        })
        t.firewalls;
}
apply_resource_result (provision_lb id name) r now t = record t {
  load_balancers =
      update (λ l. l.id == id)
        (λ l. record l {
          status = if is_ok r.status then LbStatus.active else LbStatus.failed;
          container_name = some name;
        })
        t.load_balancers;
}
apply_resource_result _ r now t = t

-- The branch of `applyCommandResult` for these commands: reports that are not final are left alone.
unfoldable pub report_resource :
    ResourceCommand → ResourceReport → ℕ → ResourceTables → ResourceTables
unfolding apply_resource_result
report_resource command r now t =
    if is_final r.status then apply_resource_result command r now t else t
