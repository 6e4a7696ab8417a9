-- ===== src/Blueprint/Store.antt =====
-- The tables that a blueprint reads and writes, of packages/db/prisma/schema.prisma. The seven tables of
-- resources are one list whose rows carry the columns of their table; credentials, creators and times
-- are left out. The database returns the newest row first where the code asks for no order.
use your_stack.Common.{ℕ, Bool, not, ◌&&◌, Option, List, ◌==◌, String, map, filter, AppError}
use your_stack.Common.Text.{Text}
use your_stack.Cron.{CronJobStatus}
use your_stack.Network.{FirewallRuleRow, FirewallStatus, LbStatus}
use your_stack.Nodes.{NodeRow}
use your_stack.Resources.{DatabaseEngine, DatabaseStatus, BucketStatus, FunctionStatus}
use your_stack.Secrets.{SourceColumns}
use your_stack.Blueprint.Schema.{
  ResourceKind, app, database, bucket, function, cron, firewall, load_balancer, BlueprintPlanItem,
  FunctionRuntime, LbAlgorithm, Number,
}
use your_stack.Blueprint.Names.{ResolvedTarget, AppAddress}
use your_stack.Blueprint.Plan.{kind_rank, ExistingResources}

pub record Project : Type 0 where
  pub id : ℕ
  pub workspace_id : ℕ
  pub name : Text
  pub slug : Text
  pub deleted : Bool

-- The columns that the source of a deployment depends on, and the others.
pub record AppColumns : Type 0 where
  pub slug : Text
  pub source : SourceColumns
  pub port : ℕ
  pub cpu : Text
  pub memory_mb : Number
  pub healthcheck_path : Text
  pub domains : List Text

pub record DatabaseColumns : Type 0 where
  pub node_id : Option ℕ
  pub engine : DatabaseEngine
  pub version : Text
  pub status : DatabaseStatus
  pub region : Option Text
  pub host : Option Text
  pub port : Option ℕ
  pub storage_mb : Number
  pub cpu : Text
  pub memory_mb : Number

pub record BucketColumns : Type 0 where
  pub node_id : Option ℕ
  pub status : BucketStatus
  pub region : Option Text
  pub endpoint : Option Text
  pub is_public : Bool
  pub quota_mb : Number

pub record FunctionColumns : Type 0 where
  pub node_id : Option ℕ
  pub runtime : FunctionRuntime
  pub status : FunctionStatus
  pub handler : Text
  pub region : Option Text
  pub memory_mb : Number
  pub repo_url : Option Text

pub record CronColumns : Type 0 where
  pub node_id : Option ℕ
  pub schedule : Text
  pub image : Text
  pub command : Option Text
  pub status : CronJobStatus
  pub region : Option Text

pub record FirewallColumns : Type 0 where
  pub status : FirewallStatus
  pub default_inbound : String
  pub default_outbound : String
  pub node_ids : List Text
  pub rules : List FirewallRuleRow

pub record LoadBalancerColumns : Type 0 where
  pub node_id : Option ℕ
  pub status : LbStatus
  pub listen_port : ℕ
  pub algorithm : LbAlgorithm
  pub region : Option Text
  pub domain : Option Text
  pub auto_https : Bool
  pub targets : List ResolvedTarget

pub data ResourceColumns : Type 0 where
  app_columns : AppColumns → ResourceColumns
  database_columns : DatabaseColumns → ResourceColumns
  bucket_columns : BucketColumns → ResourceColumns
  function_columns : FunctionColumns → ResourceColumns
  cron_columns : CronColumns → ResourceColumns
  firewall_columns : FirewallColumns → ResourceColumns
  load_balancer_columns : LoadBalancerColumns → ResourceColumns

-- The table that a row stands in.
abbrev pub kind_of : ResourceColumns → ResourceKind
kind_of (app_columns c) = app
kind_of (database_columns c) = database
kind_of (bucket_columns c) = bucket
kind_of (function_columns c) = function
kind_of (cron_columns c) = cron
kind_of (firewall_columns c) = firewall
kind_of (load_balancer_columns c) = load_balancer

-- The owner is the project, for a firewall the workspace.
pub record ResourceRow : Type 0 where
  pub id : ℕ
  pub owner_id : ℕ
  pub name : Text
  pub columns : ResourceColumns
  pub deleted : Bool

pub record AppEnvironment : Type 0 where
  pub app_id : ℕ
  pub name : Text

-- The jobs that are queued, by their row.
pub data BlueprintJob : Type 0 where
  provision_database provision_bucket deploy_function provision_lb : (id : ℕ) → BlueprintJob

pub record AuditEntry : Type 0 where
  pub workspace_id : ℕ
  pub target_id : ℕ
  pub project : Text
  pub created : ℕ

-- `public_ip` is a column of the nodes.
pub record Store : Type 0 where
  pub projects : List Project
  pub rows : List ResourceRow
  pub environments : List AppEnvironment
  pub nodes : List NodeRow
  pub public_ip : ℕ → Option Text
  pub jobs : List BlueprintJob
  pub audit_log : List AuditEntry
  pub next_id : ℕ

-- What is thrown: an error of the API, or one of the database or the language, which is answered with
-- status 500.
pub data Thrown : Type 0 where
  app_error : AppError → Thrown
  unique_violation : Thrown
  invalid_data : Thrown
  type_error : Thrown

-- The local state of a run of the apply handler.
pub record Run : Type 0 where
  pub store : Store
  pub app_address_by_name : List (Text × AppAddress)
  pub applied : List BlueprintPlanItem
  pub thrown : Option Thrown

-- `where: { projectId, deletedAt: null }` in the table of a kind.
abbrev pub is_live : ResourceKind → ℕ → ResourceRow → Bool
is_live kind owner r =
    kind_rank (kind_of r.columns) == kind_rank kind && (r.owner_id == owner && not r.deleted)

abbrev pub live_names : ResourceKind → ℕ → List ResourceRow → List Text
live_names kind owner rows = map (λ r. r.name) (filter (is_live kind owner) rows)

unfoldable pub gather_existing : ℕ → ℕ → List ResourceRow → ExistingResources
gather_existing workspace_id project_id rows = record {
  apps = live_names app project_id rows;
  databases = live_names database project_id rows;
  buckets = live_names bucket project_id rows;
  functions = live_names function project_id rows;
  cron = live_names cron project_id rows;
  firewalls = live_names firewall workspace_id rows;
  load_balancers = live_names load_balancer project_id rows;
}
