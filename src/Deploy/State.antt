-- ===== src/Deploy/State.antt =====
-- The tables of packages/db/prisma/schema.prisma that the deploy path reads and writes, as lists of
-- rows. An id, a time and a day are numbers. The text of log lines is left out, and so are the
-- realtime messages, which no table keeps.
use your_stack.Common.{
  ℕ, suc, Bool, Option, List, [], ◌∷◌, String, ◌==◌, find, update, if◌then◌else◌,
}
use your_stack.Deploy.Enums.{
  AppStatus, DeploymentStatus, PipelineRunStatus, StageName, StageStatus, CommandStatus,
}

-- The fields of a DeployAppSpec that the pipeline itself reads or rewrites.
pub record DeploySpec : Type 0 where
  pub deployment_id : ℕ
  pub container_name : String
  pub image_tag : String
  pub env : List (String × String)

pub record App : Type 0 where
  pub id : ℕ
  pub workspace_id : ℕ
  pub node_id : Option ℕ
  pub branch : String
  pub port : String
  pub status : AppStatus
  pub current_deployment_id : Option ℕ
  pub deleted : Bool

pub record Deployment : Type 0 where
  pub id : ℕ
  pub app_id : ℕ
  pub version : ℕ
  pub status : DeploymentStatus
  pub node_id : Option ℕ
  pub image_tag : Option String
  pub image_digest : Option String
  pub container_id : Option String
  pub container_name : Option String
  pub host_port : Option ℕ
  pub ref : Option String
  pub commit_sha : Option String
  pub triggered_by : String
  pub healthy : Option Bool
  pub spec_snapshot : Option DeploySpec
  pub started_at : Option ℕ
  pub finished_at : Option ℕ

pub record Stage : Type 0 where
  pub name : StageName
  pub order : ℕ
  pub status : StageStatus
  pub started_at : Option ℕ
  pub finished_at : Option ℕ
  pub exit_code : Option ℕ

pub record PipelineRun : Type 0 where
  pub id : ℕ
  pub app_id : ℕ
  pub deployment_id : ℕ
  pub status : PipelineRunStatus
  pub stages : List Stage
  pub finished_at : Option ℕ

-- The payloads by which the handlers tell commands apart.
pub data CommandPayload : Type 0 where
  deploy_app : DeploySpec → CommandPayload
  rollback_deployment : (app_id target_deployment_id : ℕ) → DeploySpec → CommandPayload
  other_command : CommandPayload

pub record Node : Type 0 where
  pub id : ℕ
  pub command_key : String

pub record NodeCommand : Type 0 where
  pub id : ℕ
  pub node_id : ℕ
  pub payload : CommandPayload
  pub status : CommandStatus
  pub signature : String
  pub timeout_ms : ℕ
  pub deployment_id : Option ℕ
  pub app_id : Option ℕ
  pub issued_at : ℕ
  pub accepted_at : Option ℕ
  pub started_at : Option ℕ
  pub finished_at : Option ℕ

pub record UsageRecord : Type 0 where
  pub workspace_id : ℕ
  pub day : ℕ
  pub quantity : ℕ

pub record Workspace : Type 0 where
  pub id : ℕ
  pub max_deployments_per_day : ℕ

pub data LogSeverity : Type 0 where
  info error : LogSeverity

pub record LogRow : Type 0 where
  pub deployment_id : ℕ
  pub severity : LogSeverity
  pub seq : ℕ

pub data QueuedJob : Type 0 where
  deploy_job : (deployment_id app_id : ℕ) → QueuedJob
  healthcheck_job : (deployment_id app_id delay_ms : ℕ) → QueuedJob

pub record Store : Type 0 where
  pub apps : List App
  pub deployments : List Deployment
  pub runs : List PipelineRun
  pub commands : List NodeCommand
  pub nodes : List Node
  pub workspaces : List Workspace
  pub usage : List UsageRecord
  pub logs : List LogRow
  pub jobs : List QueuedJob
  pub next_id : ℕ

abbrev pub find_app : ℕ → List App → Option App
find_app id apps = find (λ a. a.id == id) apps

abbrev pub find_deployment : ℕ → List Deployment → Option Deployment
find_deployment id ds = find (λ d. d.id == id) ds

-- `deployment.update({ where: { id }, data })`, and so for an app.
abbrev pub update_deployment : ℕ → (Deployment → Deployment) → Store → Store
update_deployment id f s = record s { deployments = update (λ d. d.id == id) f s.deployments }

abbrev pub update_app : ℕ → (App → App) → Store → Store
update_app id f s = record s { apps = update (λ a. a.id == id) f s.apps }

-- The greatest `seq` of a deployment's log lines, or 0.
unfoldable pub max_seq : ℕ → List LogRow → ℕ
max_seq id [] = 0
max_seq id (l ∷ ls) =
    if l.deployment_id == id then Prim.Native.Nat.max l.seq (max_seq id ls) else max_seq id ls

-- apps/worker/src/lib/logs.ts
unfoldable pub append_deployment_log : ℕ → LogSeverity → Store → Store
unfolding max_seq
append_deployment_log id severity s = record s {
  logs = record { deployment_id = id; severity = severity; seq = suc (max_seq id s.logs) } ∷ s.logs;
}
