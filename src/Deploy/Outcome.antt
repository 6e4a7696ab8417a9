-- ===== src/Deploy/Outcome.antt =====
-- apps/api/src/services/command-result.service.ts: what a node reports of a deploy command. A command
-- of another kind changes its own row alone among the tables of this model.
use your_stack.Common.{
  ℕ, Bool, true, false, not, ◌&&◌, Option, none, some, List, ◌∷◌, String, ◌==◌, if◌then◌else◌,
  update, or_else,
}
use your_stack.Deploy.Enums.{
  AppStatus, DeploymentStatus, is_running, PipelineRunStatus, deploy, healthcheck, finalize,
  StageStatus, CommandStatus, is_final,
}
use your_stack.Deploy.State.{
  Deployment, Stage, CommandPayload, deploy_app, rollback_deployment, other_command, NodeCommand,
  error, Store, find_deployment, update_deployment, update_app,
}
use your_stack.Deploy.Process.{set_stage}

pub record CommandResult : Type 0 where
  pub status : CommandStatus
  pub healthy : Option Bool
  pub container_id : Option String
  pub image_digest : Option String
  pub host_port : Option ℕ

-- How `closePipelineRun` ends one of the last three stages.
abbrev pub close_stage : Bool → Bool → ℕ → Stage → Stage
close_stage success is_deploy now st = record st {
  status =
      if success
      then StageStatus.succeeded
      else (if is_deploy then StageStatus.failed else StageStatus.skipped);
  started_at = some (or_else st.started_at now);
  finished_at = some now;
  exit_code = some (if success then 0 else 1);
}

abbrev pub close_stages : Bool → ℕ → List Stage → List Stage
close_stages success now stages = set_stage finalize (close_stage success false now) (
    set_stage healthcheck (close_stage success false now)
      (set_stage deploy (close_stage success true now) stages))

-- `closePipelineRun`: a deployment has one run at most.
unfoldable pub close_pipeline_run : ℕ → Bool → ℕ → Store → Store
close_pipeline_run deployment_id success now s = record s {
  runs =
      update (λ r. r.deployment_id == deployment_id)
        (λ r. record r {
          stages = close_stages success now r.stages;
          status = if success then PipelineRunStatus.succeeded else PipelineRunStatus.failed;
          finished_at = some now;
        })
        s.runs;
}

-- The other running deployments of the app.
abbrev pub is_other_running : Deployment → Deployment → Bool
is_other_running d e = e.app_id == d.app_id && is_running e.status && not (e.id == d.id)

abbrev pub finalized : Bool → CommandResult → ℕ → Deployment → Deployment
finalized healthy result now d = record d {
  status = if healthy then DeploymentStatus.running else DeploymentStatus.failed;
  healthy = some healthy;
  container_id = result.container_id;
  image_digest = result.image_digest;
  host_port = result.host_port;
  finished_at = some now;
}

-- The transaction of `finalizeSuccessfulDeploy`: a healthy deployment supersedes the other running
-- ones of its app.
unfoldable pub settle_deploy : Deployment → ℕ → Bool → CommandResult → ℕ → Store → Store
settle_deploy d deployment_id true result now s =
    let s1 = update_deployment deployment_id (finalized true result now) s in
    update_app d.app_id
      (λ a. record a {
        status = AppStatus.running;
        current_deployment_id = some deployment_id;
        node_id = d.node_id;
      })
      (record s1 {
        deployments =
            update (is_other_running d) (λ e. record e { status = DeploymentStatus.superseded })
              s1.deployments;
      })
settle_deploy d deployment_id false result now s =
    update_app d.app_id (λ a. record a { status = AppStatus.failed })
      (update_deployment deployment_id (finalized false result now) s)

-- `finalizeSuccessfulDeploy`
unfoldable pub finalize_successful_deploy : ℕ → CommandResult → ℕ → Store → Store
unfolding close_pipeline_run settle_deploy
finalize_successful_deploy deployment_id result now s =
    elim (find_deployment deployment_id s.deployments) [
      | none ↦ s
      | some d ↦
          let healthy = or_else result.healthy true in
          close_pipeline_run deployment_id healthy now
            (settle_deploy d deployment_id healthy result now s)
    ]

-- `failDeploy`
unfoldable pub fail_deploy : ℕ → ℕ → Store → Store
unfolding close_pipeline_run
fail_deploy deployment_id now s = elim (find_deployment deployment_id s.deployments) [
  | none ↦ s
  | some d ↦
      let s1 =
        update_deployment deployment_id
          (λ e. record e {
            status = DeploymentStatus.failed;
            healthy = some false;
            finished_at = some now;
          })
          s in
      let s2 = update_app d.app_id (λ a. record a { status = AppStatus.failed }) s1 in
      let s3 = record s2 {
        logs = record { deployment_id = deployment_id; severity = error; seq = 999_999 } ∷ s2.logs;
      } in
      close_pipeline_run deployment_id false now s3
]

-- The update of the command's row.
abbrev pub reported : CommandStatus → ℕ → NodeCommand → NodeCommand
reported status now c = record c {
  status = status;
  started_at = elim status [ CommandStatus.running ↦ some now | _ ↦ c.started_at ];
  finished_at = if is_final status then some now else none;
}

-- The reports on a deployment's command, by the status that is reported.
unfoldable pub report_deploy : CommandStatus → CommandResult → ℕ → ℕ → Store → Store
unfolding finalize_successful_deploy fail_deploy
report_deploy CommandStatus.running result did now s =
    update_deployment did
      (λ d. record d { status = DeploymentStatus.deploying; started_at = some now }) s
report_deploy CommandStatus.succeeded result did now s = finalize_successful_deploy did result now s
report_deploy CommandStatus.failed result did now s = fail_deploy did now s
report_deploy CommandStatus.timed_out result did now s = fail_deploy did now s
report_deploy _ result did now s = s

abbrev pub is_deploy_payload : CommandPayload → Bool
is_deploy_payload (deploy_app spec) = true
is_deploy_payload (rollback_deployment app target spec) = true
is_deploy_payload other_command = false

-- `applyCommandResult`
unfoldable pub apply_command_result : NodeCommand → CommandResult → ℕ → Store → Store
unfolding report_deploy is_final
apply_command_result command result now s =
    let s1 = record s {
      commands = update (λ c. c.id == command.id) (reported result.status now) s.commands;
    } in
    elim command.deployment_id [
      | none ↦ s1
      | some did ↦
          if is_deploy_payload command.payload
          then report_deploy result.status result did now s1
          else s1
    ]
