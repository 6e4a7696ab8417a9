-- ===== src/Deploy/Process.antt =====
-- apps/worker/src/processors/deploy.ts and apps/worker/src/lib/command.ts. What node:crypto computes of
-- a key and an envelope is the parameter `sign`. The outcome of `buildDeploySpec`, which reads tables
-- and decrypts secrets and changes nothing, is an argument: a spec, or none where it throws.
use your_stack.Common.{
  ℕ, suc, ◌*◌, false, Option, none, some, List, [], ◌∷◌, String, ◌==◌, if◌then◌else◌, find, any,
  update, or_else,
}
use your_stack.Deploy.Enums.{
  AppStatus, DeploymentStatus, PipelineRunStatus, StageName, checkout, install, test, build,
  package_stage, deploy, healthcheck, finalize, stage_index, StageStatus, CommandStatus,
}
use your_stack.Deploy.State.{
  App, Deployment, DeploySpec, Stage, PipelineRun, CommandPayload, deploy_app, NodeCommand, info,
  error, healthcheck_job, Store, find_app, find_deployment, update_deployment, update_app,
  append_deployment_log,
}

-- What is signed: `SignableCommand`.
pub record Envelope : Type 0 where
  pub id : ℕ
  pub node_id : ℕ
  pub payload : CommandPayload
  pub timeout_ms : ℕ
  pub issued_at : ℕ

pub record CommandInput : Type 0 where
  pub node_id : ℕ
  pub payload : CommandPayload
  pub timeout_ms : Option ℕ
  pub deployment_id : Option ℕ
  pub app_id : Option ℕ

-- `COMMAND_DEFAULT_TIMEOUT_MS`
abbrev pub command_default_timeout_ms : ℕ
command_default_timeout_ms = 300_000

abbrev pub set_stage : StageName → (Stage → Stage) → List Stage → List Stage
set_stage name f stages = update (λ st. stage_index st.name == stage_index name) f stages

-- `pipelineStage.update` of the stage of a run that has the name.
abbrev pub update_stage : ℕ → StageName → (Stage → Stage) → Store → Store
update_stage run_id name f s = record s {
  runs = update (λ r. r.id == run_id) (λ r. record r { stages = set_stage name f r.stages }) s.runs;
}

abbrev pub update_run : ℕ → (PipelineRun → PipelineRun) → Store → Store
update_run run_id f s = record s { runs = update (λ r. r.id == run_id) f s.runs }

abbrev pub started : ℕ → Stage → Stage
started now st = record st { status = StageStatus.running; started_at = some now }

abbrev pub succeeded_at : ℕ → Stage → Stage
succeeded_at now st = record st {
  status = StageStatus.succeeded;
  finished_at = some now;
  exit_code = some 0;
}

unfoldable pub start_stage : ℕ → StageName → ℕ → Store → Store
start_stage run_id name now s = update_stage run_id name (started now) s

-- A stage whose body does not throw; the bodies of the five stages do not.
unfoldable pub run_stage : ℕ → StageName → ℕ → (Store → Store) → Store → Store
unfolding start_stage
run_stage run_id name now body s =
    update_stage run_id name (succeeded_at now) (body (start_stage run_id name now s))

unfoldable pub fail_deployment : ℕ → ℕ → ℕ → Store → Store
fail_deployment deployment_id app_id now s =
    update_app app_id (λ a. record a { status = AppStatus.failed })
      (update_deployment deployment_id
        (λ d. record d {
          status = DeploymentStatus.failed;
          healthy = some false;
          finished_at = some now;
        })
        s)

abbrev pub new_stage : StageName → Stage
new_stage name = record {
  name = name;
  order = stage_index name;
  status = StageStatus.pending;
  started_at = none;
  finished_at = none;
  exit_code = none;
}

-- The eight stages, all pending.
abbrev pub new_stages : List Stage
new_stages =
    new_stage checkout
    ∷ new_stage install
    ∷ new_stage test
    ∷ new_stage build
    ∷ new_stage package_stage
    ∷ new_stage deploy
    ∷ new_stage healthcheck
    ∷ new_stage finalize
    ∷ []

abbrev pub new_run : ℕ → Deployment → PipelineRun
new_run id d = record {
  id = id;
  app_id = d.app_id;
  deployment_id = d.id;
  status = PipelineRunStatus.running;
  stages = new_stages;
  finished_at = none;
}

module _ (sign : String → Envelope → String) where
  -- `createSignedCommand`: none where the node is not found and it throws.
  unfoldable pub create_signed_command : CommandInput → ℕ → Store → Option Store
  create_signed_command input now s = elim (find (λ n. n.id == input.node_id) s.nodes) [
    | none ↦ none
    | some node ↦
        let timeout = or_else input.timeout_ms command_default_timeout_ms in
        let envelope : Envelope = record {
          id = s.next_id;
          node_id = node.id;
          payload = input.payload;
          timeout_ms = timeout;
          issued_at = now;
        } in
        let command : NodeCommand = record {
          id = s.next_id;
          node_id = node.id;
          payload = input.payload;
          status = CommandStatus.queued;
          signature = sign node.command_key envelope;
          timeout_ms = timeout;
          deployment_id = input.deployment_id;
          app_id = input.app_id;
          issued_at = now;
          accepted_at = none;
          started_at = none;
          finished_at = none;
        } in
        some (record s { commands = command ∷ s.commands; next_id = suc s.next_id })
  ]

  -- The first part of the `try` block: checkout, install and test.
  unfoldable pub prepare : ℕ → ℕ → ℕ → Store → Store
  unfolding run_stage
  prepare run_id did now s =
      let s1 = run_stage run_id checkout now (append_deployment_log did info) s in
      let s2 = run_stage run_id install now (append_deployment_log did info) s1 in
      run_stage run_id test now (append_deployment_log did info) s2

  -- The second part, once the spec is built: build and package, with the snapshot less its secrets.
  unfoldable pub package_spec : ℕ → ℕ → DeploySpec → ℕ → Store → Store
  unfolding run_stage
  package_spec run_id did spec now s =
      let s1 = run_stage run_id build now (append_deployment_log did info) s in
      run_stage run_id package_stage now
        (update_deployment did (λ d. record d {
          image_tag = some spec.image_tag;
          container_name = some spec.container_name;
          spec_snapshot = some (record spec { env = [] });
          status = DeploymentStatus.deploying;
        }))
        s1

  -- The third part: the command and the safety net. None where the command cannot be made.
  unfoldable pub dispatch_deploy : ℕ → Deployment → ℕ → DeploySpec → ℕ → Store → Option Store
  unfolding create_signed_command
  dispatch_deploy run_id d node_id spec now s =
      let s1 = append_deployment_log d.id info (start_stage run_id deploy now s) in
      let command : CommandInput = record {
        node_id = node_id;
        payload = deploy_app spec;
        timeout_ms = some (15 * 60_000);
        deployment_id = some d.id;
        app_id = some d.app_id;
      } in
      elim (create_signed_command command now s1) [
        | none ↦ none
        | some s2 ↦ some (record s2 { jobs = healthcheck_job d.id d.app_id (5 * 60_000) ∷ s2.jobs })
      ]

  -- The `catch` block.
  unfoldable pub abort : ℕ → Deployment → ℕ → Store → Store
  unfolding fail_deployment
  abort run_id d now s =
      let s1 = append_deployment_log d.id error s in
      let s2 =
        update_run run_id
          (λ r. record r { status = PipelineRunStatus.failed; finished_at = some now }) s1 in
      fail_deployment d.id d.app_id now s2

  abbrev pub or_abort : ℕ → Deployment → ℕ → Store → Option Store → Store
  or_abort run_id d now s none = abort run_id d now s
  or_abort run_id d now s (some s') = s'

  -- The `try` and `catch` blocks. A failed dispatch leaves its stage started and its line logged.
  unfoldable pub run_pipeline : ℕ → Deployment → ℕ → Option DeploySpec → ℕ → Store → Store
  unfolding prepare package_spec dispatch_deploy abort
  run_pipeline run_id d node_id none now s = abort run_id d now (prepare run_id d.id now s)
  run_pipeline run_id d node_id (some spec) now s =
      let s1 = package_spec run_id d.id spec now (prepare run_id d.id now s) in
      let started_deploy = append_deployment_log d.id info (start_stage run_id deploy now s1) in
      or_abort run_id d now started_deploy (dispatch_deploy run_id d node_id spec now s1)

  -- The rest of `processDeploy`, once the deployment, its app and the app's node are known.
  unfoldable pub deploy_on : Deployment → App → Option ℕ → Option DeploySpec → ℕ → Store → Store
  unfolding run_pipeline fail_deployment
  deploy_on d app none built now s = fail_deployment d.id app.id now s
  deploy_on d app (some node_id) built now s =
      let run = new_run s.next_id d in
      let s1 = record s { runs = run ∷ s.runs; next_id = suc s.next_id } in
      let s2 = update_deployment d.id (λ e. record e { status = DeploymentStatus.building }) s1 in
      let s3 = run_pipeline run.id d node_id built now (append_deployment_log d.id info s2) in
      if any (λ r. r.deployment_id == d.id) s.runs then s else s3

  unfoldable pub deploy_app_of : Deployment → Option App → Option DeploySpec → ℕ → Store → Store
  unfolding deploy_on
  deploy_app_of d none built now s = s
  deploy_app_of d (some app) built now s = deploy_on d app app.node_id built now s

  unfoldable pub deploy_found : Option Deployment → Option DeploySpec → ℕ → Store → Store
  unfolding deploy_app_of
  deploy_found none built now s = s
  deploy_found (some d) built now s = deploy_app_of d (find_app d.app_id s.apps) built now s

  -- `processDeploy`. A deployment or an app that is not found, and a second run of one deployment,
  -- which the unique column of the runs refuses, throw before anything is written.
  unfoldable pub process_deploy : ℕ → Option DeploySpec → ℕ → Store → Store
  unfolding deploy_found
  process_deploy deployment_id built now s =
      deploy_found (find_deployment deployment_id s.deployments) built now s
