-- ===== src/Deploy/Dispatch.antt =====
-- What a deploy job leaves: the rows of its deployment and its command.
use your_stack.Common.{
  ℕ, suc, ◌*◌, ◌≡◌, refl, ◌∙◌, ap, false, none, some, List, [], ◌∷◌, String, ◌==◌, find, any,
  update,
}
use your_stack.Deploy.Enums.{DeploymentStatus, CommandStatus, deploy}
use your_stack.Deploy.State.{
  App, Deployment, DeploySpec, Node, NodeCommand, deploy_app, Store, healthcheck_job, info,
  find_app, find_deployment, append_deployment_log,
}
use your_stack.Deploy.Process.{
  Envelope, or_abort, new_run, create_signed_command, prepare, package_spec, dispatch_deploy,
  run_stage, start_stage, run_pipeline, deploy_on, deploy_app_of, deploy_found, process_deploy,
}

-- The deployment row once its spec is packaged.
abbrev pub packaged : DeploySpec → Deployment → Deployment
packaged spec d = record d {
  image_tag = some spec.image_tag;
  container_name = some spec.container_name;
  spec_snapshot = some (record spec { env = [] });
  status = DeploymentStatus.deploying;
}

abbrev pub building : Deployment → Deployment
building d = record d { status = DeploymentStatus.building }

-- What a handler leaves: the deployments, the apps, and one new command on top.
pub record Leaves (s s' : Store) (deployments : List Deployment) (c : NodeCommand) : Type 0 where
  pub rows : s'.deployments ≡ deployments
  pub apps : s'.apps ≡ s.apps
  pub sent : s'.commands ≡ c ∷ s.commands

module _ (sign : String → Envelope → String) where
  abbrev pub deploy_command : Deployment → Node → DeploySpec → ℕ → ℕ → NodeCommand
  deploy_command d node spec id now = record {
    id = id;
    node_id = node.id;
    payload = deploy_app spec;
    status = CommandStatus.queued;
    signature = sign node.command_key (record {
      id = id;
      node_id = node.id;
      payload = deploy_app spec;
      timeout_ms = 15 * 60_000;
      issued_at = now;
    });
    timeout_ms = 15 * 60_000;
    deployment_id = some d.id;
    app_id = some d.app_id;
    issued_at = now;
    accepted_at = none;
    started_at = none;
    finished_at = none;
  }

  dispatch_deploy-Leaves :
      (run_id node_id now : ℕ) (d : Deployment) (node : Node) (spec : DeploySpec) (s : Store)
      → find (λ n. n.id == node_id) s.nodes ≡ some node
      → (s' : Store) × (dispatch_deploy sign run_id d node_id spec now s ≡ some s')
        × Leaves s s' s.deployments (deploy_command d node spec s.next_id now)
  unfolding dispatch_deploy create_signed_command start_stage append_deployment_log
  dispatch_deploy-Leaves run_id node_id now d node spec s found =
      let logged = append_deployment_log d.id info (start_stage run_id deploy now s) in
      let s' : Store = record logged {
        commands = deploy_command d node spec s.next_id now ∷ s.commands;
        next_id = suc s.next_id;
        jobs = healthcheck_job d.id d.app_id (5 * 60_000) ∷ logged.jobs;
      } in
      (
        s',
        rw (found, dispatch_deploy, create_signed_command) refl,
        record { rows = refl; apps = refl; sent = refl },
      )

  -- The rows after the stages before the dispatch.
  abbrev pub packaged_rows : Deployment → DeploySpec → List Deployment → List Deployment
  packaged_rows d spec ds = update (λ e. e.id == d.id) (packaged spec) ds

  run_pipeline-Leaves :
      (run_id node_id now : ℕ) (d : Deployment) (node : Node) (spec : DeploySpec) (s : Store)
      → find (λ n. n.id == node_id) s.nodes ≡ some node
      → (s' : Store) × (run_pipeline sign run_id d node_id (some spec) now s ≡ s')
        × Leaves s s'
            (packaged_rows d spec s.deployments)
            (deploy_command d node spec s.next_id now)
  unfolding run_pipeline package_spec prepare run_stage start_stage append_deployment_log
  run_pipeline-Leaves run_id node_id now d node spec s found =
      let s1 = package_spec sign run_id d.id spec now (prepare sign run_id d.id now s) in
      let (s', e, l) = dispatch_deploy-Leaves run_id node_id now d node spec s1 found in
      (
        s',
        ap
            (or_abort sign run_id d now
              (append_deployment_log d.id info (start_stage run_id deploy now s1)))
            e,
        record { rows = l.rows; apps = l.apps; sent = l.sent },
      )

  pub process_deploy-Leaves :
      (node_id now : ℕ) (d : Deployment) (app : App) (node : Node) (spec : DeploySpec) (s : Store)
      → find_deployment d.id s.deployments ≡ some d
      → find_app d.app_id s.apps ≡ some app
      → app.node_id ≡ some node_id
      → find (λ n. n.id == node_id) s.nodes ≡ some node
      → any (λ r. r.deployment_id == d.id) s.runs ≡ false
      → Leaves s
          (process_deploy sign d.id (some spec) now s)
          (packaged_rows d spec (update (λ e. e.id == d.id) building s.deployments))
          (deploy_command d node spec (suc s.next_id) now)
  unfolding process_deploy deploy_found deploy_app_of deploy_on append_deployment_log
  process_deploy-Leaves node_id now d app node spec s row of_app on found fresh =
      let run = new_run s.next_id d in
      let s1 = record s { runs = run ∷ s.runs; next_id = suc s.next_id } in
      let s2 =
        append_deployment_log d.id info
          (record s1 { deployments = update (λ e. e.id == d.id) building s.deployments }) in
      let (s', e, l) = run_pipeline-Leaves s.next_id node_id now d node spec s2 found in
      let whole : process_deploy sign d.id (some spec) now s ≡ s' =
        ap (λ o. deploy_found sign o (some spec) now s) row
        ∙ ap (λ o. deploy_app_of sign d o (some spec) now s) of_app
        ∙ ap (λ o. deploy_on sign d app o (some spec) now s) on
        ∙ rw fresh e in
      rw whole (record { rows = l.rows; apps = l.apps; sent = l.sent })
