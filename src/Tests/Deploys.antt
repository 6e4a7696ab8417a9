-- ===== src/Tests/Deploys.antt =====
-- One app on a node, from the trigger to a late report.
use your_stack.Common.{
  ◌≡◌, refl, true, false, not, ◌&&◌, ◌==◌, find, none, some, [], ◌∷◌, String, Result, ok, err,
  arith,
}
use your_stack.Deploy.{
  App, AppStatus, Deployment, DeploymentStatus, CommandStatus, Store, TriggerInput, Envelope,
  CommandResult, trigger_deployment, apply_command_result, find_deployment, create_deployment_row,
  last_version, usage_on, find_limit,
}
use your_stack.Deploy.{DeploySpec, Node, find_app, process_deploy, finalized}
use your_stack.Deploy.Dispatch.{packaged, deploy_command}
use your_stack.Deploy.Release.{process_deploy-runs}
use your_stack.Deploy.Invariant.{Sound}
use your_stack.Deploy.Reachable.{Step, Reach, Reach-Sound}
use your_stack.Deploy.Behaviour.{IsTriggered, trigger_deployment-IsTriggered}

abbrev shop : App
shop = record {
  id = 1;
  workspace_id = 10;
  node_id = some 7;
  branch = "main";
  port = "3000";
  status = AppStatus.idle;
  current_deployment_id = none;
  deleted = false;
}

abbrev start : Store
start = record {
  apps = shop ∷ [];
  deployments = [];
  runs = [];
  commands = [];
  nodes = [];
  workspaces = record { id = 10; max_deployments_per_day = 5 } ∷ [];
  usage = [];
  logs = [];
  jobs = [];
  next_id = 20;
}

abbrev push : TriggerInput
push = record { app_id = 1; triggered_by = "cli"; ref = none; commit_sha = none }

abbrev outcome : Result (Deployment × Store) → Deployment × Store → Deployment × Store
outcome (ok r) d = r
outcome (err e) d = d

abbrev first : Deployment
first = record {
  id = 20;
  app_id = 1;
  version = 1;
  status = DeploymentStatus.queued;
  node_id = some 7;
  image_tag = none;
  image_digest = none;
  container_id = none;
  container_name = none;
  host_port = none;
  ref = some "main";
  commit_sha = none;
  triggered_by = "cli";
  healthy = none;
  spec_snapshot = none;
  started_at = none;
  finished_at = none;
}

abbrev queued_store : Store
queued_store = (outcome (trigger_deployment start push 1) (first, start)).1

trigger_deployment-IsTriggered_example :
    (app : App) × (find (λ a. a.id == 1 && not a.deleted) start.apps ≡ some app)
    × IsTriggered start queued_store first app 1
unfolding trigger_deployment create_deployment_row usage_on last_version find_limit
trigger_deployment-IsTriggered_example =
    trigger_deployment-IsTriggered start queued_store push 1 first refl

start-Sound : Sound start
start-Sound = record { apart = tt; fresh = tt; one_running = λ app. omega arith }

abbrev sign_with : String → Envelope → String
sign_with key envelope = key

Reach-Sound_example : Sound queued_store
unfolding trigger_deployment create_deployment_row usage_on last_version find_limit
Reach-Sound_example =
    Reach-Sound sign_with {s = start} {t = queued_store}
      (Reach.next Reach.here (Step.trigger push 1 first refl)) start-Sound

abbrev host : Node
host = record { id = 7; command_key = "k" }

abbrev placed_store : Store
placed_store = record start { deployments = first ∷ []; nodes = host ∷ [] }

abbrev first_spec : DeploySpec
first_spec = record {
  deployment_id = 20;
  container_name = "yourstack-1";
  image_tag = "yourstack/1:1";
  env = ("PORT", "3000") ∷ [];
}

-- A report that leaves the health out.
abbrev deployed : CommandResult
deployed = record {
  status = CommandStatus.succeeded;
  healthy = none;
  container_id = some "c";
  image_digest = none;
  host_port = some 8080;
}

process_deploy-runs_example :
    let c = deploy_command sign_with first host first_spec 21 50 in
    let dispatched = process_deploy sign_with 20 (some first_spec) 50 placed_store in
    let done = apply_command_result c deployed 60 dispatched in
    (dispatched.commands ≡ c ∷ [])
    × (find_deployment 20 done.deployments
        ≡ some (finalized true deployed 60 (packaged first_spec first)))
    × (find_app 1 done.apps
        ≡ some (record shop {
          status = AppStatus.running;
          current_deployment_id = some 20;
          node_id = some 7;
        }))
process_deploy-runs_example =
    process_deploy-runs sign_with 7 50 60 first shop host first_spec deployed placed_store refl refl
      refl refl refl refl refl
