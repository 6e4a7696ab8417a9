-- ===== src/Deploy/Recovery.antt =====
-- apps/worker/src/processors/healthcheck.ts and rollback.ts.
use your_stack.Common.{
  ℕ, suc, ◌*◌, Bool, true, false, ◌&&◌, Option, none, some, List, [], ◌∷◌, String, ◌==◌,
  if◌then◌else◌, find, update, or_else,
}
use your_stack.Deploy.Enums.{
  AppStatus, DeploymentStatus, is_terminal, PipelineRunStatus, run_is_running,
}
use your_stack.Deploy.State.{
  App, Deployment, DeploySpec, rollback_deployment, info, error, Store, find_app, find_deployment,
  update_deployment, update_app, append_deployment_log,
}
use your_stack.Deploy.Trigger.{last_version}
use your_stack.Deploy.Process.{Envelope, CommandInput, create_signed_command}

-- `processHealthcheck`: a deployment that no node has finished by now has failed.
unfoldable pub process_healthcheck : ℕ → ℕ → Store → Store
unfolding is_terminal
process_healthcheck deployment_id now s = elim (find_deployment deployment_id s.deployments) [
  | none ↦ s
  | some d ↦
      let s1 = append_deployment_log d.id error s in
      let s2 =
        update_deployment d.id
          (λ e. record e {
            status = DeploymentStatus.failed;
            healthy = some false;
            finished_at = some now;
          })
          s1 in
      let s3 = update_app d.app_id (λ a. record a { status = AppStatus.failed }) s2 in
      let s4 = record s3 {
        runs =
            update (λ r. r.deployment_id == d.id && run_is_running r.status)
              (λ r. record r { status = PipelineRunStatus.failed; finished_at = some now }) s3.runs;
      } in
      if is_terminal d.status then s else s4
]

-- `env.PORT ?? String(app.port)`: the entry stays where there is one.
abbrev pub has_port : List (String × String) → Bool
has_port [] = false
has_port ((k, v) ∷ rest) = if text.Mathlib.Text.◌==◌ k "PORT" then true else has_port rest

abbrev pub with_port : String → List (String × String) → List (String × String)
with_port port env = if has_port env then env else ("PORT", port) ∷ env

-- The deployment that records the rollback.
abbrev pub rollback_row : App → Deployment → ℕ → ℕ → String → ℕ → Deployment
rollback_row app target id version triggered_by now = record target {
  id = id;
  app_id = app.id;
  version = version;
  status = DeploymentStatus.deploying;
  node_id = app.node_id;
  image_digest = none;
  container_id = none;
  host_port = none;
  triggered_by = triggered_by;
  healthy = none;
  started_at = some now;
  finished_at = none;
}

-- `Option.bind` for the rows that `processRollback` looks up, and throws where one is missing.
infixl 5 ◌>>=◌
abbrev ◌>>=◌ : {A B : Type 0} → Option A → (A → Option B) → Option B
none >>= f = none
some a >>= f = f a

-- The rows that record the rollback.
unfoldable pub record_rollback : App → Deployment → String → ℕ → Store → Store
unfolding last_version
record_rollback app target triggered_by now s =
    let d =
      rollback_row app target s.next_id (suc (last_version app.id s.deployments)) triggered_by
        now in
    let s1 = record s { deployments = d ∷ s.deployments; next_id = suc s.next_id } in
    append_deployment_log d.id info
      (update_app app.id (λ a. record a { status = AppStatus.deploying }) s1)

-- The command that re-issues the snapshot, with the secrets as they are now.
abbrev pub rollback_command :
    App → ℕ → Deployment → DeploySpec → List (String × String) → ℕ → CommandInput
rollback_command app node_id target snapshot env id = record {
  node_id = node_id;
  payload =
      rollback_deployment app.id target.id
        (record snapshot { deployment_id = id; env = with_port app.port env });
  timeout_ms = some (10 * 60_000);
  deployment_id = some id;
  app_id = some app.id;
}

module _ (sign : String → Envelope → String) where
  -- A node that is not found throws once the rows are written: they stay.
  unfoldable pub issue_rollback :
      App → ℕ → Deployment → DeploySpec → String → List (String × String) → ℕ → Store → Store
  unfolding record_rollback create_signed_command
  issue_rollback app node_id target snapshot triggered_by env now s =
      let s1 = record_rollback app target triggered_by now s in
      or_else
        (create_signed_command sign (rollback_command app node_id target snapshot env s.next_id) now
          s1)
        s1

  -- `processRollback`; `env` is what `resolveEnvForApp` returns. None where it throws before anything
  -- is written.
  unfoldable pub process_rollback :
      ℕ → ℕ → String → List (String × String) → ℕ → Store → Option Store
  unfolding issue_rollback
  process_rollback app_id target_id triggered_by env now s = do
    app ← find_app app_id s.apps
    node_id ← app.node_id
    target ← find (λ d. d.id == target_id && d.app_id == app.id) s.deployments
    snapshot ← target.spec_snapshot
    some (issue_rollback app node_id target snapshot triggered_by env now s)
