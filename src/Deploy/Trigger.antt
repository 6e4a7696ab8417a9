-- ===== src/Deploy/Trigger.antt =====
-- apps/api/src/services/deployment.service.ts and apps/worker/src/lib/deploy.ts: a new deployment.
use your_stack.Common.{
  ℕ, suc, ◌+◌, Bool, not, ◌&&◌, Option, none, some, List, [], ◌∷◌, String, leb, ◌==◌, if◌then◌else◌,
  find, update, is_some, or_else, Result, ok, err, ◌>>=◌, ◌>>◌, throw_if, not_found, bad_request,
  plan_limit,
}
use your_stack.Deploy.Enums.{AppStatus, DeploymentStatus}
use your_stack.Deploy.State.{App, Deployment, Store, UsageRecord, Workspace, deploy_job}

pub record TriggerInput : Type 0 where
  pub app_id : ℕ
  pub triggered_by : String
  pub ref : Option String
  pub commit_sha : Option String

-- `findFirst({ where: { appId }, orderBy: { version: 'desc' } })`: the greatest version of the app, or 0.
unfoldable pub last_version : ℕ → List Deployment → ℕ
last_version app_id [] = 0
last_version app_id (d ∷ ds) =
    if d.app_id == app_id
    then Prim.Native.Nat.max d.version (last_version app_id ds)
    else last_version app_id ds

abbrev pub is_usage : ℕ → ℕ → UsageRecord → Bool
is_usage ws day u = u.workspace_id == ws && u.day == day

-- `usage?.quantity ?? 0`
unfoldable pub usage_on : ℕ → ℕ → List UsageRecord → ℕ
usage_on ws day [] = 0
usage_on ws day (u ∷ us) = if is_usage ws day u then u.quantity else usage_on ws day us

-- `usageRecord.upsert`
unfoldable pub count_usage : ℕ → ℕ → List UsageRecord → List UsageRecord
count_usage ws day [] = record { workspace_id = ws; day = day; quantity = 1 } ∷ []
count_usage ws day (u ∷ us) =
    if is_usage ws day u
    then record u { quantity = u.quantity + 1 } ∷ us
    else u ∷ count_usage ws day us

-- The row that `deployment.create` makes.
abbrev pub new_deployment : App → TriggerInput → ℕ → ℕ → Deployment
new_deployment app input id version = record {
  id = id;
  app_id = app.id;
  version = version;
  status = DeploymentStatus.queued;
  node_id = app.node_id;
  image_tag = none;
  image_digest = none;
  container_id = none;
  container_name = none;
  host_port = none;
  ref = some (or_else input.ref app.branch);
  commit_sha = input.commit_sha;
  triggered_by = input.triggered_by;
  healthy = none;
  spec_snapshot = none;
  started_at = none;
  finished_at = none;
}

-- The transaction and the job that both services share.
unfoldable pub create_deployment_row : Store → App → TriggerInput → ℕ → Deployment × Store
unfolding last_version count_usage
create_deployment_row s app input day =
    let d = new_deployment app input s.next_id (suc (last_version app.id s.deployments)) in
    (
      d,
      record s {
        apps = update (λ a. a.id == app.id) (λ a. record a { status = AppStatus.building }) s.apps;
        deployments = d ∷ s.deployments;
        usage = count_usage app.workspace_id day s.usage;
        jobs = deploy_job d.id app.id ∷ s.jobs;
        next_id = suc s.next_id;
      },
    )

abbrev pub find_limit : ℕ → List Workspace → ℕ
find_limit ws [] = 0
find_limit ws (w ∷ rest) = if w.id == ws then w.max_deployments_per_day else find_limit ws rest

-- `triggerDeployment`
unfoldable pub trigger_deployment : Store → TriggerInput → ℕ → Result (Deployment × Store)
unfolding create_deployment_row usage_on
trigger_deployment s input day = do
  app ← elim (find (λ a. a.id == input.app_id && not a.deleted) s.apps) [
    | none ↦ err (not_found "App not found")
    | some a ↦ ok a
  ]
  throw_if (not (is_some app.node_id))
      (bad_request "App has no node assigned. Assign an online node before deploying.")
  throw_if (leb (find_limit app.workspace_id s.workspaces) (usage_on app.workspace_id day s.usage))
      (plan_limit "Daily deployment limit reached. Upgrade your plan.")
  ok (create_deployment_row s app input day)

-- `createDeployment` of the worker, which webhooks use: no limit is checked.
unfoldable pub create_deployment : Store → App → TriggerInput → ℕ → Option (Deployment × Store)
unfolding create_deployment_row
create_deployment s app input day =
    if is_some app.node_id then some (create_deployment_row s app input day) else none
