-- ===== src/Deploy/Behaviour.antt =====
-- What single handlers of the deploy path do to a deployment, and to the daily count.
use your_stack.Common.{
  ℕ, suc, ◌+◌, ◌≤◌, ◌<◌, ◌≡◌, is_some, refl, true, false, some, List, [], ◌∷◌, ◌==◌, not, ◌&&◌,
  find, update, ok, arith, Option-cases, Bool-cases, inl, inr, ap,
}
use your_stack.Deploy.Enums.{DeploymentStatus, is_terminal}
use your_stack.Deploy.State.{
  App, Deployment, Store, UsageRecord, deploy_job, find_deployment, append_deployment_log,
}
use your_stack.Deploy.Trigger.{
  TriggerInput, usage_on, count_usage, last_version, find_limit, create_deployment_row,
  trigger_deployment,
}
use your_stack.Deploy.Recovery.{process_healthcheck}

usage_on-count_usage :
    (ws day : ℕ) (us : List UsageRecord)
    → usage_on ws day (count_usage ws day us) ≡ usage_on ws day us + 1
unfolding usage_on count_usage
usage_on-count_usage ws day [] = ground arith
usage_on-count_usage ws day (u ∷ us) = ground (arith, usage_on-count_usage ws day us)

-- A deployment that is triggered is queued with the next version of its app on the app's node, its job
-- waits, the workspace's count for the day grows by one, and stays within the plan.
pub record IsTriggered (s s' : Store) (d : Deployment) (app : App) (day : ℕ) : Type 0 where
  pub version : d.version ≡ suc (last_version app.id s.deployments)
  pub queued : d.status ≡ DeploymentStatus.queued
  pub placed : d.node_id ≡ app.node_id
  pub listed : s'.deployments ≡ d ∷ s.deployments
  pub waiting : s'.jobs ≡ deploy_job d.id app.id ∷ s.jobs
  pub counted : usage_on app.workspace_id day s'.usage ≡ usage_on app.workspace_id day s.usage + 1
  pub within : usage_on app.workspace_id day s'.usage ≤ find_limit app.workspace_id s.workspaces

row_inv :
    (s s' : Store) (app : App) (input : TriggerInput) (day : ℕ) (d : Deployment)
    → create_deployment_row s app input day ≡ (d, s')
    → usage_on app.workspace_id day s.usage < find_limit app.workspace_id s.workspaces
    → IsTriggered s s' d app day
unfolding create_deployment_row
row_inv s s' app input day d e lt = record {
  version = ground arith;
  queued = ground arith;
  placed = ground arith;
  listed = ground arith;
  waiting = ground arith;
  counted = ground (arith, usage_on-count_usage app.workspace_id day s.usage);
  within = ground (arith, usage_on-count_usage app.workspace_id day s.usage);
}

-- A trigger that succeeds names an app that is there, makes a queued deployment of it with the app's
-- next version on the app's node and a job for it, and adds one to the workspace's count for the day,
-- which stays within the plan's limit.
pub trigger_deployment-IsTriggered :
    (s s' : Store) (input : TriggerInput) (day : ℕ) (d : Deployment)
    → trigger_deployment s input day ≡ ok (d, s')
    → (app : App) × (find (λ a. a.id == input.app_id && not a.deleted) s.apps ≡ some app)
      × IsTriggered s s' d app day
unfolding trigger_deployment
trigger_deployment-IsTriggered s s' input day d e =
    elim (Option-cases (find (λ a. a.id == input.app_id && not a.deleted) s.apps)) [
      | inl n ↦ absurd (ground arith)
      | inr (app, f) ↦ (app, f, row_inv s s' app input day d (ground arith) (ground arith))
    ]

find_deployment-update :
    (did k : ℕ) (d : Deployment) (f : Deployment → Deployment) (ds : List Deployment)
    → k ≡ did
    → ((e : Deployment) → (f e).id ≡ e.id)
    → find_deployment did ds ≡ some d
    → find_deployment did (update (λ e. e.id == k) f ds) ≡ some (f d)
find_deployment-update did k d f [] same keeps h = cc
find_deployment-update did k d f (e ∷ ds) same keeps h =
    ground (arith, keeps e, find_deployment-update did k d f ds same keeps, ap f {x = e} {y = d})

find_deployment-id :
    (did : ℕ) (d : Deployment) (ds : List Deployment) → find_deployment did ds ≡ some d → d.id ≡ did
find_deployment-id did d [] h = cc
find_deployment-id did d (e ∷ ds) h = ground (arith, find_deployment-id did d ds)

-- After the safety net has run the deployment is in a terminal state, and one that was in a terminal
-- state before is left as it was.
pub process_healthcheck-is_terminal :
    (did now : ℕ) (s : Store) (d : Deployment)
    → find_deployment did s.deployments ≡ some d
    → (e : Deployment) × (find_deployment did (process_healthcheck did now s).deployments ≡ some e)
      × (is_terminal e.status ≡ true)
      × (is_terminal d.status ≡ true → e ≡ d)
unfolding process_healthcheck append_deployment_log is_terminal
process_healthcheck-is_terminal did now s d h = elim (Bool-cases (is_terminal d.status)) [
  | inl t ↦ (d, rw (h, process_healthcheck, t) h, t, λ _. refl)
  | inr t ↦
      let f : Deployment → Deployment = λ e. record e {
        status = DeploymentStatus.failed;
        healthy = some false;
        finished_at = some now;
      } in
      let same = find_deployment-id did d s.deployments h in
      (
        f d,
        rw (h, process_healthcheck, t)
            (find_deployment-update did d.id d f s.deployments same (λ e. refl) h),
        refl,
        λ u. cc,
      )
]

placed :
    (s : Store) (input : TriggerInput) (day : ℕ) (app : App) (r : Deployment × Store)
    → trigger_deployment s input day ≡ ok r
    → find (λ b. b.id == input.app_id && not b.deleted) s.apps ≡ some app
    → is_some app.node_id ≡ true
unfolding trigger_deployment
placed s input day app r e f = ground arith
