-- ===== src/Deploy/Release.antt =====
-- A deployment from its job to the report that it runs.
use your_stack.Common.{
  ℕ, suc, ◌≡◌, refl, ◌∙◌, ap, Bool, true, false, some, List, [], ◌∷◌, String, ◌==◌, find,
  find-update, any, update, or_else, arith,
}
use your_stack.Deploy.Enums.{AppStatus, DeploymentStatus, CommandStatus}
use your_stack.Deploy.State.{App, Deployment, DeploySpec, Node, Store, find_app, find_deployment}
use your_stack.Deploy.Process.{Envelope, process_deploy}
use your_stack.Deploy.Outcome.{
  CommandResult, finalized, reported, is_other_running, settle_deploy, close_pipeline_run,
  finalize_successful_deploy, report_deploy, apply_command_result,
}
use your_stack.Deploy.Dispatch.{packaged, building, deploy_command, process_deploy-Leaves}

-- A row that is found stays where an update changes only rows that do not pass.
find-update-other {ℓ} :
    {A : Type ℓ} (p q : A → Bool) (f : A → A) (xs : List A) (a : A)
    → ((x : A) → p (f x) ≡ p x)
    → ((x : A) → p x ≡ true → q x ≡ false)
    → find p xs ≡ some a
    → find p (update q f xs) ≡ some a
find-update-other p q f [] a same apart h = absurd (cc h)
find-update-other p q f (x ∷ xs) a same apart h =
    ground (arith, h, same x, apart x, find-update-other p q f xs a same apart)

-- The transaction on a healthy report.
settle_deploy-rows :
    (d : Deployment) (app : App) (result : CommandResult) (now : ℕ) (s : Store)
    → find_deployment d.id s.deployments ≡ some d
    → find_app d.app_id s.apps ≡ some app
    → (find_deployment d.id (settle_deploy d d.id true result now s).deployments
        ≡ some (finalized true result now d))
      × (find_app d.app_id (settle_deploy d d.id true result now s).apps
          ≡ some (record app {
            status = AppStatus.running;
            current_deployment_id = some d.id;
            node_id = d.node_id;
          }))
unfolding settle_deploy
settle_deploy-rows d app result now s row of_app =
    let p : Deployment → Bool = λ e. e.id == d.id in
    (
      find-update-other p (is_other_running d)
          (λ e. record e { status = DeploymentStatus.superseded })
          (update p (finalized true result now) s.deployments) (finalized true result now d)
          (λ e. refl) (λ e h. ground (arith, h))
          (find-update p (finalized true result now) s.deployments d (λ e. refl) row),
      find-update (λ a. a.id == d.app_id)
          (λ a. record a {
            status = AppStatus.running;
            current_deployment_id = some d.id;
            node_id = d.node_id;
          })
          s.apps app (λ a. refl) of_app,
    )

finalize-healthy :
    (did : ℕ) (d : Deployment) (result : CommandResult) (now : ℕ) (s : Store)
    → find_deployment did s.deployments ≡ some d
    → or_else result.healthy true ≡ true
    → finalize_successful_deploy did result now s
      ≡ close_pipeline_run did true now (settle_deploy d did true result now s)
unfolding finalize_successful_deploy
finalize-healthy did d result now s found healthy =
    rw (found, finalize_successful_deploy)
      (ap (λ h. close_pipeline_run did h now (settle_deploy d did h result now s)) healthy)

module _ (sign : String → Envelope → String) where
  -- A deploy job for a deployment that has not run, of an app on a node that exists, whose spec is
  -- built, queues one command for that node on top of the commands that there are; and a report that the
  -- command succeeded, unless it says that the container is not healthy, makes the deployment run as the
  -- current one of its running app, on the deployment's node.
  pub process_deploy-runs :
      (node_id now later : ℕ) (d : Deployment) (app : App) (node : Node) (spec : DeploySpec)
      (result : CommandResult) (s : Store)
      → find_deployment d.id s.deployments ≡ some d
      → find_app d.app_id s.apps ≡ some app
      → app.node_id ≡ some node_id
      → find (λ n. n.id == node_id) s.nodes ≡ some node
      → any (λ r. r.deployment_id == d.id) s.runs ≡ false
      → result.status ≡ CommandStatus.succeeded
      → or_else result.healthy true ≡ true
      → let c = deploy_command sign d node spec (suc s.next_id) now in
        let dispatched = process_deploy sign d.id (some spec) now s in
        let done = apply_command_result c result later dispatched in
        (dispatched.commands ≡ c ∷ s.commands)
        × (find_deployment d.id done.deployments
            ≡ some (finalized true result later (packaged spec d)))
        × (find_app d.app_id done.apps
            ≡ some (record app {
              status = AppStatus.running;
              current_deployment_id = some d.id;
              node_id = d.node_id;
            }))
  unfolding apply_command_result report_deploy close_pipeline_run
  process_deploy-runs node_id now later d app node spec result s row of_app on found fresh succeeds
        healthy =
      let c = deploy_command sign d node spec (suc s.next_id) now in
      let s1 = process_deploy sign d.id (some spec) now s in
      let l = process_deploy-Leaves sign node_id now d app node spec s row of_app on found fresh in
      let s2 : Store = record s1 {
        commands = update (λ e. e.id == c.id) (reported result.status later) s1.commands;
      } in
      let p : Deployment → Bool = λ e. e.id == d.id in
      let kept : find_deployment d.id s1.deployments ≡ some (packaged spec d) =
        ap (find_deployment d.id) l.rows
        ∙ find-update p (packaged spec) (update p building s.deployments) (building d) (λ e. refl)
            (find-update p building s.deployments d (λ e. refl) row) in
      let stays : find_app d.app_id s1.apps ≡ some app = ap (find_app d.app_id) l.apps ∙ of_app in
      let rows = settle_deploy-rows (packaged spec d) app result later s2 kept stays in
      let whole : report_deploy result.status result d.id later s2
          ≡ close_pipeline_run d.id true later
              (settle_deploy (packaged spec d) d.id true result later s2) =
        ap (λ x. report_deploy x result d.id later s2) succeeds
        ∙ finalize-healthy d.id (packaged spec d) result later s2 kept healthy in
      (
        l.sent,
        ap (λ x. find_deployment d.id x.deployments) whole ∙ rows.0,
        ap (λ x. find_app d.app_id x.apps) whole ∙ rows.1,
      )
