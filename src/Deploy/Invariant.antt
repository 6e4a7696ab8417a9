-- ===== src/Deploy/Invariant.antt =====
-- What every handler of the deploy path keeps: the rows of the deployments are sound.
use your_stack.Common.{
  ℕ, suc, ◌≡◌, refl, Bool, true, false, Option, none, some, List, ◌∷◌, String, ◌==◌, or_else, find,
  any, ok, arith, Option-cases, Bool-cases, inl, inr, not, ◌&&◌,
}
use your_stack.Deploy.Enums.{DeploymentStatus, StageName, deploy, CommandStatus, is_terminal}
use your_stack.Deploy.State.{
  App, info, Deployment, DeploySpec, NodeCommand, Store, find_app, find_deployment,
  update_deployment, append_deployment_log,
}
use your_stack.Deploy.Trigger.{TriggerInput, create_deployment_row, trigger_deployment}
use your_stack.Deploy.Process.{
  Envelope, CommandInput, new_run, start_stage, fail_deployment, create_signed_command, prepare,
  package_spec, dispatch_deploy, abort, run_pipeline, deploy_on, deploy_app_of, deploy_found,
}
use your_stack.Deploy.Outcome.{
  CommandResult, finalized, settle_deploy, finalize_successful_deploy, fail_deploy,
  close_pipeline_run, report_deploy, apply_command_result, is_deploy_payload,
}
use your_stack.Deploy.Recovery.{process_healthcheck}
use your_stack.Deploy.Rows.{IsSound, IsSound-update, IsSound-create, IsSound-promote, IsFresh-suc}

abbrev pub Sound : Store → Type 0
Sound s = IsSound s.next_id s.deployments

IsSound-suc : (n : ℕ) (ds : List Deployment) → IsSound n ds → IsSound (suc n) ds
IsSound-suc n ds h = record {
  apart = h.apart;
  fresh = IsFresh-suc n ds h.fresh;
  one_running = h.one_running;
}

pub create_deployment_row-Sound :
    (s : Store) (app : App) (input : TriggerInput) (day : ℕ)
    → Sound s
    → Sound (create_deployment_row s app input day).1
unfolding create_deployment_row
create_deployment_row-Sound s app input day h =
    IsSound-create _ s.next_id s.deployments refl refl refl h

pub trigger_inv :
    (s s' : Store) (input : TriggerInput) (day : ℕ) (d : Deployment)
    → trigger_deployment s input day ≡ ok (d, s')
    → (app : App) × (create_deployment_row s app input day ≡ (d, s'))
unfolding trigger_deployment
trigger_inv s s' input day d e =
    elim (Option-cases (find (λ a. a.id == input.app_id && not a.deleted) s.apps)) [
      | inl n ↦ absurd (ground arith)
      | inr (app, f) ↦ (app, ground arith)
    ]

fail_deployment-Sound :
    (did aid now : ℕ) (s : Store) → Sound s → Sound (fail_deployment did aid now s)
unfolding fail_deployment
fail_deployment-Sound did aid now s h =
    IsSound-update _ _ (λ d. (refl, refl, refl)) (λ d. refl) _ _ h

module _ (sign : String → Envelope → String) where
  prepare-Sound : (rid did now : ℕ) (s : Store) → Sound s → Sound (prepare sign rid did now s)
  unfolding prepare append_deployment_log
  prepare-Sound rid did now s h = h

  package_spec-Sound :
      (rid did now : ℕ) (spec : DeploySpec) (s : Store)
      → Sound s
      → Sound (package_spec sign rid did spec now s)
  unfolding package_spec append_deployment_log
  package_spec-Sound rid did now spec s h =
      IsSound-update _ _ (λ d. (refl, refl, refl)) (λ d. refl) _ _ h

  pub create_signed_command-rows :
      (input : CommandInput) (now : ℕ) (s s' : Store)
      → create_signed_command sign input now s ≡ some s'
      → (s'.deployments ≡ s.deployments) × (s'.next_id ≡ suc s.next_id)
  unfolding create_signed_command
  create_signed_command-rows input now s s' e = ground arith

  -- What leaves the rows alone, but for new ids, keeps them sound.
  pub Sound-congr :
      (s s' : Store)
      → (s'.deployments ≡ s.deployments) × (s'.next_id ≡ suc s.next_id)
      → Sound s
      → Sound s'
  Sound-congr s s' (rows, next) h = rw (rows, next) (IsSound-suc s.next_id s.deployments h)

  dispatch_deploy-rows :
      (rid now node : ℕ) (d : Deployment) (spec : DeploySpec) (s s' : Store)
      → dispatch_deploy sign rid d node spec now s ≡ some s'
      → (s'.deployments ≡ s.deployments) × (s'.next_id ≡ suc s.next_id)
  unfolding dispatch_deploy append_deployment_log start_stage create_signed_command
  dispatch_deploy-rows rid now node d spec s s' e = ground arith

  abort-Sound :
      (rid now : ℕ) (d : Deployment) (s : Store) → Sound s → Sound (abort sign rid d now s)
  unfolding abort append_deployment_log
  abort-Sound rid now d s h = IsSound-update _ _ (λ d. (refl, refl, refl)) (λ d. refl) _ _ h

  start-Sound :
      (rid did now : ℕ) (name : StageName) (s : Store)
      → Sound s
      → Sound (append_deployment_log did info (start_stage rid name now s))
  unfolding append_deployment_log start_stage
  start-Sound rid did now name s h = h

  run_pipeline-Sound :
      (rid node now : ℕ) (d : Deployment) (built : Option DeploySpec) (s : Store)
      → Sound s
      → Sound (run_pipeline sign rid d node built now s)
  unfolding run_pipeline
  run_pipeline-Sound rid node now d none s h =
      abort-Sound rid now d _ (prepare-Sound rid d.id now s h)
  run_pipeline-Sound rid node now d (some spec) s h =
      let s1 = package_spec sign rid d.id spec now (prepare sign rid d.id now s) in
      let h1 = package_spec-Sound rid d.id now spec _ (prepare-Sound rid d.id now s h) in
      elim (Option-cases (dispatch_deploy sign rid d node spec now s1)) [
        | inl n ↦ rw n (abort-Sound rid now d _ (start-Sound rid d.id now deploy s1 h1))
        | inr (s', e) ↦
            rw e (Sound-congr s1 s' (dispatch_deploy-rows rid now node d spec s1 s' e) h1)
      ]

  building-Sound :
      (s : Store) (d : Deployment)
      → Sound s
      → Sound (
          append_deployment_log d.id info (
            update_deployment d.id
              (λ e. record e { status = DeploymentStatus.building })
              (record s { runs = new_run s.next_id d ∷ s.runs; next_id = suc s.next_id })))
  unfolding append_deployment_log
  building-Sound s d h =
      IsSound-update _ _ (λ d. (refl, refl, refl)) (λ d. refl) _ _
        (IsSound-suc s.next_id s.deployments h)

  deploy_on-Sound :
      (d : Deployment) (app : App) (node : Option ℕ) (built : Option DeploySpec) (now : ℕ)
      (s : Store)
      → Sound s
      → Sound (deploy_on sign d app node built now s)
  unfolding deploy_on
  deploy_on-Sound d app none built now s h = fail_deployment-Sound d.id app.id now s h
  deploy_on-Sound d app (some node) built now s h =
      elim (Bool-cases (any (λ r. r.deployment_id == d.id) s.runs)) [
        | inl old ↦ rw old h
        | inr new ↦ rw new (run_pipeline-Sound s.next_id node now d built _ (building-Sound s d h))
      ]

  deploy_app_of-Sound :
      (d : Deployment) (app : Option App) (built : Option DeploySpec) (now : ℕ) (s : Store)
      → Sound s
      → Sound (deploy_app_of sign d app built now s)
  unfolding deploy_app_of
  deploy_app_of-Sound d none built now s h = h
  deploy_app_of-Sound d (some app) built now s h = deploy_on-Sound d app app.node_id built now s h

  pub deploy_found-Sound :
      (d : Option Deployment) (built : Option DeploySpec) (now : ℕ) (s : Store)
      → Sound s
      → Sound (deploy_found sign d built now s)
  unfolding deploy_found
  deploy_found-Sound none built now s h = h
  deploy_found-Sound (some d) built now s h =
      deploy_app_of-Sound d (find_app d.app_id s.apps) built now s h

close_pipeline_run-Sound :
    (did now : ℕ) (b : Bool) (s : Store) → Sound s → Sound (close_pipeline_run did b now s)
unfolding close_pipeline_run
close_pipeline_run-Sound did now b s h = h

settle_deploy-Sound :
    (d : Deployment) (did now : ℕ) (healthy : Bool) (result : CommandResult) (s : Store)
    → find_deployment did s.deployments ≡ some d
    → Sound s
    → Sound (settle_deploy d did healthy result now s)
unfolding settle_deploy
settle_deploy-Sound d did now true result s e h =
    IsSound-promote s.next_id did d (finalized true result now) s.deployments
      (λ x. (refl, refl, refl)) e h
settle_deploy-Sound d did now false result s e h =
    IsSound-update _ _ (λ x. (refl, refl, refl)) (λ x. refl) _ _ h

finalize_successful_deploy-Sound :
    (did now : ℕ) (result : CommandResult) (s : Store)
    → Sound s
    → Sound (finalize_successful_deploy did result now s)
unfolding finalize_successful_deploy
finalize_successful_deploy-Sound did now result s h =
    elim (Option-cases (find_deployment did s.deployments)) [
      | inl n ↦ rw (n, finalize_successful_deploy) h
      | inr (d, e) ↦
          rw (e, finalize_successful_deploy)
            (close_pipeline_run-Sound did now (or_else result.healthy true)
              (settle_deploy d did (or_else result.healthy true) result now s)
              (settle_deploy-Sound d did now (or_else result.healthy true) result s e h))
    ]

fail_deploy-Sound : (did now : ℕ) (s : Store) → Sound s → Sound (fail_deploy did now s)
unfolding fail_deploy close_pipeline_run
fail_deploy-Sound did now s h = elim (Option-cases (find_deployment did s.deployments)) [
  | inl n ↦ rw (n, fail_deploy) h
  | inr (d, e) ↦
      rw (e, fail_deploy) (IsSound-update _ _ (λ x. (refl, refl, refl)) (λ x. refl) _ _ h)
]

report_deploy-Sound :
    (status : CommandStatus) (result : CommandResult) (did now : ℕ) (s : Store)
    → Sound s
    → Sound (report_deploy status result did now s)
unfolding report_deploy
report_deploy-Sound CommandStatus.queued result did now s h = h
report_deploy-Sound CommandStatus.accepted result did now s h = h
report_deploy-Sound CommandStatus.running result did now s h =
    IsSound-update _ _ (λ x. (refl, refl, refl)) (λ x. refl) _ _ h
report_deploy-Sound CommandStatus.succeeded result did now s h =
    finalize_successful_deploy-Sound did now result s h
report_deploy-Sound CommandStatus.failed result did now s h = fail_deploy-Sound did now s h
report_deploy-Sound CommandStatus.timed_out result did now s h = fail_deploy-Sound did now s h

pub apply_command_result-Sound :
    (c : NodeCommand) (result : CommandResult) (now : ℕ) (s : Store)
    → Sound s
    → Sound (apply_command_result c result now s)
unfolding apply_command_result
apply_command_result-Sound c result now s h = elim (Option-cases c.deployment_id) [
  | inl n ↦ rw n h
  | inr (did, e) ↦ elim (Bool-cases (is_deploy_payload c.payload)) [
    | inl y ↦ rw (e, y) (report_deploy-Sound result.status result did now _ h)
    | inr n ↦ rw (e, n) h
  ]
]

pub process_healthcheck-Sound :
    (did now : ℕ) (s : Store) → Sound s → Sound (process_healthcheck did now s)
unfolding process_healthcheck append_deployment_log
process_healthcheck-Sound did now s h = elim (Option-cases (find_deployment did s.deployments)) [
  | inl n ↦ rw (n, process_healthcheck) h
  | inr (d, e) ↦ elim (Bool-cases (is_terminal d.status)) [
    | inl t ↦ rw (e, t, process_healthcheck) h
    | inr t ↦
        rw (e, t, process_healthcheck)
          (IsSound-update _ _ (λ x. (refl, refl, refl)) (λ x. refl) _ _ h)
  ]
]
