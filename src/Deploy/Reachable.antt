-- ===== src/Deploy/Reachable.antt =====
-- The states that the handlers of the deploy path reach.
use your_stack.Common.{
  ℕ, ◌≡◌, refl, ap, subst, Option, some, List, String, ◌==◌, find, ok, arith, Option-cases, inl,
  inr, ◌&&◌,
}
use your_stack.Deploy.State.{
  App, Deployment, DeploySpec, NodeCommand, Store, find_app, find_deployment, append_deployment_log,
}
use your_stack.Deploy.Trigger.{
  TriggerInput, create_deployment_row, trigger_deployment, create_deployment,
}
use your_stack.Deploy.Process.{Envelope, create_signed_command, process_deploy}
use your_stack.Deploy.Outcome.{CommandResult, apply_command_result}
use your_stack.Deploy.Recovery.{
  process_healthcheck, record_rollback, rollback_command, issue_rollback, process_rollback,
}
use your_stack.Deploy.Rows.{IsSound-create}
use your_stack.Deploy.Invariant.{
  Sound, create_deployment_row-Sound, trigger_inv, apply_command_result-Sound,
  process_healthcheck-Sound, deploy_found-Sound, create_signed_command-rows, Sound-congr,
}

record_rollback-Sound :
    (app : App) (target : Deployment) (by : String) (now : ℕ) (s : Store)
    → Sound s
    → Sound (record_rollback app target by now s)
unfolding record_rollback append_deployment_log
record_rollback-Sound app target by now s h =
    IsSound-create _ s.next_id s.deployments refl refl refl h

issue_rollback-Sound :
    (sign : String → Envelope → String) (app : App) (node : ℕ) (target : Deployment)
    (snapshot : DeploySpec) (by : String) (env : List (String × String)) (now : ℕ) (s : Store)
    → Sound s
    → Sound (issue_rollback sign app node target snapshot by env now s)
unfolding issue_rollback
issue_rollback-Sound sign app node target snapshot by env now s h =
    let s1 = record_rollback app target by now s in
    let h1 = record_rollback-Sound app target by now s h in
    let input = rollback_command app node target snapshot env s.next_id in
    elim (Option-cases (create_signed_command sign input now s1)) [
      | inl n ↦ rw n h1
      | inr (s2, e) ↦
          rw e (Sound-congr sign s1 s2 (create_signed_command-rows sign input now s1 s2 e) h1)
    ]

rollback_inv :
    (sign : String → Envelope → String) (aid tid now : ℕ) (by : String)
    (env : List (String × String)) (s s' : Store)
    → process_rollback sign aid tid by env now s ≡ some s'
    → (app : App) × (node : ℕ) × (target : Deployment) × (snapshot : DeploySpec) × (s'
        ≡ issue_rollback sign app node target snapshot by env now s)
unfolding process_rollback
rollback_inv sign aid tid now by env s s' e = elim (Option-cases (find_app aid s.apps)) [
  | inl n ↦ absurd (ground arith)
  | inr (app, f) ↦ elim (Option-cases app.node_id) [
    | inl n ↦ absurd (ground arith)
    | inr (node, g) ↦
        elim (Option-cases (find (λ d. d.id == tid && d.app_id == app.id) s.deployments)) [
          | inl n ↦ absurd (ground arith)
          | inr (target, t) ↦ elim (Option-cases target.spec_snapshot) [
            | inl n ↦ absurd (ground arith)
            | inr (snapshot, k) ↦ (app, node, target, snapshot, ground arith)
          ]
        ]
  ]
]

-- One run of a handler of the deploy path.
pub data Step (sign : String → Envelope → String) (s s' : Store) : Type 0 where
  trigger :
      (input : TriggerInput) (day : ℕ) (d : Deployment)
      → trigger_deployment s input day ≡ ok (d, s')
      → Step sign s s'
  webhook :
      (app : App) (input : TriggerInput) (day : ℕ) (d : Deployment)
      → create_deployment s app input day ≡ some (d, s')
      → Step sign s s'
  process :
      (did now : ℕ) (built : Option DeploySpec)
      → s' ≡ process_deploy sign did built now s
      → Step sign s s'
  report :
      (c : NodeCommand) (result : CommandResult) (now : ℕ)
      → s' ≡ apply_command_result c result now s
      → Step sign s s'
  timeout : (did now : ℕ) → s' ≡ process_healthcheck did now s → Step sign s s'
  rollback :
      (aid tid now : ℕ) (by : String) (env : List (String × String))
      → process_rollback sign aid tid by env now s ≡ some s'
      → Step sign s s'

Step-Sound :
    (sign : String → Envelope → String) (s s' : Store) → Step sign s s' → Sound s → Sound s'
unfolding create_deployment process_deploy
Step-Sound sign s s' (trigger input day d e) h =
    let (app, same) = trigger_inv s s' input day d e in
    subst Sound (ap (λ (r : Deployment × Store). r.1) same)
      (create_deployment_row-Sound s app input day h)
Step-Sound sign s s' (webhook app input day d e) h =
    let same : create_deployment_row s app input day ≡ (d, s') = ground arith in
    subst Sound (ap (λ (r : Deployment × Store). r.1) same)
      (create_deployment_row-Sound s app input day h)
Step-Sound sign s s' (process did now built e) h =
    rw e (deploy_found-Sound sign (find_deployment did s.deployments) built now s h)
Step-Sound sign s s' (report c result now e) h = rw e (apply_command_result-Sound c result now s h)
Step-Sound sign s s' (timeout did now e) h = rw e (process_healthcheck-Sound did now s h)
Step-Sound sign s s' (rollback aid tid now by env e) h =
    let (app, node, target, snapshot, same) = rollback_inv sign aid tid now by env s s' e in
    rw same (issue_rollback-Sound sign app node target snapshot by env now s h)

pub data Reach (sign : String → Envelope → String) (s : Store) : Store → Type 0 where
  here : Reach sign s s
  next : {t u : Store} → Reach sign s t → Step sign t u → Reach sign s u

-- Whatever the handlers of the deploy path do, in whatever order, each app has one running deployment
-- at most, no two deployments of an app have one version, and no two have one id.
pub Reach-Sound :
    (sign : String → Envelope → String) {s t : Store} → Reach sign s t → Sound s → Sound t
Reach-Sound sign here h = h
Reach-Sound sign (next r st) h = Step-Sound sign _ _ st (Reach-Sound sign r h)
