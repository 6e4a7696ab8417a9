-- ===== src/Tests/Fleet.antt =====
-- Firewalls, load balancers, nodes and scheduled jobs.
use your_stack.Common.{
  ℕ, String, ◌≤◌, ◌<◌, ◌≡◌, ◌≢◌, ◌↔◌, refl, true, false, Option, none, some, List, [], ◌∷◌, ◌==◌,
  find, length, All, IsIn,
}
use your_stack.Common.Text.{Text, codes}
use your_stack.Common.Int.{pos, negsuc}
use your_stack.Rbac.{
  role_has_permission, has, role_permissions, set_from, owner_permissions, all_permissions,
}
use your_stack.Tests.Access.{alice, tables}
use your_stack.Network.{
  FirewallRuleRow, FirewallRow, FirewallStatus, FirewallAction, FirewallStore, job_spec,
  process_firewall, dedupe_targets, LbTargetRow,
}
use your_stack.Network.RuleOrder.{command_for, process_firewall-reaches}
use your_stack.Network.TargetWeights.{IsClean, weight_of, given_weight, dedupe_targets-IsClean}
use your_stack.Deploy.{NodeCommand, CommandStatus, CommandPayload}
use your_stack.Nodes.{
  NodeRow, NodeStatus, Registry, heartbeat, drain_node, node_liveness, pick_node, claim_commands,
  queued_for, is_pending,
}
use your_stack.Nodes.Freshness.{HeardWithin, pick_node-node_liveness}
use your_stack.Nodes.Delivery.{claim_commands-delivers}
use your_stack.Nodes.Draining.{heartbeat-drain_node}
use your_stack.Cron.{
  patch_cron, CronJob, CronJobStatus, CronStore, RunJobCommand, ReportedStatus, process_cron,
  apply_cron_run_result, find_cron, cron_run_status, default_exit,
}
use your_stack.Cron.Lifecycle.{process_cron-patch_cron, apply_cron_run_result-process_cron}

abbrev rule : String → ℕ → FirewallRuleRow
rule cidr position = record {
  direction = "inbound";
  action = "allow";
  protocol = "tcp";
  port = some "22";
  cidr = cidr;
  comment = none;
  position = position;
}

abbrev pub wall : FirewallRow
wall = record {
  id = 1;
  workspace_id = 10;
  default_inbound = "deny";
  default_outbound = "allow";
  rules = rule "10.0.0.0/8" 2 ∷ rule "" 1 ∷ [];
  node_ids = 7 ∷ 8 ∷ [];
  status = FirewallStatus.draft;
  deleted = false;
}

abbrev pub walls : FirewallStore
walls = record { firewalls = wall ∷ []; nodes = 7 ∷ 8 ∷ 9 ∷ []; commands = []; jobs = [] }

process_firewall-reaches_example :
    All
      (λ n.
        IsIn
          (command_for (job_spec FirewallAction.apply wall) n)
          (process_firewall 1 FirewallAction.apply walls).commands)
      (7 ∷ 8 ∷ [])
process_firewall-reaches_example =
    process_firewall-reaches 1 FirewallAction.apply walls wall refl refl (refl, (refl, tt))

abbrev targets : List LbTargetRow
targets =
    record { address = codes "a:80"; weight = pos 2 }
    ∷ record { address = codes " a:80 "; weight = negsuc 0 }
    ∷ record { address = codes " "; weight = pos 1 }
    ∷ []

dedupe_targets-IsClean_example :
    IsClean (dedupe_targets targets)
    × ((a : Text) → a ≢ [] → weight_of a (dedupe_targets targets) ≡ given_weight a targets)
dedupe_targets-IsClean_example = dedupe_targets-IsClean targets

abbrev node : ℕ → NodeStatus → Option ℕ → NodeRow
node id status last = record {
  id = id;
  workspace_id = 10;
  status = status;
  region = none;
  disabled = false;
  last_heartbeat_at = last;
  deleted = false;
}

abbrev pub fleet : List NodeRow
fleet =
    node 7 NodeStatus.degraded (some 60_000)
    ∷ node 8 NodeStatus.online (some 20_000)
    ∷ node 9 NodeStatus.draining (some 99_000)
    ∷ []

pick_node-node_liveness_example :
    IsIn (node 7 NodeStatus.online (some 60_000)) (node_liveness 100_000 fleet)
    × ◌≡◌ {A = ℕ} 10 10
    × (NodeStatus.online ≡ NodeStatus.online)
    × (false ≡ false)
    × (false ≡ false)
    × HeardWithin 45_000 100_000 (some 60_000)
unfolding pick_node node_liveness
pick_node-node_liveness_example =
    pick_node-node_liveness 100_000 10 none fleet (node 7 NodeStatus.online (some 60_000)) refl

abbrev command : ℕ → CommandStatus → ℕ → NodeCommand
command id status issued_at = record {
  id = id;
  node_id = 7;
  payload = CommandPayload.other_command;
  status = status;
  signature = "s";
  timeout_ms = 300_000;
  deployment_id = none;
  app_id = none;
  issued_at = issued_at;
  accepted_at = none;
  started_at = none;
  finished_at = none;
}

abbrev queue : List NodeCommand
queue =
    command 3 CommandStatus.queued 30
    ∷ command 2 CommandStatus.accepted 20
    ∷ command 1 CommandStatus.queued 10
    ∷ []

claim_commands-delivers_example : length (claim_commands 7 50 queue).0 ≤ 10
claim_commands-delivers_example = (claim_commands-delivers 7 50 queue).0

abbrev registry : Registry
registry = record { nodes = fleet; commands = queue }

abbrev drained : Registry
drained = record registry {
  nodes =
      node 7 NodeStatus.draining (some 60_000)
      ∷ node 8 NodeStatus.online (some 20_000)
      ∷ node 9 NodeStatus.draining (some 99_000)
      ∷ [];
}

abbrev heard_registry : Registry
heard_registry = record registry {
  nodes =
      node 7 NodeStatus.online (some 100_000)
      ∷ node 8 NodeStatus.online (some 20_000)
      ∷ node 9 NodeStatus.draining (some 99_000)
      ∷ [];
}

heartbeat-drain_node_example :
    (NodeStatus.online ≡ NodeStatus.online)
    × ((a : NodeRow)
        → find (λ n. n.id == 7) heard_registry.nodes ≡ some a
        → a.status ≡ NodeStatus.online)
    × ((true ≡ true) ↔ (queued_for 7 queue ≢ []))
unfolding heartbeat drain_node is_pending role_has_permission has role_permissions set_from
    owner_permissions all_permissions
heartbeat-drain_node_example =
    heartbeat-drain_node tables (some alice) 7 100_000 registry drained heard_registry
      record { desired_status = NodeStatus.online; has_pending_commands = true } refl refl

abbrev nightly : CronJob
nightly = record {
  id = 5;
  node_id = some 7;
  schedule = "0 3 * * *";
  status = CronJobStatus.active;
  timeout_seconds = 60;
  last_run_status = none;
  deleted = false;
}

abbrev crons : CronStore
crons = record {
  cron_jobs = nightly ∷ [];
  cron_runs = [];
  nodes = 7 ∷ [];
  commands = [];
  scheduler_calls = [];
  next_id = 40;
}

process_cron-patch_cron_example :
    process_cron 5 true (patch_cron 5 none (some true) crons) ≡ patch_cron 5 none (some true) crons
process_cron-patch_cron_example = process_cron-patch_cron 5 none crons

apply_cron_run_result-process_cron_example :
    (k : RunJobCommand) × ((process_cron 5 true crons).commands ≡ k ∷ [])
    × (k.node_id ≡ 7)
    × (k.spec_timeout_ms < k.timeout_ms)
    × (find_cron 5
          (apply_cron_run_result k ReportedStatus.succeeded none none (process_cron 5 true crons))
        ≡ some (record nightly {
          status = CronJobStatus.active;
          last_run_status = some (cron_run_status ReportedStatus.succeeded);
        }))
    × (find
          (λ q. q.id == k.run_id)
          (apply_cron_run_result k ReportedStatus.succeeded none none
            (process_cron 5 true crons)).cron_runs
        ≡ some record {
          id = k.run_id;
          cron_job_id = 5;
          status = cron_run_status ReportedStatus.succeeded;
          exit_code = some (default_exit (cron_run_status ReportedStatus.succeeded));
          duration_ms = none;
        })
apply_cron_run_result-process_cron_example =
    apply_cron_run_result-process_cron 5 nightly 7 crons (refl, refl, refl, refl, refl, refl)
      ReportedStatus.succeeded none none
