-- ===== src/Tests/Pools.antt =====
-- Pools of runners and scaling policies.
use your_stack.Common.{
  ℕ, ◌+◌, ◌*◌, ◌/◌, ◌≤◌, ◌≡◌, refl, true, false, none, some, [], ◌∷◌, ◌==◌, ◌⊎◌, find, ltb, leb,
  arith,
}
use your_stack.Common.Text.{codes, decimal}
use your_stack.Nodes.{NodeRow, NodeStatus, pick_online_node}
use your_stack.Scaling.{
  idle, Runner, RunnerPool, RunnerStore, desired_runners, process_runner, Doubles, ScalingMetric,
  ScalingPolicy, AutoscaleStore, process_autoscale, recent_metrics, cpu_percent,
}
use your_stack.Scaling.Reconcile.{IsUnique, live_count, process_runner-reaches}
use your_stack.Scaling.Bounds.{process_autoscale-bounds, process_autoscale-cooldown}

abbrev pool : RunnerPool
pool = record {
  id = 1;
  workspace_id = 9;
  github_scope = codes "o";
  labels = [];
  min_runners = 1;
  max_runners = 2;
}

abbrev runner : ℕ → Runner
runner id = record { id = id; pool_id = 1; node_id = some 5; status = idle; container_name = none }

abbrev host : NodeRow
host = record {
  id = 5;
  workspace_id = 9;
  status = NodeStatus.online;
  region = none;
  disabled = false;
  last_heartbeat_at = some 100;
  deleted = false;
}

-- Three idle runners in a pool of two at most.
abbrev crowded : RunnerStore
crowded = record {
  pools = pool ∷ [];
  runners = runner 3 ∷ runner 2 ∷ runner 1 ∷ [];
  nodes = host ∷ [];
  commands = [];
  next_id = 4;
}

crowded-IsUnique : IsUnique crowded.runners
crowded-IsUnique = (ground arith, (ground arith, (tt, tt)))

process_runner-reaches_example :
    live_count 1 (process_runner decimal 1 (some 7) crowded).runners ≡ desired_runners (some 7) pool
unfolding pick_online_node
process_runner-reaches_example =
    process_runner-reaches decimal 1 (some 7) crowded pool 5 refl refl crowded-IsUnique
      (refl, (refl, (refl, tt)))

-- Numbers in hundredths.
abbrev hundredths : Doubles
hundredths = record {
  Double = ℕ;
  of_nat = λ n. n * 100;
  add = λ a b. a + b;
  mul = λ a b. a * b / 100;
  div = λ a b. a * 100 / b;
  is_less = ltb;
  is_at_most = leb;
  ceil = λ a. (a + 99) / 100;
  nine_tenths = 90;
  eleven_tenths = 110;
}

abbrev policy : ScalingPolicy hundredths
policy = record {
  app_id = 2;
  enabled = true;
  min_replicas = 1;
  max_replicas = 3;
  metric = ScalingMetric.cpu;
  target_value = 7000;
  current_replicas = 2;
  cooldown_seconds = 120;
  last_scaled_at = none;
}

-- An app at 140 percent of the load that is aimed at.
abbrev busy_app : AutoscaleStore hundredths
busy_app = record {
  policies = policy ∷ [];
  apps = record { id = 2; node_id = some 5; deleted = false } ∷ [];
  metrics = record { target_id = 2; kind = cpu_percent; value = 9800; bucket_ts = 1000 } ∷ [];
  nodes = 5 ∷ [];
  commands = [];
}

abbrev scaled : ScalingPolicy hundredths
scaled = record policy { current_replicas = 3; last_scaled_at = some 2000 }

process_autoscale-bounds_example :
    (q : ScalingPolicy hundredths) × (find
        (λ p. p.app_id == 2)
        (process_autoscale hundredths 2 2000 busy_app).policies
      ≡ some q)
    × (1 ≤ q.current_replicas)
    × (q.current_replicas ≤ 3)
unfolding recent_metrics
process_autoscale-bounds_example =
    process_autoscale-bounds hundredths 2 2000 5 policy busy_app (refl, refl, refl, refl) refl
      (λ e. cc) (omega arith)

process_autoscale-cooldown_example :
    (process_autoscale hundredths 2 2000 busy_app ≡ busy_app)
    ⊎ (process_autoscale hundredths 2 60000 (process_autoscale hundredths 2 2000 busy_app)
        ≡ process_autoscale hundredths 2 2000 busy_app)
process_autoscale-cooldown_example =
    process_autoscale-cooldown hundredths 2 2000 60000 5 policy busy_app (refl, refl, refl, refl)
      (omega arith)
