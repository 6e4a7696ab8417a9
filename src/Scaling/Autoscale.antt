-- ===== src/Scaling/Autoscale.antt =====
-- `processAutoscale` of apps/worker/src/processors/autoscale.ts. Times are in milliseconds, a command
-- whose node is not found throws and ends the job.
use your_stack.Common.{
  ℕ, zero, suc, ◌+◌, ◌*◌, Bool, false, Option, none, some, List, [], ◌∷◌, ◌==◌, ◌&&◌, ◌||◌, not,
  find, filter, any, update, length, ltb, leb, if◌then◌else◌,
}
use your_stack.Scaling.Replicas.{Doubles, ReplicaDecision, compute_desired_replicas}

pub data ScalingMetric : Type 0 where
  cpu : ScalingMetric
  memory : ScalingMetric
  rps : ScalingMetric
  latency : ScalingMetric

pub data MetricKind : Type 0 where
  cpu_percent : MetricKind
  mem_percent : MetricKind
  rps : MetricKind
  latency_ms : MetricKind
  other_kind : MetricKind

-- `METRIC_KIND`
abbrev pub metric_kind : ScalingMetric → MetricKind
metric_kind ScalingMetric.cpu = cpu_percent
metric_kind ScalingMetric.memory = mem_percent
metric_kind ScalingMetric.rps = MetricKind.rps
metric_kind ScalingMetric.latency = latency_ms

abbrev pub kind_code : MetricKind → ℕ
kind_code cpu_percent = 0
kind_code mem_percent = 1
kind_code MetricKind.rps = 2
kind_code latency_ms = 3
kind_code other_kind = 4

pub record ScaledApp : Type 0 where
  pub id : ℕ
  pub node_id : Option ℕ
  pub deleted : Bool

-- SCALE_APP, without the name and the resources of the container.
pub record ScaleCommand : Type 0 where
  pub node_id : ℕ
  pub app_id : ℕ
  pub replicas : ℕ

abbrev pub app_node : Option ScaledApp → Option ℕ
app_node none = none
app_node (some app) = app.node_id

module _ (d : Doubles) where
  pub record ScalingPolicy : Type 0 where
    pub app_id : ℕ
    pub enabled : Bool
    pub min_replicas : ℕ
    pub max_replicas : ℕ
    pub metric : ScalingMetric
    pub target_value : d.Double
    pub current_replicas : ℕ
    pub cooldown_seconds : ℕ
    pub last_scaled_at : Option ℕ

  -- A metric of an app.
  pub record ResourceMetric : Type 0 where
    pub target_id : ℕ
    pub kind : MetricKind
    pub value : d.Double
    pub bucket_ts : ℕ

  pub record AutoscaleStore : Type 0 where
    pub policies : List ScalingPolicy
    pub apps : List ScaledApp
    pub metrics : List ResourceMetric
    pub nodes : List ℕ
    pub commands : List ScaleCommand

  -- `orderBy: { bucketTs: 'desc' }`
  unfoldable pub insert_metric : ResourceMetric → List ResourceMetric → List ResourceMetric
  insert_metric m [] = m ∷ []
  insert_metric m (n ∷ ns) =
      let rest = insert_metric m ns in if ltb m.bucket_ts n.bucket_ts then n ∷ rest else m ∷ n ∷ ns

  unfoldable pub sort_metrics : List ResourceMetric → List ResourceMetric
  unfolding insert_metric
  sort_metrics [] = []
  sort_metrics (m ∷ ms) = insert_metric m (sort_metrics ms)

  unfoldable pub take_metrics : ℕ → List ResourceMetric → List ResourceMetric
  take_metrics zero ms = []
  take_metrics (suc n) [] = []
  take_metrics (suc n) (m ∷ ms) = m ∷ take_metrics n ms

  -- The ten newest of the last two minutes.
  unfoldable pub recent_metrics : ℕ → MetricKind → ℕ → List ResourceMetric → List ResourceMetric
  unfolding sort_metrics take_metrics
  recent_metrics app_id kind now metrics = take_metrics 10 (
      sort_metrics (
        filter
          (λ m.
            m.target_id == app_id
            && kind_code m.kind == kind_code kind
            && leb now (m.bucket_ts + 120_000))
          metrics))

  -- `reduce((s, r) => s + r.value, 0)`
  unfoldable pub sum_values : d.Double → List ResourceMetric → d.Double
  sum_values s [] = s
  sum_values s (m ∷ ms) = sum_values (d.add s m.value) ms

  unfoldable pub observed_value : List ResourceMetric → d.Double
  unfolding sum_values
  observed_value recent = d.div (sum_values (d.of_nat 0) recent) (d.of_nat (length recent))

  -- Whether the policy was applied too recently.
  abbrev pub is_cooling : ℕ → ScalingPolicy → Bool
  is_cooling now policy = elim policy.last_scaled_at [
    | none ↦ false
    | some last ↦ ltb now (last + policy.cooldown_seconds * 1000)
  ]

  unfoldable pub decide : ScalingPolicy → List ResourceMetric → ReplicaDecision
  unfolding compute_desired_replicas observed_value
  decide policy recent =
      compute_desired_replicas d policy.current_replicas (observed_value recent) policy.target_value
        policy.min_replicas policy.max_replicas

  -- The command and, where it could be queued, the new state of the policy.
  unfoldable pub apply_decision : ScalingPolicy → ℕ → ℕ → ℕ → AutoscaleStore → AutoscaleStore
  apply_decision policy node_id desired now s =
      let command : ScaleCommand = record {
        node_id = node_id;
        app_id = policy.app_id;
        replicas = desired;
      } in
      if any (λ n. n == node_id) s.nodes
      then record s {
        commands = command ∷ s.commands;
        policies =
            update (λ p. p.app_id == policy.app_id)
              (λ p. record p { current_replicas = desired; last_scaled_at = some now }) s.policies;
      }
      else s

  -- The evaluation of a policy for an app that stands on a node.
  unfoldable pub evaluate : ScalingPolicy → ℕ → ℕ → AutoscaleStore → AutoscaleStore
  unfolding recent_metrics decide apply_decision
  evaluate policy node_id now s =
      let recent = recent_metrics policy.app_id (metric_kind policy.metric) now s.metrics in
      let decision = decide policy recent in
      if is_cooling now policy || length recent == 0 || decision.desired == policy.current_replicas
      then s
      else apply_decision policy node_id decision.desired now s

  -- `processAutoscale`
  unfoldable pub process_autoscale : ℕ → ℕ → AutoscaleStore → AutoscaleStore
  unfolding evaluate
  process_autoscale app_id now s = elim (find (λ p. p.app_id == app_id) s.policies) [
    | none ↦ s
    | some policy ↦ elim (app_node (find (λ a. a.id == app_id && not a.deleted) s.apps)) [
      | none ↦ s
      | some node_id ↦ if policy.enabled then evaluate policy node_id now s else s
    ]
  ]
