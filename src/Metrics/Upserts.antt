-- ===== src/Metrics/Upserts.antt =====
-- What the samples of a batch leave in the table.
use your_stack.Common.{
  ℕ, suc, ◌+◌, ◌*◌, ◌/◌, ◌≤◌, ◌<◌, ◌≡◌, ◌↔◌, refl, ap, ◌∙◌, Bool, true, false, Option, none, some,
  List, [], ◌∷◌, count, if◌then◌else◌, or_else, is_some, Bool-cases, inl, inr, arith, ==_iff,
}
use native.Mathlib.Nat.{div-mul-le_self, lt-div-mul-add, mul-div_cancel}
use your_stack.Common.Text.{Text, eq_text_iff}
use your_stack.Metrics.Samples.{
  MetricScope, scope_rank, MetricKey, MetricRow, MetricPoint, MetricBatch, eq_key, bucket_timestamp,
  upsert_metric, key_at, Ingested, ingest_point, ingest_points, ingest_metrics, agent_metrics,
}

scope_rank-injective : (a b : MetricScope) → scope_rank a ≡ scope_rank b → a ≡ b
scope_rank-injective a b e = ground (arith, e)

eq_key_iff : (a b : MetricKey) → (eq_key a b ≡ true) ↔ (a ≡ b)
eq_key_iff a b = ground (
  arith,
  scope_rank-injective a.scope b.scope,
  ==_iff (scope_rank a.scope) (scope_rank b.scope),
  ==_iff a.target_id b.target_id,
  eq_text_iff a.kind b.kind,
  eq_text_iff a.instance_name b.instance_name,
  ==_iff a.bucket_ts b.bucket_ts,
)

-- The value that is stored for a key.
unfoldable pub value_at : MetricKey → List MetricRow → Option Text
value_at k [] = none
value_at k (r ∷ rows) = if eq_key k r.key then some r.value else value_at k rows

if_twice :
    {A : Type 0} (b : Bool) (x y z : A)
    → (if b then x else z) ≡ (if b then x else (if b then y else z))
if_twice true x y z = refl
if_twice false x y z = refl

value_at-upsert_metric :
    (k : MetricKey) (new : MetricRow) (rows : List MetricRow)
    → value_at k (upsert_metric new rows)
      ≡ (if eq_key k new.key then some new.value else value_at k rows)
unfolding value_at upsert_metric
value_at-upsert_metric k new [] = refl
value_at-upsert_metric k new (r ∷ rows) = elim (Bool-cases (eq_key new.key r.key)) [
  | inl t ↦
      let same : new.key ≡ r.key = (eq_key_iff new.key r.key).0 t in
      rw (t, same) (if_twice (eq_key k r.key) (some new.value) (some r.value) (value_at k rows))
  | inr t ↦
      let rest = value_at-upsert_metric k new rows in
      elim (Bool-cases (eq_key k new.key)) [
        | inl u ↦
            let same : k ≡ new.key = (eq_key_iff k new.key).0 u in
            let other : eq_key k r.key ≡ false = ap (λ j. eq_key j r.key) same ∙ t in
            rw (t, u, other, rest, u) refl
        | inr u ↦ rw (t, u, rest, u) refl
      ]
]

-- Whether a sample falls on a key.
abbrev pub is_sample_of : ℕ → MetricKey → MetricPoint → Bool
is_sample_of step_seconds k p = elim p.timestamp [
  | none ↦ false
  | some ts ↦ eq_key k (key_at step_seconds p ts)
]

-- The value of the last sample that falls on a key, or the one before.
abbrev pub last_value : ℕ → MetricKey → List MetricPoint → Option Text → Option Text
last_value step_seconds k [] before = before
last_value step_seconds k (p ∷ points) before =
    last_value step_seconds k points
      (if is_sample_of step_seconds k p then some p.value else before)

ingest_point-value_at :
    (step_seconds : ℕ) (node_id : Option ℕ) (p : MetricPoint) (s : Ingested) (k : MetricKey)
    → value_at k (ingest_point step_seconds node_id p s).rows
      ≡ (if is_sample_of step_seconds k p then some p.value else value_at k s.rows)
unfolding ingest_point
ingest_point-value_at step_seconds node_id p s k =
    elim p.timestamp
      as (λ t.
        value_at k (ingest_point step_seconds node_id (record p { timestamp = t }) s).rows ≡ (
          if is_sample_of step_seconds k (record p { timestamp = t })
          then some p.value
          else value_at k s.rows)) [
            | none ↦ refl
            | some ts ↦
                value_at-upsert_metric k
                  (record { key = key_at step_seconds p ts; value = p.value; node_id = node_id })
                  s.rows
          ]

ingest_points-value_at :
    (step_seconds : ℕ) (node_id : Option ℕ) (points : List MetricPoint) (s : Ingested)
    (k : MetricKey)
    → value_at k (ingest_points step_seconds node_id points s).rows
      ≡ last_value step_seconds k points (value_at k s.rows)
unfolding ingest_points
ingest_points-value_at step_seconds node_id [] s k = refl
ingest_points-value_at step_seconds node_id (p ∷ points) s k =
    ingest_points-value_at step_seconds node_id points (ingest_point step_seconds node_id p s) k
    ∙ ap (last_value step_seconds k points) (ingest_point-value_at step_seconds node_id p s k)

ingest_point-count :
    (step_seconds : ℕ) (node_id : Option ℕ) (p : MetricPoint) (s : Ingested)
    → (ingest_point step_seconds node_id p s).count
      ≡ (if is_some p.timestamp then suc s.count else s.count)
unfolding ingest_point
ingest_point-count step_seconds node_id p s =
    elim p.timestamp
      as (λ t.
        (ingest_point step_seconds node_id (record p { timestamp = t }) s).count
        ≡ (if is_some t then suc s.count else s.count)) [ none ↦ refl | some ts ↦ refl ]

ingest_points-count :
    (step_seconds : ℕ) (node_id : Option ℕ) (points : List MetricPoint) (s : Ingested)
    → (ingest_points step_seconds node_id points s).count
      ≡ s.count + count (λ p. is_some p.timestamp) points
unfolding ingest_points
ingest_points-count step_seconds node_id [] s = omega arith
ingest_points-count step_seconds node_id (p ∷ points) s =
    let next = ingest_point step_seconds node_id p s in
    ground (
      arith,
      ingest_points-count step_seconds node_id points next,
      ingest_point-count step_seconds node_id p s,
    )

-- After an agent posted a batch, each key of the table has the value of the last sample that falls on
-- it, else the value that it had, whichever node the agent is on and whichever resource the key is of;
-- the answer counts the samples with a valid time.
pub agent_metrics-value_at :
    (req_node_id : ℕ) (batch : MetricBatch) (rows : List MetricRow) (k : MetricKey)
    → (value_at k (agent_metrics req_node_id batch rows).rows
        ≡ last_value 60 k batch.points (value_at k rows))
      × ((agent_metrics req_node_id batch rows).count
          ≡ count (λ p. is_some p.timestamp) batch.points)
unfolding agent_metrics ingest_metrics
agent_metrics-value_at req_node_id batch rows k =
    let node_id = some (or_else batch.node_id req_node_id) in
    let empty : Ingested = record { rows = rows; count = 0 } in
    (
      ingest_points-value_at 60 node_id batch.points empty k,
      ingest_points-count 60 node_id batch.points empty ∙ (omega arith),
    )

-- A time lies in its bucket, whose start is a multiple of the step and its own bucket.
pub bucket_timestamp-bounds :
    (date step_seconds : ℕ)
    → 0 < step_seconds
    → (bucket_timestamp date step_seconds ≤ date)
      × (date < bucket_timestamp date step_seconds + step_seconds * 1000)
      × (bucket_timestamp (bucket_timestamp date step_seconds) step_seconds
          ≡ bucket_timestamp date step_seconds)
unfolding bucket_timestamp
bucket_timestamp-bounds date step_seconds h =
    let ms = step_seconds * 1000 in
    let long : 0 < ms = omega (arith, h) in
    (
      div-mul-le_self date ms,
      lt-div-mul-add long,
      ap (λ n. n * ms) (mul-div_cancel (date / ms) long),
    )
