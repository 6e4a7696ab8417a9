-- ===== src/Metrics/Samples.antt =====
-- apps/api/src/services/metrics.service.ts with POST /agent/metrics of routes/agent.ts and GET /metrics
-- of routes/metrics-query.ts. Times are in milliseconds, a value is the text that it prints.
use your_stack.Common.{
  ℕ, suc, ◌-◌, ◌*◌, ◌/◌, Bool, true, false, not, ◌&&◌, Option, none, some, List, [], ◌∷◌, ◌++◌,
  ◌==◌, leb, ltb, find, filter, any, or_else, if◌then◌else◌, Result, ok, AppError, ◌>>=◌,
}
use your_stack.Common.Text.{Text, eq_text}
use your_stack.Rbac.{Permission}
use your_stack.Tenancy.Db.{Db, User}
use your_stack.Tenancy.{require_permission, or_throw}

pub data MetricScope : Type 0 where
  app node database function : MetricScope

abbrev pub scope_rank : MetricScope → ℕ
scope_rank app = 0
scope_rank node = 1
scope_rank database = 2
scope_rank function = 3

-- The columns that are unique together.
pub record MetricKey : Type 0 where
  pub scope : MetricScope
  pub target_id : ℕ
  pub kind : Text
  pub instance_name : Text
  pub bucket_ts : ℕ

pub record MetricRow : Type 0 where
  pub key : MetricKey
  pub value : Text
  pub node_id : Option ℕ

-- A timestamp that is no date is absent.
pub record MetricPoint : Type 0 where
  pub scope : MetricScope
  pub target_id : ℕ
  pub kind : Text
  pub value : Text
  pub instance_name : Option Text
  pub timestamp : Option ℕ

pub record MetricBatch : Type 0 where
  pub node_id : Option ℕ
  pub points : List MetricPoint

abbrev pub eq_key : MetricKey → MetricKey → Bool
eq_key a b =
    scope_rank a.scope == scope_rank b.scope
    && (a.target_id == b.target_id
        && (eq_text a.kind b.kind
            && (eq_text a.instance_name b.instance_name && a.bucket_ts == b.bucket_ts)))

-- The start of the bucket of a time.
unfoldable pub bucket_timestamp : ℕ → ℕ → ℕ
bucket_timestamp date step_seconds = let ms = step_seconds * 1000 in (date / ms) * ms

-- `upsert`
unfoldable pub upsert_metric : MetricRow → List MetricRow → List MetricRow
upsert_metric new [] = new ∷ []
upsert_metric new (r ∷ rows) =
    if eq_key new.key r.key
    then record r { value = new.value; node_id = new.node_id } ∷ rows
    else r ∷ upsert_metric new rows

abbrev pub key_at : ℕ → MetricPoint → ℕ → MetricKey
key_at step_seconds p ts = record {
  scope = p.scope;
  target_id = p.target_id;
  kind = p.kind;
  instance_name = or_else p.instance_name [];
  bucket_ts = bucket_timestamp ts step_seconds;
}

pub record Ingested : Type 0 where
  pub rows : List MetricRow
  pub count : ℕ

-- One round of the loop.
unfoldable pub ingest_point : ℕ → Option ℕ → MetricPoint → Ingested → Ingested
unfolding upsert_metric bucket_timestamp
ingest_point step_seconds node_id p s = elim p.timestamp [
  | none ↦ s
  | some ts ↦ record {
    rows =
        upsert_metric
          (record { key = key_at step_seconds p ts; value = p.value; node_id = node_id }) s.rows;
    count = suc s.count;
  }
]

unfoldable pub ingest_points : ℕ → Option ℕ → List MetricPoint → Ingested → Ingested
unfolding ingest_point
ingest_points step_seconds node_id [] s = s
ingest_points step_seconds node_id (p ∷ points) s =
    ingest_points step_seconds node_id points (ingest_point step_seconds node_id p s)

-- `ingestMetrics`
unfoldable pub ingest_metrics : MetricBatch → ℕ → List MetricRow → Ingested
unfolding ingest_points
ingest_metrics batch step_seconds rows =
    ingest_points step_seconds batch.node_id batch.points (record { rows = rows; count = 0 })

-- POST /agent/metrics, for the node of the token, with the default of the step.
unfoldable pub agent_metrics : ℕ → MetricBatch → List MetricRow → Ingested
unfolding ingest_metrics
agent_metrics req_node_id batch rows =
    ingest_metrics (record batch { node_id = some (or_else batch.node_id req_node_id) }) 60 rows

pub record MetricQuery : Type 0 where
  pub scope : MetricScope
  pub target_id : ℕ
  pub kinds : Option (List Text)
  pub window_seconds : ℕ

pub record SeriesPoint : Type 0 where
  pub t : ℕ
  pub v : Text

pub record MetricSeries : Type 0 where
  pub kind : Text
  pub points : List SeriesPoint

abbrev pub is_wanted : Option (List Text) → Text → Bool
is_wanted none kind = true
is_wanted (some kinds) kind = any (eq_text kind) kinds

-- `where`
unfoldable pub is_in_window : ℕ → MetricQuery → MetricRow → Bool
is_in_window now q r =
    scope_rank r.key.scope == scope_rank q.scope
    && (r.key.target_id == q.target_id
        && (is_wanted q.kinds r.key.kind && leb (now - q.window_seconds * 1000) r.key.bucket_ts))

-- `orderBy: { bucketTs: 'asc' }`
unfoldable pub insert_metric : MetricRow → List MetricRow → List MetricRow
insert_metric r [] = r ∷ []
insert_metric r (q ∷ rows) =
    if ltb q.key.bucket_ts r.key.bucket_ts then q ∷ insert_metric r rows else r ∷ q ∷ rows

unfoldable pub sort_metrics : List MetricRow → List MetricRow
unfolding insert_metric
sort_metrics [] = []
sort_metrics (r ∷ rows) = insert_metric r (sort_metrics rows)

abbrev pub to_point : MetricRow → SeriesPoint
to_point r = record { t = r.key.bucket_ts; v = r.value }

-- One round of the loop: the map keeps the order in which the kinds came.
unfoldable pub push_point : MetricRow → List MetricSeries → List MetricSeries
push_point r [] = record { kind = r.key.kind; points = to_point r ∷ [] } ∷ []
push_point r (s ∷ series) =
    if eq_text r.key.kind s.kind
    then record s { points = s.points ++ (to_point r ∷ []) } ∷ series
    else s ∷ push_point r series

unfoldable pub push_points : List MetricRow → List MetricSeries → List MetricSeries
unfolding push_point
push_points [] series = series
push_points (r ∷ rows) series = push_points rows (push_point r series)

-- `queryMetrics`
unfoldable pub query_metrics : ℕ → MetricQuery → List MetricRow → List MetricSeries
unfolding is_in_window sort_metrics push_points
query_metrics now q rows = push_points (sort_metrics (filter (is_in_window now q) rows)) []

-- A row of a node, an app, a database or a function, with the workspace of its project.
pub record TargetRow : Type 0 where
  pub scope : MetricScope
  pub id : ℕ
  pub workspace_id : ℕ
  pub deleted : Bool

-- Nodes and apps are looked up among those that are not deleted, databases and functions among all.
abbrev pub hides_deleted : MetricScope → Bool
hides_deleted app = true
hides_deleted node = true
hides_deleted _ = false

unfoldable pub is_target : MetricScope → ℕ → TargetRow → Bool
is_target scope id t =
    scope_rank t.scope == scope_rank scope && (t.id == id && not (t.deleted && hides_deleted scope))

-- `authorizeTarget`; a scope that is none of the four does not pass the check of the request.
unfoldable pub authorize_target :
    Db → Option User → List TargetRow → MetricScope → ℕ → Result (Unit {0})
unfolding is_target
authorize_target db req_user targets scope id = do
  target ←
      or_throw (find (is_target scope id) targets) (AppError.not_found "Metric target not found")
  _ ← require_permission db req_user target.workspace_id Permission.metrics_view
  ok tt

-- GET /metrics
unfoldable pub get_metrics :
    Db
    → Option User
    → List TargetRow
    → ℕ
    → MetricQuery
    → List MetricRow
    → Result (List MetricSeries)
unfolding authorize_target query_metrics
get_metrics db req_user targets now q rows = do
  _ ← authorize_target db req_user targets q.scope q.target_id
  ok (query_metrics now q rows)
