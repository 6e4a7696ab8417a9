-- ===== src/Nodes/Health.antt =====
-- How a node's status changes: the heartbeat of apps/api/src/routes/agent.ts, the drain handler of
-- apps/api/src/routes/nodes.ts and the sweep `nodeLiveness` of
-- apps/worker/src/processors/maintenance.ts.
use your_stack.Common.{
  ℕ, ◌-◌, Bool, true, false, Option, none, some, List, ◌==◌, ◌&&◌, not, ltb, any, find, update, map,
  if◌then◌else◌, Result, ok, err, AppError, ◌>>=◌,
}
use your_stack.Rbac.{Permission}
use your_stack.Tenancy.Db.{Db, User}
use your_stack.Tenancy.{require_permission}
use your_stack.Nodes.State.{NodeStatus, NodeRow, Registry, is_draining}
use your_stack.Nodes.Claim.{is_queued}
use your_stack.Deploy.{NodeCommand}

abbrev pub node_degraded_after_ms : ℕ
node_degraded_after_ms = 45_000

abbrev pub node_offline_after_ms : ℕ
node_offline_after_ms = 90_000

abbrev pub set_status : ℕ → NodeStatus → List NodeRow → List NodeRow
set_status id status nodes = update (λ n. n.id == id) (λ n. record n { status = status }) nodes

pub record HeartbeatResponse : Type 0 where
  pub desired_status : NodeStatus
  pub has_pending_commands : Bool

unfoldable pub is_pending : ℕ → List NodeCommand → Bool
unfolding is_queued
is_pending id cs = any (λ c. c.node_id == id && is_queued c.status) cs

abbrev pub heard : ℕ → NodeRow → NodeRow
heard now n = record n { status = NodeStatus.online; last_heartbeat_at = some now }

-- What is left and answered when the transaction read `current`.
abbrev pub answer : ℕ → ℕ → Registry → NodeRow → Registry × HeartbeatResponse
answer id now s current = (
  record s { nodes = update (λ n. n.id == id) (heard now) s.nodes },
  record {
    desired_status = if is_draining current.status then NodeStatus.draining else NodeStatus.online;
    has_pending_commands = is_pending id s.commands;
  },
)

-- The transaction updates the node first and reads its status last. A node that is not there fails
-- the update, and nothing is answered.
unfoldable pub heartbeat : ℕ → ℕ → Registry → Option (Registry × HeartbeatResponse)
unfolding is_pending
heartbeat id now s =
    let nodes = update (λ n. n.id == id) (heard now) s.nodes in
    elim (find (λ n. n.id == id) nodes) [
      | none ↦ none
      | some current ↦ some (answer id now s current)
    ]

-- `nodeWorkspace`
unfoldable pub node_workspace : ℕ → Registry → Result NodeRow
node_workspace id s = elim (find (λ n. n.id == id && not n.deleted) s.nodes) [
  | none ↦ err (AppError.not_found "Node not found")
  | some n ↦ ok n
]

-- POST /nodes/:id/drain
unfoldable pub drain_node : Db → Option User → ℕ → Registry → Result Registry
unfolding node_workspace require_permission
drain_node db req_user id s = do
  node ← node_workspace id s
  _ ← require_permission db req_user node.workspace_id Permission.node_drain
  ok (record s { nodes = set_status id NodeStatus.draining s.nodes })

-- `age > limit`, an age without a heartbeat being infinite.
unfoldable pub is_older : ℕ → ℕ → Option ℕ → Bool
is_older limit now none = true
is_older limit now (some last) = ltb limit (now - last)

unfoldable pub next_status : ℕ → NodeRow → NodeStatus
unfolding is_older
next_status now n =
    if is_older node_offline_after_ms now n.last_heartbeat_at
    then NodeStatus.offline
    else if is_older node_degraded_after_ms now n.last_heartbeat_at && not (is_draining n.status)
    then NodeStatus.degraded
    else if not (is_draining n.status)
    then NodeStatus.online
    else n.status

-- `status: { in: ['online', 'degraded', 'draining'] }`
unfoldable pub is_watched : NodeStatus → Bool
is_watched NodeStatus.offline = false
is_watched _ = true

unfoldable pub sweep_node : ℕ → NodeRow → NodeRow
unfolding next_status is_watched
sweep_node now n =
    if not n.deleted && is_watched n.status then record n { status = next_status now n } else n

unfoldable pub node_liveness : ℕ → List NodeRow → List NodeRow
unfolding sweep_node
node_liveness now nodes = map (sweep_node now) nodes
