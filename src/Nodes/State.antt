-- ===== src/Nodes/State.antt =====
-- The node table of packages/db/prisma/schema.prisma (model `Node`) without the telemetry columns and
-- keys, and the command queue beside it. Times are in milliseconds.
use your_stack.Common.{ℕ, Bool, true, false, Option, List}
use your_stack.Common.Text.{Text}
use your_stack.Deploy.{NodeCommand}

pub data NodeStatus : Type 0 where
  online degraded offline draining : NodeStatus

pub record NodeRow : Type 0 where
  pub id : ℕ
  pub workspace_id : ℕ
  pub status : NodeStatus
  pub region : Option Text
  pub disabled : Bool
  pub last_heartbeat_at : Option ℕ
  pub deleted : Bool

pub record Registry : Type 0 where
  pub nodes : List NodeRow
  pub commands : List NodeCommand

abbrev pub is_online : NodeStatus → Bool
is_online NodeStatus.online = true
is_online _ = false

abbrev pub is_draining : NodeStatus → Bool
is_draining NodeStatus.draining = true
is_draining _ = false
