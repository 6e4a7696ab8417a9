-- ===== src/Nodes/Placement.antt =====
-- `pickNode` of apps/api/src/services/placement.service.ts and `pickOnlineNode` of
-- apps/worker/src/lib/placement.ts: the node that a managed resource is placed on.
use your_stack.Common.{
  ℕ, ◌+◌, ◌*◌, ◌%◌, ◌^◌, Bool, true, false, Option, none, some, List, [], ◌∷◌, ◌==◌, ◌&&◌, not, ltb,
  find, filter, or_else, if◌then◌else◌, Result, ok, err, AppError,
}
use your_stack.Common.Text.{Text, eq_text}
use your_stack.Nodes.State.{NodeRow, is_online}

-- Whether the first time comes strictly before the second in descending order, where the database
-- puts a missing value first.
unfoldable pub is_later : Option ℕ → Option ℕ → Bool
is_later none none = false
is_later none (some b) = true
is_later (some a) none = false
is_later (some a) (some b) = ltb b a

unfoldable pub insert_node : NodeRow → List NodeRow → List NodeRow
unfolding is_later
insert_node n [] = n ∷ []
insert_node n (m ∷ ms) =
    if is_later m.last_heartbeat_at n.last_heartbeat_at then m ∷ insert_node n ms else n ∷ m ∷ ms

unfoldable pub sort_nodes : List NodeRow → List NodeRow
unfolding insert_node
sort_nodes [] = []
sort_nodes (n ∷ ns) = insert_node n (sort_nodes ns)

-- `where: { workspaceId, deletedAt: null, status: 'online', disabled: false }`
unfoldable pub is_available : ℕ → NodeRow → Bool
is_available wid n = n.workspace_id == wid && not n.deleted && is_online n.status && not n.disabled

unfoldable pub online_nodes : ℕ → List NodeRow → List NodeRow
unfolding sort_nodes is_available
online_nodes wid nodes = sort_nodes (filter (is_available wid) nodes)

unfoldable pub in_region : Text → NodeRow → Bool
in_region r n = elim n.region [ none ↦ false | some q ↦ eq_text q r ]

-- The choice among the nodes that are online, the most recent heartbeat first.
unfoldable pub pick_among : Option Text → List NodeRow → Result NodeRow
unfolding in_region
pick_among region [] =
    err (
      AppError.bad_request
        "No online node available. Connect a node before provisioning resources.")
pick_among none (n ∷ ns) = ok n
pick_among (some r) (n ∷ ns) = ok (or_else (find (in_region r) (n ∷ ns)) n)

-- `pickNode`, with the row in place of its id. `none` is an option that is absent or empty.
unfoldable pub pick_node : ℕ → Option ℕ → Option Text → List NodeRow → Result NodeRow
unfolding pick_among online_nodes
pick_node wid none region nodes = pick_among region (online_nodes wid nodes)
pick_node wid (some id) region nodes =
    elim (find (λ n. n.id == id && n.workspace_id == wid && not n.deleted) nodes) [
      | none ↦ err (AppError.bad_request "Requested node not found in this workspace")
      | some n ↦ ok n
    ]

-- `pickOnlineNode`
unfoldable pub pick_online_node : ℕ → List NodeRow → Option ℕ
unfolding online_nodes
pick_online_node wid nodes = elim (online_nodes wid nodes) [ [] ↦ none | n ∷ ns ↦ some n.id ]

-- `h = (h * 31 + seed.charCodeAt(i)) >>> 0`
unfoldable pub seed_hash : ℕ → Text → ℕ
seed_hash h [] = h
seed_hash h (c ∷ cs) = seed_hash ((h * 31 + c) % 2 ^ 32) cs

unfoldable pub allocate_port : Text → ℕ → ℕ → ℕ
unfolding seed_hash
allocate_port seed base span = base + seed_hash 0 seed % span
