-- ===== src/Nodes/Freshness.antt =====
-- What placement may rely on after a liveness sweep.
use your_stack.Common.{
  ℕ, ◌+◌, ◌≤◌, ◌≡◌, refl, subst, Bool, true, false, Option, none, some, List, [], ◌∷◌, find, filter,
  map, ok, IsIn, IsIn-filter, arith, Bool-cases, Option-cases, inl, inr, ==_iff, ◌⊎◌,
}
use your_stack.Common.Text.{Text}
use your_stack.Nodes.State.{NodeRow, NodeStatus}
use your_stack.Nodes.Health.{
  node_degraded_after_ms, is_older, next_status, is_watched, sweep_node, node_liveness,
}
use your_stack.Nodes.Placement.{
  insert_node, sort_nodes, is_available, online_nodes, in_region, pick_among, pick_node,
}

-- A heartbeat came at most `limit` before `now`.
abbrev pub HeardWithin : ℕ → ℕ → Option ℕ → Type 0
HeardWithin limit now none = ⊥
HeardWithin limit now (some last) = now ≤ last + limit

is_older-HeardWithin :
    (limit now : ℕ) (o : Option ℕ) → is_older limit now o ≡ false → HeardWithin limit now o
unfolding is_older
is_older-HeardWithin limit now none h = ground arith
is_older-HeardWithin limit now (some last) h = ground arith

insert_node-IsIn :
    (a n : NodeRow) (ns : List NodeRow) → IsIn a (insert_node n ns) → (n ≡ a) ⊎ IsIn a ns
unfolding insert_node
insert_node-IsIn a n [] h = ground arith
insert_node-IsIn a n (m ∷ ms) h = ground (arith, insert_node-IsIn a n ms)

sort_nodes-IsIn : (a : NodeRow) (ns : List NodeRow) → IsIn a (sort_nodes ns) → IsIn a ns
unfolding sort_nodes
sort_nodes-IsIn a [] h = h
sort_nodes-IsIn a (n ∷ ns) h =
    ground (arith, insert_node-IsIn a n (sort_nodes ns), sort_nodes-IsIn a ns)

find-IsIn :
    (p : NodeRow → Bool) (ns : List NodeRow) (a : NodeRow)
    → find p ns ≡ some a
    → IsIn a ns × (p a ≡ true)
find-IsIn p [] a h = ground arith
find-IsIn p (n ∷ ns) a h = elim (Bool-cases (p n)) [
  | inl e ↦ ground (arith, find-IsIn p ns a)
  | inr e ↦ ground (arith, find-IsIn p ns a)
]

pick_among-IsIn :
    (region : Option Text) (ns : List NodeRow) (a : NodeRow)
    → pick_among region ns ≡ ok a
    → IsIn a ns
unfolding pick_among
pick_among-IsIn region [] a h = ground arith
pick_among-IsIn none (n ∷ ns) a h = ground arith
pick_among-IsIn (some r) (n ∷ ns) a h = elim (Option-cases (find (in_region r) (n ∷ ns))) [
  | inl e ↦ ground arith
  | inr (m, e) ↦ ground (arith, find-IsIn (in_region r) (n ∷ ns) m)
]

pick_node-is_available :
    (wid : ℕ) (region : Option Text) (nodes : List NodeRow) (a : NodeRow)
    → pick_node wid none region nodes ≡ ok a
    → IsIn a nodes × (is_available wid a ≡ true)
unfolding pick_node online_nodes
pick_node-is_available wid region nodes a h =
    (IsIn-filter (is_available wid) a nodes).0
      (sort_nodes-IsIn a (filter (is_available wid) nodes) (pick_among-IsIn region _ a h))

map-IsIn :
    (f : NodeRow → NodeRow) (a : NodeRow) (ns : List NodeRow)
    → IsIn a (map f ns)
    → (m : NodeRow) × IsIn m ns × (f m ≡ a)
map-IsIn f a [] h = ground arith
map-IsIn f a (n ∷ ns) (inl e) = (n, inl refl, e)
map-IsIn f a (n ∷ ns) (inr h) = let (m, i, e) = map-IsIn f a ns h in (m, inr i, e)

sweep_node-fresh :
    (now wid : ℕ) (m : NodeRow)
    → is_available wid (sweep_node now m) ≡ true
    → HeardWithin node_degraded_after_ms now (sweep_node now m).last_heartbeat_at
unfolding sweep_node is_available next_status is_watched
sweep_node-fresh now wid m h =
    ground (arith, is_older-HeardWithin node_degraded_after_ms now m.last_heartbeat_at)

-- The node that placement picks by itself right after a liveness sweep is a node of the workspace
-- that is online, enabled, not deleted, and was heard from within the 45 seconds before the sweep.
pub pick_node-node_liveness :
    (now wid : ℕ) (region : Option Text) (nodes : List NodeRow) (a : NodeRow)
    → pick_node wid none region (node_liveness now nodes) ≡ ok a
    → IsIn a (node_liveness now nodes)
      × (a.workspace_id ≡ wid)
      × (a.status ≡ NodeStatus.online)
      × (a.disabled ≡ false)
      × (a.deleted ≡ false)
      × HeardWithin node_degraded_after_ms now a.last_heartbeat_at
unfolding node_liveness is_available
pick_node-node_liveness now wid region nodes a h =
    let (i, av) = pick_node-is_available wid region (node_liveness now nodes) a h in
    let (m, _, e) = map-IsIn (sweep_node now) a nodes i in
    ground (
      arith,
      av,
      ==_iff a.workspace_id wid,
      subst
          (λ n.
            is_available wid n ≡ true → HeardWithin node_degraded_after_ms now n.last_heartbeat_at)
          e (sweep_node-fresh now wid m) av,
    )
