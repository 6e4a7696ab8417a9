-- ===== src/Nodes/Draining.antt =====
-- Draining and the heartbeat of one node.
use your_stack.Common.{
  ℕ, ◌≡◌, ◌≢◌, ◌↔◌, refl, sym, ◌∙◌, ap, subst, or_else, true, Option, none, some, List, [], ◌∷◌,
  ◌==◌, find, found-update, update, Option-cases, inl, inr, arith, ok,
}
use your_stack.Tenancy.Db.{Db, User}
use your_stack.Deploy.{NodeCommand}
use your_stack.Nodes.State.{NodeRow, NodeStatus, Registry, is_online}
use your_stack.Nodes.Health.{HeartbeatResponse, heartbeat, is_pending, drain_node, answer, heard}
use your_stack.Nodes.Claim.{queued_for}

online-eq : (st : NodeStatus) → is_online st ≡ true → st ≡ NodeStatus.online
online-eq NodeStatus.online h = refl
online-eq NodeStatus.degraded h = absurd (cc h)
online-eq NodeStatus.offline h = absurd (cc h)
online-eq NodeStatus.draining h = absurd (cc h)

find-heard :
    (id now : ℕ) (ns : List NodeRow) (a : NodeRow)
    → find (λ n. n.id == id) (update (λ n. n.id == id) (heard now) ns) ≡ some a
    → a.status ≡ NodeStatus.online
find-heard id now ns a h = online-eq a.status (
    found-update (λ n. n.id == id) (λ n. is_online n.status) (heard now) ns a (λ n. refl)
      (λ n. refl) h)

is_pending_iff :
    (id : ℕ) (cs : List NodeCommand) → (is_pending id cs ≡ true) ↔ (queued_for id cs ≢ [])
unfolding is_pending queued_for
is_pending_iff id [] = ground arith
is_pending_iff id (c ∷ cs) = ground (arith, is_pending_iff id cs)

answered :
    (id now : ℕ) (s s' : Registry) (r : HeartbeatResponse) (n : NodeRow)
    → find (λ m. m.id == id) (update (λ m. m.id == id) (heard now) s.nodes) ≡ some n
    → some (answer id now s n) ≡ some (s', r)
    → (r.desired_status ≡ NodeStatus.online)
      × ((a : NodeRow) → find (λ n. n.id == id) s'.nodes ≡ some a → a.status ≡ NodeStatus.online)
      × ((r.has_pending_commands ≡ true) ↔ (queued_for id s'.commands ≢ []))
answered id now s s' r n e h =
    let es : (answer id now s n).0 ≡ s' =
      ap {B = Registry} (λ o. (or_else o (answer id now s n)).0) h in
    let er : (answer id now s n).1 ≡ r =
      ap {B = HeartbeatResponse} (λ o. (or_else o (answer id now s n)).1) h in
    let fresh = find-heard id now s.nodes n e in
    (
      subst (λ q. q.desired_status ≡ NodeStatus.online) er (rw fresh refl),
      subst
          (λ t.
            (a : NodeRow) → find (λ n. n.id == id) t.nodes ≡ some a → a.status ≡ NodeStatus.online)
          es (find-heard id now s.nodes),
      subst (λ q. (q.has_pending_commands ≡ true) ↔ (queued_for id s'.commands ≢ [])) er
          (subst (λ t. (is_pending id s.commands ≡ true) ↔ (queued_for id t.commands ≢ [])) es
            (is_pending_iff id s.commands)),
    )

-- A node that was drained is online again after its next heartbeat, whatever the time, and the
-- answer to that heartbeat does not ask it to drain. The answer says that commands are pending
-- exactly if some are queued for the node.
pub heartbeat-drain_node :
    (db : Db) (req_user : Option User) (id now : ℕ) (s drained s' : Registry)
    (r : HeartbeatResponse)
    → drain_node db req_user id s ≡ ok drained
    → heartbeat id now drained ≡ some (s', r)
    → (r.desired_status ≡ NodeStatus.online)
      × ((a : NodeRow) → find (λ n. n.id == id) s'.nodes ≡ some a → a.status ≡ NodeStatus.online)
      × ((r.has_pending_commands ≡ true) ↔ (queued_for id s'.commands ≢ []))
unfolding heartbeat
heartbeat-drain_node db req_user id now s drained s' r d h =
    let found = find (λ n. n.id == id) (update (λ n. n.id == id) (heard now) drained.nodes) in
    elim (Option-cases found) [
      | inl e ↦
          let e' : heartbeat id now drained ≡ none = rw (e, heartbeat) refl in
          absurd (cc (sym e' ∙ h))
      | inr (n, e) ↦
          let e' : heartbeat id now drained ≡ some (answer id now drained n) =
            rw (e, heartbeat) refl in
          answered id now drained s' r n e (sym e' ∙ h)
    ]
