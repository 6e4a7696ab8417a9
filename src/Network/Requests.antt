-- ===== src/Network/Requests.antt =====
-- The handlers of apps/api/src/routes/firewalls.ts and loadbalancers.ts that delete and apply; each
-- writes its row and queues a job.
use your_stack.Common.{
  ℕ, Bool, true, false, not, ◌&&◌, Option, List, [], ◌∷◌, ◌==◌, find, update, Result, ok, AppError,
  ◌>>=◌, ◌>>◌, throw_if,
}
use your_stack.Rbac.{Permission}
use your_stack.Tenancy.Db.{Db, User}
use your_stack.Tenancy.{require_permission, or_throw}
use your_stack.Network.Firewall.{FirewallRow, FirewallStatus, FirewallAction, FirewallStore}
use your_stack.Network.Balancer.{LoadBalancer, LbStatus, LbAction, LbStore}

-- `firewallById`
unfoldable pub firewall_by_id : FirewallStore → ℕ → Result FirewallRow
firewall_by_id s id =
    or_throw (find (λ f. f.id == id && not f.deleted) s.firewalls)
      (AppError.not_found "Firewall not found")

abbrev pub mark_deleted : FirewallRow → FirewallRow
mark_deleted f = record f { deleted = true }

-- DELETE /firewalls/:id
unfoldable pub delete_firewall : Db → Option User → ℕ → FirewallStore → Result FirewallStore
unfolding firewall_by_id
delete_firewall db req_user id s = do
  firewall ← firewall_by_id s id
  _ ← require_permission db req_user firewall.workspace_id Permission.firewall_write
  ok (record s {
    firewalls = update (λ f. f.id == id) mark_deleted s.firewalls;
    jobs = record { firewall_id = id; action = FirewallAction.remove } ∷ s.jobs;
  })

abbrev pub has_no_node : List ℕ → Bool
has_no_node [] = true
has_no_node (n ∷ ns) = false

-- POST /firewalls/:id/apply
unfoldable pub apply_firewall : Db → Option User → ℕ → FirewallStore → Result FirewallStore
unfolding firewall_by_id
apply_firewall db req_user id s = do
  firewall ← firewall_by_id s id
  _ ← require_permission db req_user firewall.workspace_id Permission.firewall_write
  throw_if (has_no_node firewall.node_ids)
      (AppError.bad_request "Attach at least one node before applying this firewall")
  ok (record s {
    firewalls =
        update (λ f. f.id == id) (λ f. record f { status = FirewallStatus.applying }) s.firewalls;
    jobs = record { firewall_id = id; action = FirewallAction.apply } ∷ s.jobs;
  })

-- `lbWithWorkspace`
unfoldable pub lb_with_workspace : LbStore → ℕ → Result LoadBalancer
lb_with_workspace s id =
    or_throw (find (λ l. l.id == id && not l.deleted) s.load_balancers)
      (AppError.not_found "Load balancer not found")

abbrev pub retire : LoadBalancer → LoadBalancer
retire l = record l { deleted = true; status = LbStatus.failed }

-- DELETE /load-balancers/:id
unfoldable pub delete_load_balancer : Db → Option User → ℕ → LbStore → Result LbStore
unfolding lb_with_workspace
delete_load_balancer db req_user id s = do
  lb ← lb_with_workspace s id
  _ ← require_permission db req_user lb.workspace_id Permission.lb_write
  ok (record s {
    load_balancers = update (λ l. l.id == id) retire s.load_balancers;
    jobs = record { load_balancer_id = id; action = LbAction.remove } ∷ s.jobs;
  })
