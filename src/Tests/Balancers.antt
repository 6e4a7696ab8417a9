-- ===== src/Tests/Balancers.antt =====
-- The deletion of a firewall and of a load balancer, and a provision job.
use your_stack.Common.{◌≡◌, refl, true, false, none, some, [], ◌∷◌}
use your_stack.Common.Text.{codes}
use your_stack.Common.Int.{pos}
use your_stack.Rbac.{
  role_has_permission, has, role_permissions, set_from, owner_permissions, all_permissions,
}
use your_stack.Tenancy.{require_permission}
use your_stack.Tests.Access.{alice, tables}
use your_stack.Tests.Fleet.{wall, walls, fleet}
use your_stack.Network.{
  FirewallAction, FirewallStore, process_firewall, LoadBalancer, LbStatus, LbAction, LbStore,
  process_load_balancer,
}
use your_stack.Network.Requests.{delete_firewall, delete_load_balancer}
use your_stack.Network.Cleanup.{
  delete_firewall-process_firewall, delete_load_balancer-process_load_balancer,
}

abbrev bare_walls : FirewallStore
bare_walls = record walls {
  firewalls = record wall { deleted = true } ∷ [];
  jobs = record { firewall_id = 1; action = FirewallAction.remove } ∷ [];
}

delete_firewall-process_firewall_example :
    (bare_walls.jobs ≡ record { firewall_id = 1; action = FirewallAction.remove } ∷ [])
    × (process_firewall 1 FirewallAction.remove bare_walls ≡ bare_walls)
unfolding delete_firewall role_has_permission has role_permissions set_from owner_permissions
    all_permissions require_permission
delete_firewall-process_firewall_example =
    delete_firewall-process_firewall tables (some alice) 1 FirewallAction.remove walls bare_walls
      refl

abbrev front : LoadBalancer
front = record {
  id = 4;
  workspace_id = 10;
  node_id = none;
  container_name = none;
  listen_port = 80;
  algorithm = "round_robin";
  domain = none;
  auto_https = false;
  sticky = false;
  targets = record { address = codes "a:80"; weight = pos 2 } ∷ [];
  status = LbStatus.provisioning;
  deleted = false;
}

abbrev balancers : LbStore
balancers = record { load_balancers = front ∷ []; nodes = fleet; commands = []; jobs = [] }

abbrev bare_balancers : LbStore
bare_balancers = record balancers {
  load_balancers = record front { deleted = true; status = LbStatus.failed } ∷ [];
  jobs = record { load_balancer_id = 4; action = LbAction.remove } ∷ [];
}

delete_load_balancer-process_load_balancer_example :
    (bare_balancers.jobs ≡ record { load_balancer_id = 4; action = LbAction.remove } ∷ [])
    × (process_load_balancer 4 LbAction.remove bare_balancers ≡ bare_balancers)
unfolding delete_load_balancer role_has_permission has role_permissions set_from owner_permissions
    all_permissions require_permission
delete_load_balancer-process_load_balancer_example =
    delete_load_balancer-process_load_balancer tables (some alice) 4 LbAction.remove balancers
      bare_balancers refl
