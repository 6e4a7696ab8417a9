-- ===== src/Network/Balancer.antt =====
-- `processLoadBalancer` of apps/worker/src/processors/loadbalancer.ts.
use your_stack.Common.{
  ℕ, ◌*◌, Bool, Option, none, some, List, [], ◌∷◌, ◌==◌, find, any, update, or_else, if◌then◌else◌,
  String,
}
use your_stack.Nodes.{NodeRow, pick_online_node}
use your_stack.Network.Targets.{LbTargetRow, Target, dedupe_targets}

pub data LbStatus : Type 0 where
  provisioning active degraded failed : LbStatus

pub data LbAction : Type 0 where
  provision remove reconcile : LbAction

-- A name that is stored, or `yourstack-lb-` followed by the id.
pub data ContainerName : Type 0 where
  named : String → ContainerName
  yourstack_lb : ℕ → ContainerName

-- A row with the workspace of its project.
pub record LoadBalancer : Type 0 where
  pub id : ℕ
  pub workspace_id : ℕ
  pub node_id : Option ℕ
  pub container_name : Option ContainerName
  pub listen_port : ℕ
  pub algorithm : String
  pub domain : Option String
  pub auto_https : Bool
  pub sticky : Bool
  pub targets : List LbTargetRow
  pub status : LbStatus
  pub deleted : Bool

pub record ProvisionLbSpec : Type 0 where
  pub load_balancer_id : ℕ
  pub container_name : ContainerName
  pub listen_port : ℕ
  pub algorithm : String
  pub targets : List Target
  pub domain : Option String
  pub auto_https : Bool
  pub health_path : String
  pub sticky : Bool

pub data LbPayload : Type 0 where
  remove_lb : (load_balancer_id : ℕ) → ContainerName → LbPayload
  provision_lb : ProvisionLbSpec → LbPayload

pub record LbCommand : Type 0 where
  pub node_id : ℕ
  pub timeout_ms : ℕ
  pub payload : LbPayload

pub record LbJob : Type 0 where
  pub load_balancer_id : ℕ
  pub action : LbAction

pub record LbStore : Type 0 where
  pub load_balancers : List LoadBalancer
  pub nodes : List NodeRow
  pub commands : List LbCommand
  pub jobs : List LbJob

abbrev pub update_lb : ℕ → (LoadBalancer → LoadBalancer) → LbStore → LbStore
update_lb id f s = record s { load_balancers = update (λ l. l.id == id) f s.load_balancers }

abbrev pub container_name_of : LoadBalancer → ContainerName
container_name_of lb = or_else lb.container_name (yourstack_lb lb.id)

-- A command for the node, or nothing where `createSignedCommand` finds no node and throws.
unfoldable pub send : LbCommand → LbStore → LbStore
send c s =
    if any (λ n. n.id == c.node_id) s.nodes then record s { commands = c ∷ s.commands } else s

abbrev pub lb_spec : LoadBalancer → ProvisionLbSpec
lb_spec lb = record {
  load_balancer_id = lb.id;
  container_name = container_name_of lb;
  listen_port = lb.listen_port;
  algorithm = lb.algorithm;
  targets = dedupe_targets lb.targets;
  domain = lb.domain;
  auto_https = lb.auto_https;
  health_path = "/";
  sticky = lb.sticky;
}

-- Provision and reconcile: a balancer without targets is left alone.
unfoldable pub provision_on : LoadBalancer → ℕ → List Target → LbStore → LbStore
unfolding send
provision_on lb node [] s = s
provision_on lb node (t ∷ ts) s =
    send record { node_id = node; timeout_ms = 5 * 60_000; payload = provision_lb (lb_spec lb) }
      (update_lb lb.id (λ l. record l { status = provisioning }) s)

unfoldable pub act_on : LbAction → LoadBalancer → ℕ → LbStore → LbStore
unfolding provision_on send
act_on remove lb node s =
    send
      record {
        node_id = node;
        timeout_ms = 300_000;
        payload = remove_lb lb.id (container_name_of lb);
      }
      s
act_on provision lb node s = provision_on lb node (dedupe_targets lb.targets) s
act_on reconcile lb node s = provision_on lb node (dedupe_targets lb.targets) s

unfoldable pub on_node : LbAction → LoadBalancer → Option ℕ → LbStore → LbStore
unfolding act_on
on_node action lb none s = s
on_node action lb (some node) s =
    act_on action lb node (update_lb lb.id (λ l. record l { node_id = some node }) s)

-- The balancer's own node, or else an online node of its workspace.
unfoldable pub node_for : LoadBalancer → LbStore → Option ℕ
unfolding pick_online_node
node_for lb s = elim lb.node_id [
  | none ↦ pick_online_node lb.workspace_id s.nodes
  | some node ↦ some node
]

unfoldable pub process_found : LbAction → Option LoadBalancer → LbStore → LbStore
unfolding on_node node_for
process_found action none s = s
process_found action (some lb) s =
    let s1 = update_lb lb.id (λ l. record l { container_name = some (container_name_of lb) }) s in
    let done = on_node action lb (node_for lb s) s1 in if lb.deleted then s else done

-- `processLoadBalancer`
unfoldable pub process_load_balancer : ℕ → LbAction → LbStore → LbStore
unfolding process_found
process_load_balancer id action s = process_found action (find (λ l. l.id == id) s.load_balancers) s
