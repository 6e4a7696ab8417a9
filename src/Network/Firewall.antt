-- ===== src/Network/Firewall.antt =====
-- apps/worker/src/processors/firewall.ts
use text.Mathlib.Text.{◌==◌ as str_eq}
use your_stack.Common.{
  ℕ, ◌*◌, Bool, Option, none, some, List, [], ◌∷◌, map, String, ltb, ◌==◌, if◌then◌else◌, find, any,
  update,
}

pub record FirewallRuleRow : Type 0 where
  pub direction : String
  pub action : String
  pub protocol : String
  pub port : Option String
  pub cidr : String
  pub comment : Option String
  pub position : ℕ

pub data Direction : Type 0 where
  inbound outbound : Direction

pub data Policy : Type 0 where
  allow deny : Policy

pub data Protocol : Type 0 where
  tcp udp icmp any_protocol : Protocol

pub record FirewallRuleSpec : Type 0 where
  pub direction : Direction
  pub action : Policy
  pub protocol : Protocol
  pub port : Option String
  pub cidr : String
  pub comment : Option String

pub record ConfigureFirewallSpec : Type 0 where
  pub firewall_id : ℕ
  pub default_inbound : Policy
  pub default_outbound : Policy
  pub rules : List FirewallRuleSpec

pub data FirewallStatus : Type 0 where
  draft applying active failed : FirewallStatus

pub record FirewallRow : Type 0 where
  pub id : ℕ
  pub workspace_id : ℕ
  pub default_inbound : String
  pub default_outbound : String
  pub rules : List FirewallRuleRow
  pub node_ids : List ℕ
  pub status : FirewallStatus
  pub deleted : Bool

unfoldable pub normalize_protocol : String → Protocol
normalize_protocol p =
    if str_eq p "udp"
    then udp
    else (if str_eq p "icmp" then icmp else (if str_eq p "any" then any_protocol else tcp))

-- `[...rules].sort((a, b) => a.position - b.position)`, which keeps the order of equals.
unfoldable pub insert_rule : FirewallRuleRow → List FirewallRuleRow → List FirewallRuleRow
insert_rule r [] = r ∷ []
insert_rule r (q ∷ qs) = if ltb q.position r.position then q ∷ insert_rule r qs else r ∷ q ∷ qs

unfoldable pub sort_rules : List FirewallRuleRow → List FirewallRuleRow
unfolding insert_rule
sort_rules [] = []
sort_rules (r ∷ rs) = insert_rule r (sort_rules rs)

unfoldable pub rule_spec : FirewallRuleRow → FirewallRuleSpec
unfolding normalize_protocol
rule_spec r = record {
  direction = if str_eq r.direction "outbound" then outbound else inbound;
  action = if str_eq r.action "deny" then deny else allow;
  protocol = normalize_protocol r.protocol;
  port = r.port;
  cidr = if str_eq r.cidr "" then "0.0.0.0/0" else r.cidr;
  comment = r.comment;
}

unfoldable pub build_firewall_spec : FirewallRow → List FirewallRuleRow → ConfigureFirewallSpec
unfolding sort_rules rule_spec
build_firewall_spec firewall rules = record {
  firewall_id = firewall.id;
  default_inbound = if str_eq firewall.default_inbound "allow" then allow else deny;
  default_outbound = if str_eq firewall.default_outbound "deny" then deny else allow;
  rules = map rule_spec (sort_rules rules);
}

unfoldable pub build_flush_spec : ℕ → ConfigureFirewallSpec
build_flush_spec id = record {
  firewall_id = id;
  default_inbound = allow;
  default_outbound = allow;
  rules = [];
}

pub data FirewallAction : Type 0 where
  apply remove : FirewallAction

pub record FirewallCommand : Type 0 where
  pub node_id : ℕ
  pub timeout_ms : ℕ
  pub spec : ConfigureFirewallSpec

pub record FirewallJob : Type 0 where
  pub firewall_id : ℕ
  pub action : FirewallAction

pub record FirewallStore : Type 0 where
  pub firewalls : List FirewallRow
  pub nodes : List ℕ
  pub commands : List FirewallCommand
  pub jobs : List FirewallJob

-- The loop over the nodes: a node that is not found throws and ends it.
unfoldable pub fan_out : ConfigureFirewallSpec → List ℕ → FirewallStore → FirewallStore
fan_out spec [] s = s
fan_out spec (n ∷ ns) s =
    let command : FirewallCommand = record { node_id = n; timeout_ms = 2 * 60_000; spec = spec } in
    let rest = fan_out spec ns (record s { commands = command ∷ s.commands }) in
    if any (λ m. m == n) s.nodes then rest else s

abbrev pub job_spec : FirewallAction → FirewallRow → ConfigureFirewallSpec
job_spec apply firewall = build_firewall_spec firewall firewall.rules
job_spec remove firewall = build_flush_spec firewall.id

abbrev pub job_status : FirewallAction → FirewallStatus
job_status apply = applying
job_status remove = draft

-- `processFirewall`
unfoldable pub process_firewall : ℕ → FirewallAction → FirewallStore → FirewallStore
unfolding fan_out build_firewall_spec build_flush_spec
process_firewall id action s = elim (find (λ f. f.id == id) s.firewalls) [
  | none ↦ s
  | some f ↦
      let s1 = record s {
        firewalls =
            update (λ g. g.id == f.id) (λ g. record g { status = job_status action }) s.firewalls;
      } in
      if f.deleted then s else fan_out (job_spec action f) f.node_ids s1
]
