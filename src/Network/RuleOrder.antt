-- ===== src/Network/RuleOrder.antt =====
-- The order in which a firewall's rules are emitted (apps/worker/src/processors/firewall.ts).
use your_stack.Common.{
  ℕ, ◌*◌, IsIn, ◌≤◌, ◌≡◌, refl, sym, subst, update, true, false, List, [], ◌∷◌, map, ◌==◌,
  if◌then◌else◌, filter, All, arith, Bool-cases, inl, inr, any, some, find,
}
use your_stack.Network.Firewall.{
  FirewallRuleRow, FirewallRow, FirewallStore, FirewallCommand, ConfigureFirewallSpec, insert_rule,
  sort_rules, rule_spec, build_firewall_spec, fan_out, process_firewall, job_spec, job_status,
  FirewallAction,
}

-- Each rule stands before rules of no lesser position.
abbrev pub IsOrdered : List FirewallRuleRow → Type 0
IsOrdered [] = Unit
IsOrdered (r ∷ rs) = All (λ q. r.position ≤ q.position) rs × IsOrdered rs

abbrev pub at_position : ℕ → List FirewallRuleRow → List FirewallRuleRow
at_position k rs = filter (λ r. r.position == k) rs

insert_rule-le :
    (k : ℕ) (r : FirewallRuleRow) (rs : List FirewallRuleRow)
    → k ≤ r.position
    → All (λ q. k ≤ q.position) rs
    → All (λ q. k ≤ q.position) (insert_rule r rs)
unfolding insert_rule
insert_rule-le k r [] h a = (h, tt)
insert_rule-le k r (q ∷ qs) h a = ground (arith, insert_rule-le k r qs h)

le_below :
    (j k : ℕ) (rs : List FirewallRuleRow)
    → j ≤ k
    → All (λ q. k ≤ q.position) rs
    → All (λ q. j ≤ q.position) rs
le_below j k [] h a = tt
le_below j k (q ∷ qs) h a = (omega arith, le_below j k qs h a.1)

insert_rule-IsOrdered :
    (r : FirewallRuleRow) (rs : List FirewallRuleRow) → IsOrdered rs → IsOrdered (insert_rule r rs)
unfolding insert_rule
insert_rule-IsOrdered r [] h = (tt, tt)
insert_rule-IsOrdered r (q ∷ qs) h = ground (
  arith,
  insert_rule-IsOrdered r qs,
  insert_rule-le q.position r qs,
  le_below r.position q.position qs,
)

insert_rule-at_position :
    (k : ℕ) (r : FirewallRuleRow) (rs : List FirewallRuleRow)
    → at_position k (insert_rule r rs)
      ≡ (if r.position == k then r ∷ at_position k rs else at_position k rs)
unfolding insert_rule
insert_rule-at_position k r [] = refl
insert_rule-at_position k r (q ∷ qs) = ground (arith, insert_rule-at_position k r qs)

sort_rules-IsOrdered : (rs : List FirewallRuleRow) → IsOrdered (sort_rules rs)
unfolding sort_rules
sort_rules-IsOrdered [] = tt
sort_rules-IsOrdered (r ∷ rs) = insert_rule-IsOrdered r (sort_rules rs) (sort_rules-IsOrdered rs)

sort_rules-at_position :
    (k : ℕ) (rs : List FirewallRuleRow) → at_position k (sort_rules rs) ≡ at_position k rs
unfolding sort_rules
sort_rules-at_position k [] = refl
sort_rules-at_position k (r ∷ rs) =
    ground (arith, insert_rule-at_position k r (sort_rules rs), sort_rules-at_position k rs)

-- The rules of the spec are the firewall's rules in the order of their positions, each once, and rules
-- of one position in the order in which they were given.
pub build_firewall_spec-rules :
    (firewall : FirewallRow) (rules : List FirewallRuleRow)
    → (sorted : List FirewallRuleRow) × ((build_firewall_spec firewall rules).rules
        ≡ map rule_spec sorted)
      × IsOrdered sorted
      × ((k : ℕ) → at_position k sorted ≡ at_position k rules)
unfolding build_firewall_spec
build_firewall_spec-rules firewall rules =
    (sort_rules rules, refl, sort_rules-IsOrdered rules, λ k. sort_rules-at_position k rules)

abbrev pub command_for : ConfigureFirewallSpec → ℕ → FirewallCommand
command_for spec n = record { node_id = n; timeout_ms = 2 * 60_000; spec = spec }

fan_out-keeps :
    (spec : ConfigureFirewallSpec) (c : FirewallCommand) (ns : List ℕ) (s : FirewallStore)
    → IsIn c s.commands
    → IsIn c (fan_out spec ns s).commands
unfolding fan_out
fan_out-keeps spec c [] s h = h
fan_out-keeps spec c (n ∷ ns) s h = elim (Bool-cases (any (λ m. m == n) s.nodes)) [
  | inl e ↦
      rw e
        (fan_out-keeps spec c ns (record s { commands = command_for spec n ∷ s.commands }) (inr h))
  | inr e ↦ rw e h
]

fan_out-reaches :
    (spec : ConfigureFirewallSpec) (ns : List ℕ) (s : FirewallStore)
    → All (λ n. any (λ m. m == n) s.nodes ≡ true) ns
    → All (λ n. IsIn (command_for spec n) (fan_out spec ns s).commands) ns
unfolding fan_out
fan_out-reaches spec [] s h = tt
fan_out-reaches spec (n ∷ ns) s h =
    let s1 = record s { commands = command_for spec n ∷ s.commands } in
    let same : fan_out spec (n ∷ ns) s ≡ fan_out spec ns s1 = rw (h.0, fan_out) in
    subst (λ r. All (λ m. IsIn (command_for spec m) r.commands) (n ∷ ns)) (sym same)
      (fan_out-keeps spec (command_for spec n) ns s1 (inl refl), fan_out-reaches spec ns s1 h.1)

-- The tables once the firewall's status is written.
abbrev marked : FirewallRow → FirewallAction → FirewallStore → FirewallStore
marked f action s = record s {
  firewalls = update (λ g. g.id == f.id) (λ g. record g { status = job_status action }) s.firewalls;
}

-- A job for a firewall that is not deleted sends each of its nodes the spec of the job, if the nodes
-- are there: the firewall's rules to apply it, and no rules with both directions open to remove it.
pub process_firewall-reaches :
    (id : ℕ) (action : FirewallAction) (s : FirewallStore) (f : FirewallRow)
    → find (λ g. g.id == id) s.firewalls ≡ some f
    → f.deleted ≡ false
    → All (λ n. any (λ m. m == n) s.nodes ≡ true) f.node_ids
    → All
        (λ n. IsIn (command_for (job_spec action f) n) (process_firewall id action s).commands)
        f.node_ids
unfolding process_firewall
process_firewall-reaches id action s f found live known =
    let same : process_firewall id action s
        ≡ fan_out (job_spec action f) f.node_ids (marked f action s) =
      rw (found, process_firewall, live) in
    subst (λ r. All (λ n. IsIn (command_for (job_spec action f) n) r.commands) f.node_ids)
      (sym same) (fan_out-reaches (job_spec action f) f.node_ids (marked f action s) known)
