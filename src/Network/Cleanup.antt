-- ===== src/Network/Cleanup.antt =====
-- What is left of a firewall or a load balancer once its row is deleted, and what a live one sends.
use your_stack.Common.{
  ℕ, ◌≡◌, ◌≢◌, refl, subst, true, false, ◌*◌, Option, some, List, [], ◌∷◌, ◌==◌, any, find, update,
  found-update, ok, arith, Option-cases, inl, inr,
}
use your_stack.Tenancy.Db.{Db, User}
use your_stack.Network.Firewall.{FirewallRow, FirewallAction, FirewallStore, process_firewall}
use your_stack.Network.Targets.{Target, dedupe_targets}
use your_stack.Network.TargetWeights.{IsClean, dedupe_targets-IsClean}
use your_stack.Network.Balancer.{
  LoadBalancer, LbAction, LbStore, provision_lb, lb_spec, send, provision_on, act_on, on_node,
  node_for, process_found, process_load_balancer,
}
use your_stack.Network.Requests.{mark_deleted, delete_firewall, retire, delete_load_balancer}

abbrev without_firewall : ℕ → FirewallStore → FirewallStore
without_firewall id s = record s {
  firewalls = update (λ f. f.id == id) mark_deleted s.firewalls;
  jobs = record { firewall_id = id; action = FirewallAction.remove } ∷ s.jobs;
}

delete_firewall_inv :
    (db : Db) (req_user : Option User) (id : ℕ) (s s' : FirewallStore)
    → delete_firewall db req_user id s ≡ ok s'
    → without_firewall id s ≡ s'
unfolding delete_firewall
delete_firewall_inv db req_user id s s' e = ground (arith, e)

process_firewall-deleted :
    (id : ℕ) (action : FirewallAction) (s : FirewallStore)
    → ((f : FirewallRow) → find (λ g. g.id == id) s.firewalls ≡ some f → f.deleted ≡ true)
    → process_firewall id action s ≡ s
unfolding process_firewall
process_firewall-deleted id action s h = elim (Option-cases (find (λ g. g.id == id) s.firewalls)) [
  | inl n ↦ rw (n, process_firewall) refl
  | inr (f, e) ↦ rw (e, process_firewall, h f e) refl
]

-- A firewall that is deleted by a request queues a job to remove it, and that job, like any other for
-- it, then changes nothing: no node is sent the spec that opens both directions.
pub delete_firewall-process_firewall :
    (db : Db) (req_user : Option User) (id : ℕ) (action : FirewallAction) (s s' : FirewallStore)
    → delete_firewall db req_user id s ≡ ok s'
    → (s'.jobs ≡ record { firewall_id = id; action = FirewallAction.remove } ∷ s.jobs)
      × (process_firewall id action s' ≡ s')
delete_firewall-process_firewall db req_user id action s s' e =
    subst
      (λ t.
        (t.jobs ≡ record { firewall_id = id; action = FirewallAction.remove } ∷ s.jobs)
        × (process_firewall id action t ≡ t))
      (delete_firewall_inv db req_user id s s' e)
      (
        refl,
        process_firewall-deleted id action (without_firewall id s) (λ f.
            found-update (λ g. g.id == id) (λ g. g.deleted) mark_deleted s.firewalls f (λ g. refl)
              (λ g. refl)),
      )

abbrev without_lb : ℕ → LbStore → LbStore
without_lb id s = record s {
  load_balancers = update (λ l. l.id == id) retire s.load_balancers;
  jobs = record { load_balancer_id = id; action = LbAction.remove } ∷ s.jobs;
}

delete_load_balancer_inv :
    (db : Db) (req_user : Option User) (id : ℕ) (s s' : LbStore)
    → delete_load_balancer db req_user id s ≡ ok s'
    → without_lb id s ≡ s'
unfolding delete_load_balancer
delete_load_balancer_inv db req_user id s s' e = ground (arith, e)

process_load_balancer-deleted :
    (id : ℕ) (action : LbAction) (s : LbStore)
    → ((l : LoadBalancer) → find (λ m. m.id == id) s.load_balancers ≡ some l → l.deleted ≡ true)
    → process_load_balancer id action s ≡ s
unfolding process_load_balancer process_found
process_load_balancer-deleted id action s h =
    elim (Option-cases (find (λ m. m.id == id) s.load_balancers)) [
      | inl n ↦ rw n refl
      | inr (l, e) ↦ rw (e, h l e) refl
    ]

-- A load balancer that is deleted by a request queues a job to remove it, and that job, like any other
-- for it, then changes nothing: no node is told to remove it.
pub delete_load_balancer-process_load_balancer :
    (db : Db) (req_user : Option User) (id : ℕ) (action : LbAction) (s s' : LbStore)
    → delete_load_balancer db req_user id s ≡ ok s'
    → (s'.jobs ≡ record { load_balancer_id = id; action = LbAction.remove } ∷ s.jobs)
      × (process_load_balancer id action s' ≡ s')
delete_load_balancer-process_load_balancer db req_user id action s s' e =
    subst
      (λ t.
        (t.jobs ≡ record { load_balancer_id = id; action = LbAction.remove } ∷ s.jobs)
        × (process_load_balancer id action t ≡ t))
      (delete_load_balancer_inv db req_user id s s' e)
      (
        refl,
        process_load_balancer-deleted id action (without_lb id s) (λ l.
            found-update (λ m. m.id == id) (λ m. m.deleted) retire s.load_balancers l (λ m. refl)
              (λ m. refl)),
      )

provision_on-sends :
    (lb : LoadBalancer) (node : ℕ) (ts : List Target) (s : LbStore)
    → any (λ n. n.id == node) s.nodes ≡ true
    → ts ≢ []
    → (provision_on lb node ts s).commands
      ≡ record { node_id = node; timeout_ms = 5 * 60_000; payload = provision_lb (lb_spec lb) }
        ∷ s.commands
unfolding provision_on send
provision_on-sends lb node [] s here ne = absurd (ne refl)
provision_on-sends lb node (t ∷ ts) s here ne = rw here refl

-- A provision job for a load balancer that is not deleted, with a target that is not blank and a node,
-- its own or one that placement picks, that is there, queues one command for that node: the balancer's
-- spec, whose targets have distinct addresses and positive weights.
pub process_load_balancer-provisions :
    (id node : ℕ) (s : LbStore) (lb : LoadBalancer)
    → find (λ l. l.id == id) s.load_balancers ≡ some lb
    → lb.deleted ≡ false
    → node_for lb s ≡ some node
    → any (λ n. n.id == node) s.nodes ≡ true
    → dedupe_targets lb.targets ≢ []
    → ((process_load_balancer id LbAction.provision s).commands
        ≡ record { node_id = node; timeout_ms = 5 * 60_000; payload = provision_lb (lb_spec lb) }
          ∷ s.commands)
      × IsClean (lb_spec lb).targets
unfolding process_load_balancer process_found on_node act_on
process_load_balancer-provisions id node s lb found live placed here ne = (
  rw (found, live, placed) (provision_on-sends lb node (dedupe_targets lb.targets) _ here ne),
  (dedupe_targets-IsClean lb.targets).0,
)
