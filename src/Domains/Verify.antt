-- ===== src/Domains/Verify.antt =====
-- apps/worker/src/processors/domain.ts. The answers of DNS are parameters, no address and no name where
-- the lookup fails.
use your_stack.Common.{
  ℕ, ◌+◌, ◌-◌, ltb, Bool, true, false, ◌&&◌, ◌||◌, Option, none, some, List, [], ◌∷◌, ◌==◌, leb,
  find, any, update, if◌then◌else◌,
}
use mathlib.Core.List.{reverse}
use your_stack.Common.Text.{Text, eq_text, has_prefix}
use your_stack.Domains.Requests.{
  Domain, DomainStatus, HostNode, HostedApp, DomainJob, DomainStore, verifying, verified, active,
  failed,
}

-- `MAX_ATTEMPTS`
abbrev pub max_attempts : ℕ
max_attempts = 10

abbrev pub is_digit : ℕ → Bool
is_digit c = leb 48 c && leb c 57

-- `/^\d+\.\d+\.\d+\.\d+$/`: so many dots are left, and whether a digit stands before.
unfoldable pub is_dotted : ℕ → Bool → Text → Bool
is_dotted dots after_digit [] = dots == 0 && after_digit
is_dotted dots after_digit (c ∷ s) =
    let digit = is_digit c in
    let rest = is_dotted (if digit then dots else dots - 1) digit s in
    if digit then rest else c == 46 && (after_digit && (ltb 0 dots && rest))

-- `endsWith`, the suffix first.
unfoldable pub has_suffix : Text → Text → Bool
has_suffix suffix s = has_prefix (reverse suffix) (reverse s)

abbrev pub is_ip_among : Option Text → List Text → Bool
is_ip_among none addrs = false
is_ip_among (some []) addrs = false
is_ip_among (some (c ∷ ip)) addrs = any (eq_text (c ∷ ip)) addrs

-- `resolvesToTarget`
unfoldable pub resolves_to_target : List Text → List Text → Text → Option Text → Bool
unfolding is_dotted has_suffix
resolves_to_target addrs cnames target node_ip =
    is_ip_among node_ip addrs
    || ((is_dotted 3 false target && any (eq_text target) addrs)
        || any (λ c. eq_text c target || has_suffix target c) cnames)

-- The tables after a run of the job, and the job that it queues.
pub record Processed : Type 0 where
  pub store : DomainStore
  pub retry : Option DomainJob

abbrev pub set_domain : ℕ → (Domain → Domain) → DomainStore → DomainStore
set_domain id f s = record s { domains = update (λ d. d.id == id) f s.domains }

abbrev pub start_check : ℕ → Domain → Domain
start_check now d = record d { status = verifying; last_checked_at = some now }

abbrev pub set_verified : ℕ → Domain → Domain
set_verified now d = record d { status = verified; verified_at = some now }

abbrev pub set_status : DomainStatus → Domain → Domain
set_status status d = record d { status = status }

-- The command for the node of the app, which is there by its relation.
abbrev pub provision : Domain → HostedApp → Option HostNode → DomainStore → DomainStore
provision d app none s = s
provision d app (some n) s = set_domain d.id (set_status active) (record s {
  commands =
      record {
        node_id = n.id;
        app_id = d.app_id;
        domain = d.hostname;
        auto_https = d.auto_https;
        target_port = app.port;
      }
      ∷ s.commands;
})

abbrev pub address : Option HostNode → Option Text
address none = none
address (some n) = n.public_ip

module _ (resolve4 resolve_cname : Text → List Text) where
  abbrev pub is_resolved : Domain → HostedApp → Bool
  is_resolved d app =
      resolves_to_target (resolve4 d.hostname) (resolve_cname d.hostname) d.dns_target
        (address app.node)

  -- What follows the check.
  abbrev pub conclude : Bool → ℕ → ℕ → Domain → HostedApp → DomainStore → Processed
  conclude true now attempt d app s = record {
    store = provision d app app.node (set_domain d.id (set_verified now) s);
    retry = none;
  }
  conclude false now attempt d app s =
      if leb max_attempts (attempt + 1)
      then record { store = set_domain d.id (set_status failed) s; retry = none }
      else record {
        store = record s { jobs = record { domain_id = d.id; attempt = attempt + 1 } ∷ s.jobs };
        retry = some record { domain_id = d.id; attempt = attempt + 1 };
      }

  -- A domain whose app is gone is gone with it.
  abbrev pub process_found : ℕ → ℕ → Option Domain → DomainStore → Processed
  process_found now attempt none s = record { store = s; retry = none }
  process_found now attempt (some d) s = elim (find (λ a. a.id == d.app_id) s.apps) [
    | none ↦ record { store = s; retry = none }
    | some app ↦
        conclude (is_resolved d app) now attempt d app (set_domain d.id (start_check now) s)
  ]

  -- `processDomain`
  unfoldable pub process_domain : ℕ → DomainJob → DomainStore → Processed
  unfolding resolves_to_target
  process_domain now job s =
      process_found now job.attempt (find (λ d. d.id == job.domain_id) s.domains) s
