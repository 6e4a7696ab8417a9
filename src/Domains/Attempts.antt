-- ===== src/Domains/Attempts.antt =====
-- The retries of a domain's verification come to an end.
use your_stack.Common.{
  ℕ, zero, suc, ◌+◌, ◌≡◌, refl, sym, ap, subst, ◌∙◌, Bool, true, false, ◌||◌, Option, none, some,
  List, ◌∷◌, ◌==◌, leb, find, find-update, if◌then◌else◌, arith,
}
use your_stack.Common.Text.{Text}
use your_stack.Domains.Requests.{
  Domain, DomainStatus, HostNode, HostedApp, DomainJob, DomainStore, verified, active, failed,
}
use your_stack.Domains.Verify.{
  Processed, set_domain, start_check, set_verified, set_status, provision, is_resolved, conclude,
  process_found, process_domain,
}

abbrev pub status_of : ℕ → DomainStore → Option DomainStatus
status_of id s = elim (find (λ d. d.id == id) s.domains) [ none ↦ none | some d ↦ some d.status ]

-- The status of a domain whose name was resolved, by whether its app is on a node.
abbrev pub status_on : Option HostNode → DomainStatus
status_on none = verified
status_on (some n) = active

-- What DNS answers, and the time, depend on the attempt.
module _ (resolve4 resolve_cname : ℕ → Text → List Text) (clock : ℕ → ℕ) where
  -- A run goes on with the job that it queued.
  abbrev pub go_on : (DomainJob → DomainStore → Processed) → Processed → Processed
  go_on run p = elim p.retry [ none ↦ p | some next ↦ run next p.store ]

  -- The runs of a job and of those that are queued by them, so many at most.
  unfoldable pub run_attempts : ℕ → DomainJob → DomainStore → Processed
  run_attempts zero job s = record { store = s; retry = some job }
  run_attempts (suc fuel) job s =
      go_on (run_attempts fuel) (
        process_domain (resolve4 job.attempt) (resolve_cname job.attempt) (clock job.attempt) job s)

  -- One of so many attempts from the given one on resolves the name.
  abbrev pub is_resolved_from : ℕ → ℕ → Domain → HostedApp → Bool
  is_resolved_from zero attempt d app = false
  is_resolved_from (suc n) attempt d app =
      is_resolved (resolve4 attempt) (resolve_cname attempt) d app
      || is_resolved_from n (attempt + 1) d app

  -- The domain that is found after a change of it.
  find-set_domain :
      (id : ℕ) (f : Domain → Domain) (d : Domain) (s : DomainStore)
      → ((x : Domain) → (f x).id ≡ x.id)
      → find (λ x. x.id == id) s.domains ≡ some d
      → find (λ x. x.id == id) (set_domain id f s).domains ≡ some (f d)
  find-set_domain id f d s same e =
      find-update (λ x. x.id == id) f s.domains d (λ x. rw (same x) refl) e

  status_of-provision :
      (now : ℕ) (d e : Domain) (app : HostedApp) (node : Option HostNode) (s : DomainStore)
      → find (λ x. x.id == d.id) s.domains ≡ some e
      → status_of d.id (provision d app node (set_domain d.id (set_verified now) s))
        ≡ some (status_on node)
  status_of-provision now d e app none s found =
      rw (status_of, find-set_domain d.id (set_verified now) e s (λ x. refl) found) refl
  status_of-provision now d e app (some n) s found =
      let s1 = set_domain d.id (set_verified now) s in
      rw
        (
          status_of,
          find-set_domain d.id (set_status active) (set_verified now e) s1 (λ x. refl)
              (find-set_domain d.id (set_verified now) e s (λ x. refl) found),
        )
        refl

  -- What the runs come to: no job is left, and the status tells whether one resolved the name.
  abbrev Settles : ℕ → ℕ → Domain → HostedApp → Processed → Type 0
  Settles n attempt d app p =
      (p.retry ≡ none)
      × (status_of d.id p.store
          ≡ some (if is_resolved_from n attempt d app then status_on app.node else failed))

  process_domain-concludes :
      (attempt : ℕ) (d : Domain) (app : HostedApp) (s : DomainStore)
      → find (λ x. x.id == d.id) s.domains ≡ some d
      → find (λ a. a.id == d.app_id) s.apps ≡ some app
      → process_domain
          (resolve4 attempt)
          (resolve_cname attempt)
          (clock attempt)
          (record { domain_id = d.id; attempt = attempt })
          s
        ≡ conclude
            (resolve4 attempt)
            (resolve_cname attempt)
            (is_resolved (resolve4 attempt) (resolve_cname attempt) d app)
            (clock attempt)
            attempt
            d
            app
            (set_domain d.id (start_check (clock attempt)) s)
  unfolding process_domain
  process_domain-concludes attempt d app s found hosted = rw (found, process_found, hosted) refl

  abbrev concluded : Bool → ℕ → Domain → HostedApp → DomainStore → Processed
  concluded b attempt d app s =
      conclude (resolve4 attempt) (resolve_cname attempt) b (clock attempt) attempt d app
        (set_domain d.id (start_check (clock attempt)) s)

  -- A check changes nothing that the next attempt looks at.
  is_resolved_from-start_check :
      (n attempt now : ℕ) (d : Domain) (app : HostedApp)
      → is_resolved_from n attempt (start_check now d) app ≡ is_resolved_from n attempt d app
  is_resolved_from-start_check zero attempt now d app = refl
  is_resolved_from-start_check (suc n) attempt now d app =
      ap (λ b. is_resolved (resolve4 attempt) (resolve_cname attempt) d app || b)
        (is_resolved_from-start_check n (attempt + 1) now d app)

  run_attempts-concluded :
      (fuel attempt : ℕ) (d : Domain) (app : HostedApp) (s : DomainStore)
      → find (λ x. x.id == d.id) s.domains ≡ some d
      → find (λ a. a.id == d.app_id) s.apps ≡ some app
      → run_attempts (suc fuel) (record { domain_id = d.id; attempt = attempt }) s
        ≡ go_on (run_attempts fuel) (
            concluded
              (is_resolved (resolve4 attempt) (resolve_cname attempt) d app)
              attempt
              d
              app
              s)
  unfolding run_attempts
  run_attempts-concluded fuel attempt d app s found hosted =
      ap (go_on (run_attempts fuel)) (process_domain-concludes attempt d app s found hosted)

  concluded-Settles :
      (fuel attempt : ℕ) (b : Bool) (d : Domain) (app : HostedApp) (s : DomainStore)
      → attempt + suc fuel ≡ 10
      → is_resolved (resolve4 attempt) (resolve_cname attempt) d app ≡ b
      → find (λ x. x.id == d.id) s.domains ≡ some d
      → find (λ a. a.id == d.app_id) s.apps ≡ some app
      → Settles (suc fuel) attempt d app (go_on (run_attempts fuel) (concluded b attempt d app s))
  concluded-Settles fuel attempt true d app s ten r found hosted =
      let now = clock attempt in
      let s1 = set_domain d.id (start_check now) s in
      let checked = find-set_domain d.id (start_check now) d s (λ x. refl) found in
      (refl, rw r (status_of-provision now d (start_check now d) app app.node s1 checked))
  concluded-Settles zero attempt false d app s ten r found hosted =
      let now = clock attempt in
      let s1 = set_domain d.id (start_check now) s in
      let checked = find-set_domain d.id (start_check now) d s (λ x. refl) found in
      let last : leb 10 (attempt + 1) ≡ true = ground (arith, ten) in
      let status =
        find-set_domain d.id (set_status failed) (start_check now d) s1 (λ x. refl) checked in
      let same : concluded false attempt d app s
          ≡ record { store = set_domain d.id (set_status failed) s1; retry = none } =
        rw last refl in
      subst (λ p. Settles 1 attempt d app (go_on (run_attempts 0) p)) (sym same)
        (refl, rw (r, status_of, status) refl)
  concluded-Settles (suc fuel) attempt false d app s ten r found hosted =
      let now = clock attempt in
      let s1 = set_domain d.id (start_check now) s in
      let checked = find-set_domain d.id (start_check now) d s (λ x. refl) found in
      let more : leb 10 (attempt + 1) ≡ false = ground (arith, ten) in
      let job : DomainJob = record { domain_id = d.id; attempt = attempt + 1 } in
      let s2 = record s1 { jobs = job ∷ s1.jobs } in
      let same : concluded false attempt d app s ≡ record { store = s2; retry = some job } =
        rw more refl in
      let rest =
        run_attempts-concluded fuel (attempt + 1) (start_check now d) app s2 checked hosted in
      let settled =
        concluded-Settles fuel (attempt + 1)
          (is_resolved (resolve4 (attempt + 1)) (resolve_cname (attempt + 1)) d app)
          (start_check now d) app s2 (omega (arith, ten)) refl checked hosted in
      subst (λ p. Settles (suc (suc fuel)) attempt d app (go_on (run_attempts (suc fuel)) p))
        (sym same)
        (
          ap (λ q. q.retry) rest ∙ settled.0,
          rw r (
              ap (λ q. status_of d.id q.store) rest
              ∙ (settled.1
                  ∙ ap (λ b. some (if b then status_on app.node else failed))
                      (is_resolved_from-start_check (suc fuel) (attempt + 1) now d app))),
        )

  -- A verification that starts at the first attempt ends after ten runs at most, with no job left: a
  -- domain whose name one of ten attempts resolves is active, or verified where its app is on no node,
  -- and any other failed.
  pub run_attempts-settles :
      (d : Domain) (app : HostedApp) (s : DomainStore)
      → find (λ x. x.id == d.id) s.domains ≡ some d
      → find (λ a. a.id == d.app_id) s.apps ≡ some app
      → ((run_attempts 10 (record { domain_id = d.id; attempt = 0 }) s).retry ≡ none)
        × (status_of d.id (run_attempts 10 (record { domain_id = d.id; attempt = 0 }) s).store
            ≡ some (if is_resolved_from 10 0 d app then status_on app.node else failed))
  run_attempts-settles d app s found hosted =
      subst (Settles 10 0 d app) (sym (run_attempts-concluded 9 0 d app s found hosted)) (
        concluded-Settles 9 0 (is_resolved (resolve4 0) (resolve_cname 0) d app) d app s refl refl
          found hosted)
