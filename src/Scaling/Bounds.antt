-- ===== src/Scaling/Bounds.antt =====
-- What an evaluation of a scaling policy does to the number of replicas.
use your_stack.Common.{
  ℕ, ◌+◌, ◌*◌, ◌≤◌, ◌<◌, ◌≡◌, ◌≢◌, refl, sym, ◌∙◌, subst, true, false, some, List, [], ◌∷◌, ◌==◌,
  ==_iff, ◌&&◌, ◌||◌, not, find, find-passes, find-update, any, update, length, ltb, lt→ltb, ◌⊎◌,
  inl, inr, arith, Bool-cases, if◌then◌else◌,
}
use your_stack.Scaling.Replicas.{Doubles, clamp, compute_desired_replicas}
use your_stack.Scaling.Autoscale.{
  ScalingPolicy, ResourceMetric, observed_value, AutoscaleStore, metric_kind, recent_metrics,
  is_cooling, decide, apply_decision, evaluate, app_node, process_autoscale,
}

clamp-bounds : (low high n : ℕ) → low ≤ high → (low ≤ clamp low high n) × (clamp low high n ≤ high)
unfolding clamp
clamp-bounds low high n h = ground (arith, h)

length-ne {ℓ} : {A : Type ℓ} (xs : List A) → xs ≢ [] → (length xs == 0) ≡ false
length-ne [] ne = absurd (ne refl)
length-ne (x ∷ xs) ne = ground arith

module _ (d : Doubles) where
  desired-clamp :
      (current : ℕ) (observed target : d.Double) (low high : ℕ)
      → (n : ℕ) × ((compute_desired_replicas d current observed target low high).desired
          ≡ clamp low high n)
  unfolding compute_desired_replicas
  desired-clamp current observed target low high =
      let ratio = d.div observed target in
      elim (Bool-cases (d.is_at_most target (d.of_nat 0))) [
        | inl e ↦ (current, rw e refl)
        | inr e ↦
            elim (Bool-cases (d.is_less d.nine_tenths ratio && d.is_less ratio d.eleven_tenths)) [
              | inl k ↦ (current, rw (e, k) refl)
              | inr k ↦ (
                d.ceil (d.mul (d.of_nat (if ltb 0 current then current else 1)) ratio),
                rw (e, k) refl,
              )
            ]
      ]

  decide-bounds :
      (policy : ScalingPolicy d) (recent : List (ResourceMetric d))
      → policy.min_replicas ≤ policy.max_replicas
      → (policy.min_replicas ≤ (decide d policy recent).desired)
        × ((decide d policy recent).desired ≤ policy.max_replicas)
  unfolding decide
  decide-bounds policy recent h =
      let (n, e) =
        desired-clamp policy.current_replicas (observed_value d recent) policy.target_value
          policy.min_replicas policy.max_replicas in
      rw e (clamp-bounds policy.min_replicas policy.max_replicas n h)

  -- The policy of an app that is evaluated: it is on, and the app stands on a node that exists.
  abbrev pub IsEvaluated : ℕ → ScalingPolicy d → ℕ → AutoscaleStore d → Type 0
  IsEvaluated app_id policy node_id s =
      (find (λ p. p.app_id == app_id) s.policies ≡ some policy)
      × (policy.enabled ≡ true)
      × (app_node (find (λ a. a.id == app_id && not a.deleted) s.apps) ≡ some node_id)
      × (any (λ n. n == node_id) s.nodes ≡ true)

  process_autoscale-evaluate :
      (app_id now node_id : ℕ) (policy : ScalingPolicy d) (s : AutoscaleStore d)
      → IsEvaluated app_id policy node_id s
      → process_autoscale d app_id now s ≡ evaluate d policy node_id now s
  unfolding process_autoscale
  process_autoscale-evaluate app_id now node_id policy s h =
      rw (h.0, process_autoscale, h.2, h.1) refl

  apply_decision-policy :
      (app_id now node_id desired : ℕ) (policy : ScalingPolicy d) (s : AutoscaleStore d)
      → IsEvaluated app_id policy node_id s
      → find (λ p. p.app_id == app_id) (apply_decision d policy node_id desired now s).policies
        ≡ some (record policy { current_replicas = desired; last_scaled_at = some now })
  unfolding apply_decision
  apply_decision-policy app_id now node_id desired policy s h =
      let passes = find-passes (λ p. p.app_id == app_id) s.policies policy h.0 in
      let same : policy.app_id ≡ app_id = (==_iff policy.app_id app_id).0 passes in
      let own : find (λ p. p.app_id == policy.app_id) s.policies ≡ some policy =
        subst (λ id. find (λ p. p.app_id == id) s.policies ≡ some policy) (sym same) h.0 in
      let scaled : ScalingPolicy d → ScalingPolicy d =
        λ p. record p { current_replicas = desired; last_scaled_at = some now } in
      let updated = update (λ p. p.app_id == policy.app_id) scaled s.policies in
      rw h.3 (
        subst (λ id. find (λ p. p.app_id == id) updated ≡ some (scaled policy)) same
          (find-update (λ p. p.app_id == policy.app_id) scaled s.policies policy (λ p. refl) own))

  -- An evaluation that is not held back leaves the number of replicas between the policy's bounds: the
  -- policy is on, has cooled down and has recent metrics, its app stands on a node that exists, and its
  -- minimum is at most its maximum.
  pub process_autoscale-bounds :
      (app_id now node_id : ℕ) (policy : ScalingPolicy d) (s : AutoscaleStore d)
      → IsEvaluated app_id policy node_id s
      → is_cooling d now policy ≡ false
      → recent_metrics d policy.app_id (metric_kind policy.metric) now s.metrics ≢ []
      → policy.min_replicas ≤ policy.max_replicas
      → (q : ScalingPolicy d) × (find
            (λ p. p.app_id == app_id)
            (process_autoscale d app_id now s).policies
          ≡ some q)
        × (policy.min_replicas ≤ q.current_replicas)
        × (q.current_replicas ≤ policy.max_replicas)
  unfolding evaluate
  process_autoscale-bounds app_id now node_id policy s h cool ne le =
      let recent = recent_metrics d policy.app_id (metric_kind policy.metric) now s.metrics in
      let n = (decide d policy recent).desired in
      let bounds = decide-bounds policy recent le in
      let some_recent : (length recent == 0) ≡ false = length-ne recent ne in
      rw (process_autoscale-evaluate app_id now node_id policy s h, cool, some_recent)
        (elim (Bool-cases (n == policy.current_replicas)) [
          | inl e ↦ rw e (
            policy,
            h.0,
            omega (arith, bounds.0, (==_iff n policy.current_replicas).0 e),
            omega (arith, bounds.1, (==_iff n policy.current_replicas).0 e),
          )
          | inr e ↦ rw e (
            record policy { current_replicas = n; last_scaled_at = some now },
            apply_decision-policy app_id now node_id n policy s h,
            bounds.0,
            bounds.1,
          )
        ])

  apply_decision-keeps :
      (node_id n now : ℕ) (policy : ScalingPolicy d) (s : AutoscaleStore d)
      → any (λ m. m == node_id) s.nodes ≡ true
      → ((apply_decision d policy node_id n now s).apps ≡ s.apps)
        × ((apply_decision d policy node_id n now s).nodes ≡ s.nodes)
  unfolding apply_decision
  apply_decision-keeps node_id n now policy s h = rw h (refl, refl)

  evaluate-cooling :
      (now node_id : ℕ) (policy : ScalingPolicy d) (s : AutoscaleStore d)
      → is_cooling d now policy ≡ true
      → evaluate d policy node_id now s ≡ s
  unfolding evaluate
  evaluate-cooling now node_id policy s h = rw h refl

  evaluate-cases :
      (now node_id : ℕ) (policy : ScalingPolicy d) (s : AutoscaleStore d)
      → (evaluate d policy node_id now s ≡ s)
        ⊎ ((n : ℕ) × (evaluate d policy node_id now s ≡ apply_decision d policy node_id n now s))
  unfolding evaluate
  evaluate-cases now node_id policy s =
      let recent = recent_metrics d policy.app_id (metric_kind policy.metric) now s.metrics in
      let n = (decide d policy recent).desired in
      elim (Bool-cases
        (is_cooling d now policy || length recent == 0 || n == policy.current_replicas)) [
          | inl e ↦ inl (rw e refl)
          | inr e ↦ inr (n, rw e refl)
        ]

  -- Of two evaluations within the cooldown of a policy at most one sends a command: where the first
  -- does, the second changes nothing.
  pub process_autoscale-cooldown :
      (app_id now later node_id : ℕ) (policy : ScalingPolicy d) (s : AutoscaleStore d)
      → IsEvaluated app_id policy node_id s
      → later < now + policy.cooldown_seconds * 1000
      → (process_autoscale d app_id now s ≡ s)
        ⊎ (process_autoscale d app_id later (process_autoscale d app_id now s)
            ≡ process_autoscale d app_id now s)
  process_autoscale-cooldown app_id now later node_id policy s h lt =
      let first = process_autoscale-evaluate app_id now node_id policy s h in
      elim (evaluate-cases now node_id policy s) [
        | inl e ↦ inl (first ∙ e)
        | inr r ↦
            let (n, e) = r in
            let applied = apply_decision d policy node_id n now s in
            let scaled = record policy { current_replicas = n; last_scaled_at = some now } in
            let kept = apply_decision-keeps node_id n now policy s h.3 in
            let still : IsEvaluated app_id scaled node_id applied = (
              apply_decision-policy app_id now node_id n policy s h,
              h.1,
              rw (kept.0) h.2,
              rw (kept.1) h.3,
            ) in
            let cool : is_cooling d later scaled ≡ true =
              lt→ltb later (now + policy.cooldown_seconds * 1000) lt in
            inr (
              rw (first ∙ e) (
                process_autoscale-evaluate app_id later node_id scaled applied still
                ∙ evaluate-cooling later node_id scaled applied cool))
      ]
