-- ===== src/Blueprint/Balancing.antt =====
-- A load balancer that names a target which is not blank is created.
use your_stack.Common.{
  ℕ, ◌≡◌, refl, sym, ap, subst, ◌∙◌, Bool, true, not, ◌||◌, Option, none, some, List, [], ◌∷◌, any,
  Bool-cases, Option-cases, inl, inr,
}
use your_stack.Common.Text.{Text, trim}
use your_stack.Network.{is_blank}
use your_stack.Blueprint.Schema.{load_balancer, BlueprintPlanItem, BlueprintLoadBalancer}
use your_stack.Blueprint.Names.{
  Platform, AppAddress, ResolvedTarget, resolve_lb_targets, app_targets, explicit_targets,
  app_container_address,
}
use your_stack.Blueprint.Store.{Run}
use your_stack.Blueprint.Inserts.{app_addresses, explicit_of, address_of}
use your_stack.Blueprint.Create.{targets_of, create_load_balancer, balance}
use your_stack.Blueprint.Contract.{Steps, balance-Steps, Grows}
use your_stack.Blueprint.Loops.{Grows-refl}

abbrev pub has_target : List Text → Bool
has_target targets = any (λ t. not (is_blank (trim t))) targets

-- The list has an element.
abbrev IsCons : List ResolvedTarget → Type 0
IsCons ts = (t : ResolvedTarget) × (rest : List ResolvedTarget) × (ts ≡ t ∷ rest)

explicit_targets-IsCons :
    (raws : List Text) → has_target raws ≡ true → IsCons (explicit_targets [] raws)
unfolding explicit_targets
explicit_targets-IsCons [] h = absurd (cc h)
explicit_targets-IsCons (raw ∷ raws) h = elim (Bool-cases (is_blank (trim raw))) [
  | inl t ↦ rw t (explicit_targets-IsCons raws (subst (λ b. (not b || has_target raws) ≡ true) t h))
  | inr t ↦ (
    record { address = trim raw; weight = 1; app_id = none },
    explicit_targets (trim raw ∷ []) raws,
    rw t refl,
  )
]

-- Without a target that names an app, every target is explicit.
explicit_of-all :
    (by_name : List (Text × AppAddress)) (targets : List Text)
    → app_addresses by_name targets ≡ []
    → explicit_of by_name targets ≡ targets
unfolding app_addresses explicit_of
explicit_of-all by_name [] e = refl
explicit_of-all by_name (t ∷ targets) e = elim (Option-cases (address_of t by_name)) [
  | inl n ↦
      let shut : app_addresses by_name (t ∷ targets) ≡ app_addresses by_name targets =
        rw (app_addresses, n) refl in
      rw (explicit_of, n) (ap (λ ts. t ∷ ts) (explicit_of-all by_name targets (sym shut ∙ e)))
  | inr (a, n) ↦
      let shut : app_addresses by_name (t ∷ targets) ≡ a ∷ app_addresses by_name targets =
        rw (app_addresses, n) refl in
      absurd (cc (shut, e))
]

app_targets-IsCons :
    (platform : Platform) (apps : List AppAddress) (explicit : List Text)
    → (apps ≡ [] → has_target explicit ≡ true)
    → IsCons (app_targets platform [] apps explicit)
unfolding app_targets
app_targets-IsCons platform [] explicit h = explicit_targets-IsCons explicit (h refl)
app_targets-IsCons platform (a ∷ apps) explicit h = (
  record { address = app_container_address platform a; weight = 1; app_id = some a.app_id },
  app_targets platform (app_container_address platform a ∷ []) apps explicit,
  refl,
)

module _ (platform : Platform) (wid pid : ℕ) (bp_region : Option Text) where
  pub create_load_balancer-Grows :
      (lb : BlueprintLoadBalancer) (run : Run) (item : BlueprintPlanItem)
      → Grows run (create_load_balancer platform wid pid bp_region item lb run)
  unfolding create_load_balancer
  create_load_balancer-Grows lb run item =
      elim (targets_of platform wid pid bp_region lb run)
        as (λ ts. Grows run (balance platform wid pid bp_region item lb ts run)) [
          | [] ↦ unfold balance in Grows-refl run
          | t ∷ ts ↦ (balance-Steps platform wid pid bp_region item lb t ts run).0
        ]

  pub create_load_balancer-Steps :
      (lb : BlueprintLoadBalancer)
      → has_target lb.targets ≡ true
      → (item : BlueprintPlanItem) (run : Run)
      → Steps load_balancer pid lb.name item run
          (create_load_balancer platform wid pid bp_region item lb run)
  unfolding create_load_balancer resolve_lb_targets
  create_load_balancer-Steps lb h item run =
      let by_name = run.app_address_by_name in
      let (t, ts, e) =
        app_targets-IsCons platform (app_addresses by_name lb.targets)
          (explicit_of by_name lb.targets)
          (λ no_app.
            subst (λ ts. has_target ts ≡ true) (sym (explicit_of-all by_name lb.targets no_app))
              h) in
      subst
        (λ ts.
          Steps load_balancer pid lb.name item run
            (balance platform wid pid bp_region item lb ts run))
        (sym e) (balance-Steps platform wid pid bp_region item lb t ts run)
