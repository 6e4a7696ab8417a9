-- ===== src/Blueprint/Sections.antt =====
-- Each of the seven loops of the apply handler, run on the plan of its own blueprint.
use your_stack.Common.{
  ℕ, ◌≡◌, refl, true, none, List, [], ◌∷◌, ◌++◌, map, All, IsIn, inl, inr, Option-cases,
}
use your_stack.Common.Text.{Text}
use your_stack.Blueprint.Schema.{
  Blueprint, ResourceKind, app, database, bucket, function, cron, firewall, load_balancer,
  BlueprintPlanItem, BlueprintApp,
}
use your_stack.Blueprint.Names.{Platform}
use your_stack.Blueprint.Plan.{ExistingResources, has_name, plan_section, compute_blueprint_plan}
use your_stack.Blueprint.Store.{Run}
use your_stack.Blueprint.Inserts.{keep_app, find_address}
use your_stack.Blueprint.Create
use your_stack.Blueprint.Apply.{each, no_keep}
use your_stack.Blueprint.Apply
use your_stack.Blueprint.Contract.{
  HasRow, Grows, Steps, create_app-Steps, create_database-Steps, create_bucket-Steps,
  create_function-Steps, create_cron-Steps, create_firewall-Steps,
}
use your_stack.Blueprint.Loops.{new_items, each-Done, Ready, IsPlanned}
use your_stack.Blueprint.Planned.{declared, existing_of, find-plan}
use your_stack.Blueprint.Balancing.{
  has_target, create_load_balancer-Grows, create_load_balancer-Steps,
}

pub All-named :
    {A : Type 0} (name_of : A → Text) (Good P : A → Type 0) (xs : List A)
    → ((x : A) → IsIn (name_of x) (map name_of xs) → Good x → P x)
    → All Good xs
    → All P xs
All-named name_of Good P [] h g = tt
All-named name_of Good P (x ∷ xs) h g =
    (h x (inl refl) g.0, All-named name_of Good P xs (λ y i. h y (inr i)) g.1)

pub All-map :
    {A : Type 0} (name_of : A → Text) (P : Text → Type 0) (xs : List A)
    → All (λ x. P (name_of x)) xs
    → All P (map name_of xs)
All-map name_of P [] h = tt
All-map name_of P (x ∷ xs) h = (h.0, All-map name_of P xs h.1)

-- Nothing is asked of a resource.
abbrev pub Any : {A : Type 0} → A → Type 0
Any x = Unit

pub All-Any : {A : Type 0} (xs : List A) → All Any xs
All-Any [] = tt
All-Any (x ∷ xs) = (tt, All-Any xs)

pub keep_app-Keeps :
    (pid : ℕ) (a : BlueprintApp) (run : Run)
    → ((keep_app pid a run).store ≡ run.store) × ((keep_app pid a run).applied ≡ run.applied)
unfolding keep_app
keep_app-Keeps pid a run = elim (Option-cases (find_address pid a.name run.store.rows)) [
  | inl e ↦ rw (keep_app, e) (refl, refl)
  | inr (address, e) ↦ rw (keep_app, e) (refl, refl)
]

module _ (platform : Platform) (wid pid : ℕ) (bp : Blueprint) (existing : ExistingResources)
    (r₀ : Run) where
  -- The project owns every resource but the firewalls.
  abbrev pub owner_of : ResourceKind → ℕ
  owner_of firewall = wid
  owner_of _ = pid

  abbrev pub the_plan : List BlueprintPlanItem
  the_plan = compute_blueprint_plan bp existing

  -- The names that exist are those of rows at the start.
  abbrev pub IsCurrent : Type 0
  IsCurrent =
      (kind : ResourceKind) (name : Text)
      → has_name (existing_of kind existing) name ≡ true
      → HasRow kind (owner_of kind) name r₀

  -- A loop has made every resource of its kind, and recorded those that the plan creates.
  abbrev pub IsApplied : ResourceKind → Run → Run → Type 0
  IsApplied kind run run' =
      All (λ n. HasRow kind (owner_of kind) n run') (declared kind bp)
      × (run'.applied
          ≡ run.applied
            ++ new_items (plan_section kind (declared kind bp) (existing_of kind existing)))

  section_IsApplied :
      {A : Type 0} (kind : ResourceKind) (owner : ℕ) (name_of : A → Text)
      (create : BlueprintPlanItem → A → Run → Run) (keep : A → Run → Run) (have : List Text)
      (Good : A → Type 0) (xs : List A) (run : Run)
      → ((x : A)
          → IsIn (name_of x) (map name_of xs)
          → IsPlanned the_plan kind name_of create keep have x)
      → ((x : A)
          → Good x
          → (item : BlueprintPlanItem) (r : Run)
          → Steps kind owner (name_of x) item r (create item x r))
      → ((x : A) (r : Run) (item : BlueprintPlanItem) → Grows r (create item x r))
      → ((x : A) (r : Run) → ((keep x r).store ≡ r.store) × ((keep x r).applied ≡ r.applied))
      → ((name : Text) → has_name have name ≡ true → HasRow kind owner name r₀)
      → All Good xs
      → Grows r₀ run
      → (each the_plan kind name_of create keep xs run).thrown ≡ none
      → All
          (λ n. HasRow kind owner n (each the_plan kind name_of create keep xs run))
          (map name_of xs)
        × ((each the_plan kind name_of create keep xs run).applied
            ≡ run.applied ++ new_items (plan_section kind (map name_of xs) have))
  section_IsApplied kind owner name_of create keep have Good xs run p s grow keeps present good g
        e =
      let done =
        each-Done the_plan kind name_of create keep owner have r₀ xs run
          (All-named name_of Good (Ready the_plan kind name_of create keep owner have r₀) xs
            (λ x i h. (p x i, s x h)) good)
          (λ x. present (name_of x)) keeps grow g e in
      (
        All-map name_of (λ n. HasRow kind owner n (each the_plan kind name_of create keep xs run))
            xs done.0,
        done.1,
      )

  module _ (current : IsCurrent) where
    pub apply_apps-IsApplied :
        (run : Run)
        → Grows r₀ run
        → (Apply.apply_apps platform wid pid bp the_plan run).thrown ≡ none
        → IsApplied app run (Apply.apply_apps platform wid pid bp the_plan run)
    apply_apps-IsApplied run g e =
        section_IsApplied app pid (λ a. a.name) (Create.create_app platform wid pid bp.region)
          (keep_app pid) existing.apps Any bp.apps run (λ x i. find-plan app x.name bp existing i)
          (λ x h item r. create_app-Steps platform wid pid bp.region item x r)
          (λ x r item. (create_app-Steps platform wid pid bp.region item x r).0)
          (keep_app-Keeps pid) (current app) (All-Any bp.apps) g e

    pub apply_databases-IsApplied :
        (run : Run)
        → Grows r₀ run
        → (Apply.apply_databases platform wid pid bp the_plan run).thrown ≡ none
        → IsApplied database run (Apply.apply_databases platform wid pid bp the_plan run)
    apply_databases-IsApplied run g e =
        section_IsApplied database pid (λ x. x.name)
          (Create.create_database platform wid pid bp.region) no_keep existing.databases Any
          bp.databases run (λ x i. find-plan database x.name bp existing i)
          (λ x h item r. create_database-Steps platform wid pid bp.region item x r)
          (λ x r item. (create_database-Steps platform wid pid bp.region item x r).0)
          (λ x r. (refl, refl)) (current database) (All-Any bp.databases) g e

    pub apply_buckets-IsApplied :
        (run : Run)
        → Grows r₀ run
        → (Apply.apply_buckets platform wid pid bp the_plan run).thrown ≡ none
        → IsApplied bucket run (Apply.apply_buckets platform wid pid bp the_plan run)
    apply_buckets-IsApplied run g e =
        section_IsApplied bucket pid (λ x. x.name) (Create.create_bucket platform wid pid bp.region)
          no_keep existing.buckets Any bp.buckets run (λ x i. find-plan bucket x.name bp existing i)
          (λ x h item r. create_bucket-Steps platform wid pid bp.region item x r)
          (λ x r item. (create_bucket-Steps platform wid pid bp.region item x r).0)
          (λ x r. (refl, refl)) (current bucket) (All-Any bp.buckets) g e

    pub apply_functions-IsApplied :
        (run : Run)
        → Grows r₀ run
        → (Apply.apply_functions platform wid pid bp the_plan run).thrown ≡ none
        → IsApplied function run (Apply.apply_functions platform wid pid bp the_plan run)
    apply_functions-IsApplied run g e =
        section_IsApplied function pid (λ x. x.name)
          (Create.create_function platform wid pid bp.region) no_keep existing.functions Any
          bp.functions run (λ x i. find-plan function x.name bp existing i)
          (λ x h item r. create_function-Steps platform wid pid bp.region item x r)
          (λ x r item. (create_function-Steps platform wid pid bp.region item x r).0)
          (λ x r. (refl, refl)) (current function) (All-Any bp.functions) g e

    pub apply_cron-IsApplied :
        (run : Run)
        → Grows r₀ run
        → (Apply.apply_cron platform wid pid bp the_plan run).thrown ≡ none
        → IsApplied cron run (Apply.apply_cron platform wid pid bp the_plan run)
    apply_cron-IsApplied run g e =
        section_IsApplied cron pid (λ x. x.name) (Create.create_cron platform wid pid bp.region)
          no_keep existing.cron Any bp.cron run (λ x i. find-plan cron x.name bp existing i)
          (λ x h item r. create_cron-Steps platform wid pid bp.region item x r)
          (λ x r item. (create_cron-Steps platform wid pid bp.region item x r).0)
          (λ x r. (refl, refl)) (current cron) (All-Any bp.cron) g e

    pub apply_firewalls-IsApplied :
        (run : Run)
        → Grows r₀ run
        → (Apply.apply_firewalls platform wid pid bp the_plan run).thrown ≡ none
        → IsApplied firewall run (Apply.apply_firewalls platform wid pid bp the_plan run)
    apply_firewalls-IsApplied run g e =
        section_IsApplied firewall wid (λ x. x.name)
          (Create.create_firewall platform wid pid bp.region) no_keep existing.firewalls Any
          bp.firewalls run (λ x i. find-plan firewall x.name bp existing i)
          (λ x h item r. create_firewall-Steps platform wid pid bp.region item x r)
          (λ x r item. (create_firewall-Steps platform wid pid bp.region item x r).0)
          (λ x r. (refl, refl)) (current firewall) (All-Any bp.firewalls) g e

    pub apply_load_balancers-IsApplied :
        (run : Run)
        → All (λ lb. has_target lb.targets ≡ true) bp.load_balancers
        → Grows r₀ run
        → (Apply.apply_load_balancers platform wid pid bp the_plan run).thrown ≡ none
        → IsApplied load_balancer run (Apply.apply_load_balancers platform wid pid bp the_plan run)
    apply_load_balancers-IsApplied run targets g e =
        section_IsApplied load_balancer pid (λ x. x.name)
          (Create.create_load_balancer platform wid pid bp.region) no_keep existing.load_balancers
          (λ lb. has_target lb.targets ≡ true) bp.load_balancers run
          (λ x i. find-plan load_balancer x.name bp existing i)
          (λ x h item r. create_load_balancer-Steps platform wid pid bp.region x h item r)
          (λ x r item. create_load_balancer-Grows platform wid pid bp.region x r item)
          (λ x r. (refl, refl)) (current load_balancer) targets g e
