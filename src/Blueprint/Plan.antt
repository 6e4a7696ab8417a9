-- ===== src/Blueprint/Plan.antt =====
-- `computeBlueprintPlan` and `summarizePlan` of apps/api/src/services/blueprint.service.ts. A set of
-- names is a list.
use your_stack.Common.{ℕ, Bool, true, false, List, [], ◌∷◌, ◌++◌, map, any, count, if◌then◌else◌}
use your_stack.Common.Text.{Text, eq_text}
use your_stack.Blueprint.Schema.{
  Blueprint, BlueprintPlanItem, ResourceKind, app, database, bucket, function, cron, firewall,
  load_balancer, PlanAction, create, update, noop,
}

pub record ExistingResources : Type 0 where
  pub apps : List Text
  pub databases : List Text
  pub buckets : List Text
  pub functions : List Text
  pub cron : List Text
  pub firewalls : List Text
  pub load_balancers : List Text

abbrev pub empty_existing : ExistingResources
empty_existing = record {
  apps = [];
  databases = [];
  buckets = [];
  functions = [];
  cron = [];
  firewalls = [];
  load_balancers = [];
}

-- `have.has(name)`
abbrev pub has_name : List Text → Text → Bool
has_name have name = any (eq_text name) have

abbrev pub action_for : List Text → Text → PlanAction
action_for have name = if has_name have name then update else create

-- `push`
unfoldable pub plan_section : ResourceKind → List Text → List Text → List BlueprintPlanItem
plan_section kind [] have = []
plan_section kind (name ∷ names) have =
    record { kind = kind; name = name; action = action_for have name }
    ∷ plan_section kind names have

unfoldable pub compute_blueprint_plan : Blueprint → ExistingResources → List BlueprintPlanItem
unfolding plan_section
compute_blueprint_plan bp existing =
    plan_section app (map (λ a. a.name) bp.apps) existing.apps
    ++ (plan_section database (map (λ d. d.name) bp.databases) existing.databases
        ++ (plan_section bucket (map (λ b. b.name) bp.buckets) existing.buckets
            ++ (plan_section function (map (λ f. f.name) bp.functions) existing.functions
                ++ (plan_section cron (map (λ c. c.name) bp.cron) existing.cron
                    ++ (plan_section firewall (map (λ w. w.name) bp.firewalls) existing.firewalls
                        ++ plan_section load_balancer (map (λ l. l.name) bp.load_balancers)
                            existing.load_balancers)))))

abbrev pub is_create : PlanAction → Bool
is_create create = true
is_create _ = false

abbrev pub is_update : PlanAction → Bool
is_update update = true
is_update _ = false

abbrev pub is_noop : PlanAction → Bool
is_noop noop = true
is_noop _ = false

pub record PlanSummary : Type 0 where
  pub creates : ℕ
  pub updates : ℕ
  pub noops : ℕ

unfoldable pub summarize_plan : List BlueprintPlanItem → PlanSummary
summarize_plan plan = record {
  creates = count (λ p. is_create p.action) plan;
  updates = count (λ p. is_update p.action) plan;
  noops = count (λ p. is_noop p.action) plan;
}

-- The place of a kind among the kinds.
abbrev pub kind_rank : ResourceKind → ℕ
kind_rank app = 0
kind_rank database = 1
kind_rank bucket = 2
kind_rank function = 3
kind_rank cron = 4
kind_rank firewall = 5
kind_rank load_balancer = 6
