-- ===== src/Blueprint/Export.antt =====
-- `exportBlueprint` of apps/api/src/routes/blueprint.ts, behind GET /projects/:pid/blueprint, and its
-- plan. A text whose values the database restricts is read back as the value it names.
use text.Mathlib.Text.{◌==◌ as str_eq}
use your_stack.Common.{
  ℕ, Option, none, some, List, [], ◌∷◌, String, map, filter, find, not, ◌&&◌, ◌==◌, if◌then◌else◌,
  Result, ok, AppError, ◌>>=◌,
}
use your_stack.Common.Text.{Text}
use your_stack.Rbac.{Permission}
use your_stack.Tenancy.Db.{Db, User}
use your_stack.Tenancy.{require_permission, or_throw}
use your_stack.Network.{FirewallRuleRow, sort_rules, normalize_protocol, Policy, allow, deny}
use your_stack.Blueprint.Schema.{
  Blueprint, BlueprintApp, BlueprintDatabase, BlueprintBucket, BlueprintFunction, BlueprintCron,
  BlueprintRule, BlueprintFirewall, BlueprintLoadBalancer, number, app, database, bucket, function,
  cron, firewall, load_balancer,
}
use your_stack.Blueprint.Store.{
  Store, ResourceRow, is_live, app_columns, database_columns, bucket_columns, function_columns,
  cron_columns, firewall_columns, load_balancer_columns,
}

unfoldable pub app_of : ResourceRow → Option BlueprintApp
app_of r = elim r.columns [
  | app_columns c ↦ some record {
    name = r.name;
    source = c.source.repo_url;
    image = none;
    branch = some c.source.branch;
    framework = c.source.framework;
    build = c.source.build_command;
    start = c.source.start_command;
    port = some c.port;
    env = [];
    resources = record { cpu = some c.cpu; memory = some (number c.memory_mb) };
    region = none;
    domains = c.domains;
    scaling = none;
  }
  | _ ↦ none
]

unfoldable pub database_of : ResourceRow → Option BlueprintDatabase
database_of r = elim r.columns [
  | database_columns c ↦ some record {
    name = r.name;
    engine = c.engine;
    version = some c.version;
    storage = some (number c.storage_mb);
    resources = record { cpu = some c.cpu; memory = some (number c.memory_mb) };
    region = c.region;
  }
  | _ ↦ none
]

unfoldable pub bucket_of : ResourceRow → Option BlueprintBucket
bucket_of r = elim r.columns [
  | bucket_columns c ↦ some record {
    name = r.name;
    is_public = some c.is_public;
    quota = some (number c.quota_mb);
    region = c.region;
  }
  | _ ↦ none
]

unfoldable pub function_of : ResourceRow → Option BlueprintFunction
function_of r = elim r.columns [
  | function_columns c ↦ some record {
    name = r.name;
    runtime = c.runtime;
    handler = some c.handler;
    source = c.repo_url;
    memory = some (number c.memory_mb);
  }
  | _ ↦ none
]

unfoldable pub cron_of : ResourceRow → Option BlueprintCron
cron_of r = elim r.columns [
  | cron_columns c ↦
      some record { name = r.name; schedule = c.schedule; image = c.image; command = c.command }
  | _ ↦ none
]

abbrev pub rule_of : FirewallRuleRow → BlueprintRule
rule_of r = record {
  allow = str_eq r.action "allow";
  protocol = normalize_protocol r.protocol;
  port = r.port;
  cidr = r.cidr;
}

abbrev pub policy_of : String → Policy
policy_of text = if str_eq text "allow" then allow else deny

unfoldable pub firewall_of : ResourceRow → Option BlueprintFirewall
unfolding sort_rules
firewall_of r = elim r.columns [
  | firewall_columns c ↦ some record {
    name = r.name;
    nodes = some c.node_ids;
    default_inbound = policy_of c.default_inbound;
    rules = map rule_of (sort_rules c.rules);
  }
  | _ ↦ none
]

unfoldable pub load_balancer_of : ResourceRow → Option BlueprintLoadBalancer
load_balancer_of r = elim r.columns [
  | load_balancer_columns c ↦ some record {
    name = r.name;
    port = c.listen_port;
    algorithm = some c.algorithm;
    targets = map (λ t. t.address) c.targets;
    domain = c.domain;
    auto_https = some c.auto_https;
  }
  | _ ↦ none
]

-- The rows of a table, as what they are exported as.
abbrev pub or_skip : {A : Type 0} → Option A → List A → List A
or_skip none xs = xs
or_skip (some x) xs = x ∷ xs

unfoldable pub export_rows : {A : Type 0} → (ResourceRow → Option A) → List ResourceRow → List A
export_rows of_row [] = []
export_rows of_row (r ∷ rows) = or_skip (of_row r) (export_rows of_row rows)

unfoldable pub export_blueprint : ℕ → ℕ → Text → List ResourceRow → Blueprint
unfolding export_rows
export_blueprint wid pid name rows = record {
  project = name;
  region = none;
  apps = export_rows app_of (filter (is_live app pid) rows);
  databases = export_rows database_of (filter (is_live database pid) rows);
  buckets = export_rows bucket_of (filter (is_live bucket pid) rows);
  functions = export_rows function_of (filter (is_live function pid) rows);
  cron = export_rows cron_of (filter (is_live cron pid) rows);
  firewalls = export_rows firewall_of (filter (is_live firewall wid) rows);
  load_balancers = export_rows load_balancer_of (filter (is_live load_balancer pid) rows);
}

-- GET /projects/:pid/blueprint
unfoldable pub get_blueprint : Db → Option User → ℕ → Store → Result Blueprint
unfolding export_blueprint
get_blueprint db req_user pid s = do
  project ←
      or_throw (find (λ p. p.id == pid && not p.deleted) s.projects)
        (AppError.not_found "Project not found")
  _ ← require_permission db req_user project.workspace_id Permission.project_view
  ok (export_blueprint project.workspace_id pid project.name s.rows)
