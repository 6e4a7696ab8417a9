-- ===== src/Secrets/Spec.antt =====
-- `buildDeploySpec` of apps/worker/src/lib/spec.ts, and the snapshot that processDeploy keeps of its
-- result. A float is the text that it prints; the text of an id is a parameter.
use your_stack.Common.{
  ℕ, Bool, true, false, Option, none, some, List, [], ◌∷◌, ◌++◌, ◌==◌, ◌&&◌, filter, leb, or_else,
  if◌then◌else◌,
}
use your_stack.Common.Text.{Text, codes, decimal}
use your_stack.Secrets.Env.{SecretRow, Env, lookup, assign, resolve_env}
use your_stack.Secrets.Source.{DeploySource, GitRepository, SourceColumns, resolve_source}

pub data DomainStatus : Type 0 where
  pending : DomainStatus
  verifying : DomainStatus
  verified : DomainStatus
  active : DomainStatus
  failed : DomainStatus

pub record DomainRow : Type 0 where
  pub app_id : ℕ
  pub hostname : Text
  pub status : DomainStatus
  pub auto_https : Bool
  pub created_at : ℕ

pub data DeploymentStrategy : Type 0 where
  basic_replace : DeploymentStrategy
  rolling : DeploymentStrategy

pub record AppRow : Type 0 where
  pub id : ℕ
  pub project_id : ℕ
  pub columns : SourceColumns
  pub port : ℕ
  pub cpu : Text
  pub memory_mb : ℕ
  pub healthcheck_path : Text
  pub strategy : DeploymentStrategy

pub record Healthcheck : Type 0 where
  pub path : Text
  pub port : ℕ
  pub timeout_ms : ℕ
  pub retries : ℕ
  pub interval_ms : ℕ
  pub expect_status : ℕ

pub record DomainSpec : Type 0 where
  pub domain : Text
  pub auto_https : Bool
  pub target_port : ℕ

pub record DeployAppSpec : Type 0 where
  pub app_id : ℕ
  pub deployment_id : ℕ
  pub container_name : Text
  pub image_tag : Text
  pub source : DeploySource
  pub env : Env
  pub ports : List (ℕ × Text)
  pub cpu : Text
  pub memory_mb : ℕ
  pub healthcheck : Healthcheck
  pub domain : Option DomainSpec
  pub strategy : DeploymentStrategy
  pub network_name : Text
  pub labels : Env

-- `env[key] = env[key] ?? value`
unfoldable pub assign_default : Text → Text → Env → Env
unfolding lookup assign
assign_default key value env = assign key (or_else (lookup key env) value) env

abbrev pub is_served : DomainStatus → Bool
is_served verified = true
is_served active = true
is_served _ = false

-- `findFirst` in the order of creation.
unfoldable pub oldest : List DomainRow → Option DomainRow
oldest [] = none
oldest (d ∷ ds) = elim (oldest ds) [
  | none ↦ some d
  | some e ↦ if leb d.created_at e.created_at then some d else some e
]

abbrev pub domain_spec : ℕ → Option DomainRow → Option DomainSpec
domain_spec port none = none
domain_spec port (some d) =
    some (record { domain = d.hostname; auto_https = d.auto_https; target_port = port })

abbrev pub healthcheck_of : AppRow → Healthcheck
healthcheck_of app = record {
  path = app.healthcheck_path;
  port = app.port;
  timeout_ms = 10000;
  retries = 5;
  interval_ms = 3000;
  expect_status = 200;
}

module _ (decrypt : Text → Option Text) (text_of : ℕ → Text) where
  abbrev pub labels_of : ℕ → ℕ → ℕ → Env
  unfolding decimal
  labels_of app_id deployment_id version =
      (codes "io.yourstack.app", text_of app_id)
      ∷ (codes "io.yourstack.deployment", text_of deployment_id)
      ∷ (codes "io.yourstack.version", decimal version)
      ∷ (codes "io.yourstack.managed", codes "true")
      ∷ []

  unfoldable pub build_deploy_spec :
      List SecretRow
      → List DomainRow
      → AppRow
      → (deployment_id version : ℕ) → Option Text
      → Option GitRepository
      → DeployAppSpec
  unfolding resolve_env assign_default resolve_source oldest decimal
  build_deploy_spec secrets domains app deployment_id version ref repo = record {
    app_id = app.id;
    deployment_id = deployment_id;
    container_name = codes "yourstack-" ++ text_of app.id;
    image_tag = codes "yourstack/" ++ (text_of app.id ++ (58 ∷ decimal version));
    source = resolve_source decrypt app.columns repo (or_else ref app.columns.branch);
    env = assign_default (codes "NODE_ENV") (codes "production") (
        assign_default (codes "PORT") (decimal app.port)
          (resolve_env decrypt secrets app.id app.project_id none));
    ports = (app.port, codes "tcp") ∷ [];
    cpu = app.cpu;
    memory_mb = app.memory_mb;
    healthcheck = healthcheck_of app;
    domain =
        domain_spec app.port
          (oldest (filter (λ d. d.app_id == app.id && is_served d.status) domains));
    strategy = app.strategy;
    network_name = codes "yourstack_" ++ text_of app.id;
    labels = labels_of app.id deployment_id version;
  }

-- The snapshot of a spec that a deployment keeps for a rollback.
unfoldable pub snapshot : DeployAppSpec → DeployAppSpec
snapshot spec = record spec { env = [] }
