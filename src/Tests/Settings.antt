-- ===== src/Tests/Settings.antt =====
-- Secrets and specs.
use your_stack.Common.{
  ◌≡◌, refl, String, Option, none, some, List, [], ◌∷◌, ◌==◌, filter, if◌then◌else◌,
}
use your_stack.Common.Text.{Text, codes, decimal}
use your_stack.Secrets.{
  SecretScope, project, app, environment, SecretRow, lookup, of_project, of_app, of_environment,
  resolve_env, GitRepository, AppRow, basic_replace, build_deploy_spec, snapshot,
}
use your_stack.Secrets.Precedence.{prefer, latest, lookup-resolve_env}
use your_stack.Secrets.Defaults.{token_in, token_in-snapshot}

-- A decryption that drops a mark at the front and fails without it.
abbrev marked : Text → Option Text
marked [] = none
marked (c ∷ s) = if c == 42 then some s else none

abbrev row : SecretScope → String → SecretRow
row scope ciphertext = record {
  scope = scope;
  key = codes "URL";
  ciphertext = codes ciphertext;
  project_id = some 1;
  app_id = some 2;
  environment_id = some 3;
}

-- The secret of the environment cannot be decrypted.
abbrev rows : List SecretRow
rows = row environment "broken" ∷ row app "*app" ∷ row project "*project" ∷ []

lookup-resolve_env_example :
    lookup (codes "URL") (resolve_env marked rows 2 1 (some 3))
    ≡ prefer (latest marked (codes "URL") (filter (of_environment (some 3)) rows)) (
        prefer
          (latest marked (codes "URL") (filter (of_app 2) rows))
          (latest marked (codes "URL") (filter (of_project 1) rows)))
lookup-resolve_env_example = lookup-resolve_env marked (codes "URL") rows 2 1 (some 3)

abbrev shop : AppRow
shop = record {
  id = 2;
  project_id = 1;
  columns = record {
    framework = none;
    repo_url = none;
    branch = codes "main";
    install_command = none;
    build_command = none;
    start_command = none;
  };
  port = 3000;
  cpu = codes "0.5";
  memory_mb = 512;
  healthcheck_path = codes "/";
  strategy = basic_replace;
}

abbrev repo : GitRepository
repo = record { full_name = codes "o/shop"; install_token = some (codes "*ghs") }

token_in-snapshot_example :
    let kept = snapshot (build_deploy_spec marked decimal rows [] shop 7 1 none (some repo)) in
    (token_in kept.source ≡ some (codes "ghs")) × (kept.env ≡ [])
token_in-snapshot_example =
    token_in-snapshot marked decimal rows [] shop 7 1 none repo 42 (codes "ghs") (codes "ghs") refl
      refl
