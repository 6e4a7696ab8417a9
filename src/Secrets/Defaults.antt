-- ===== src/Secrets/Defaults.antt =====
-- What the spec of a deployment takes from the secrets, and what its snapshot keeps of them.
use your_stack.Common.{
  ℕ, ◌≡◌, ◌≢◌, refl, ◌∙◌, ap, false, Option, none, some, List, [], ◌∷◌, arith, inl, inr, Bool-cases,
  or_else, if◌then◌else◌,
}
use your_stack.Common.Text.{Text, codes, eq_text, eq_text_iff, decimal}
use your_stack.Secrets.Env.{SecretRow, Env, lookup, resolve_env}
use your_stack.Secrets.Source.{
  DeploySource, git, buildpack, image, GitRepository, source_url, clone_token_of, resolve_source,
  is_dockerfile,
}
use your_stack.Secrets.Spec.{
  DomainRow, AppRow, DeployAppSpec, assign_default, build_deploy_spec, snapshot,
}
use your_stack.Secrets.Precedence.{lookup-assign}

lookup-assign_default :
    (key name value : Text) (env : Env)
    → lookup key (assign_default name value env)
      ≡ (if eq_text name key then some (or_else (lookup name env) value) else lookup key env)
unfolding assign_default
lookup-assign_default key name value env =
    lookup-assign key name (or_else (lookup name env) value) env

eq_text-ne : (a b : Text) → a ≢ b → eq_text a b ≡ false
eq_text-ne a b ne = ground (arith, ne, eq_text_iff a b)

lookup-other :
    (key name value : Text) (env : Env)
    → name ≢ key
    → lookup key (assign_default name value env) ≡ lookup key env
lookup-other key name value env ne =
    lookup-assign_default key name value env ∙ rw (eq_text-ne name key ne) refl

module _ (decrypt : Text → Option Text) (text_of : ℕ → Text) (secrets : List SecretRow)
    (domains : List DomainRow) (app : AppRow) (deployment_id version : ℕ) (ref : Option Text)
    (repo : Option GitRepository) where
  abbrev spec : DeployAppSpec
  spec = build_deploy_spec decrypt text_of secrets domains app deployment_id version ref repo

  abbrev resolved : Env
  resolved = resolve_env decrypt secrets app.id app.project_id none

  -- In the environment of a spec PORT and NODE_ENV have the values of the secrets of these names, or
  -- without one the port of the app and "production"; every other variable is as the secrets give it.
  pub build_deploy_spec-env :
      (key : Text)
      → codes "PORT" ≢ key
      → codes "NODE_ENV" ≢ key
      → (lookup (codes "PORT") spec.env
          ≡ some (or_else (lookup (codes "PORT") resolved) (decimal app.port)))
        × (lookup (codes "NODE_ENV") spec.env
            ≡ some (or_else (lookup (codes "NODE_ENV") resolved) (codes "production")))
        × (lookup key spec.env ≡ lookup key resolved)
  unfolding build_deploy_spec eq_text
  build_deploy_spec-env key not_port not_node_env =
      let with_port = assign_default (codes "PORT") (decimal app.port) resolved in
      (
        lookup-assign_default (codes "PORT") (codes "NODE_ENV") (codes "production") with_port
            ∙ lookup-assign_default (codes "PORT") (codes "PORT") (decimal app.port) resolved,
        lookup-assign_default (codes "NODE_ENV") (codes "NODE_ENV") (codes "production") with_port
            ∙ ap (λ o. some (or_else o (codes "production")))
                (lookup-assign_default (codes "NODE_ENV") (codes "PORT") (decimal app.port)
                  resolved),
        lookup-other key (codes "NODE_ENV") (codes "production") with_port not_node_env
            ∙ lookup-other key (codes "PORT") (decimal app.port) resolved not_port,
      )

-- The token by which a source is cloned.
abbrev pub token_in : DeploySource → Option Text
token_in (git url ref path dockerfile token) = token
token_in (buildpack url ref framework install build start token) = token
token_in (image name) = none

-- Where the installation token of the linked repository decrypts, the snapshot of the spec holds the
-- token in plain text, although its environment is empty.
pub token_in-snapshot :
    (decrypt : Text → Option Text) (text_of : ℕ → Text) (secrets : List SecretRow)
    (domains : List DomainRow) (app : AppRow) (deployment_id version : ℕ) (ref : Option Text)
    (repo : GitRepository) (c : ℕ) (cs token : Text)
    → repo.install_token ≡ some (c ∷ cs)
    → decrypt (c ∷ cs) ≡ some token
    → let kept = snapshot (
        build_deploy_spec decrypt text_of secrets domains app deployment_id version ref
          (some repo)) in
      (token_in kept.source ≡ some token) × (kept.env ≡ [])
unfolding snapshot build_deploy_spec resolve_source source_url clone_token_of
token_in-snapshot decrypt text_of secrets domains app deployment_id version ref repo c cs token h
      k =
    let t : clone_token_of decrypt (some repo) ≡ some token = rw h k in
    elim (Bool-cases (is_dockerfile app.columns.framework)) [
      | inl e ↦ rw e (t, refl)
      | inr e ↦ rw e (t, refl)
    ]
