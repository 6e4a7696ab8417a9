-- ===== src/Secrets/Source.antt =====
-- `resolveSource` of apps/worker/src/lib/spec.ts: what a node builds an app from.
use your_stack.Common.{Bool, true, Option, none, some, [], ◌∷◌, ◌++◌, ◌||◌, or_else, if◌then◌else◌}
use your_stack.Common.Text.{Text, codes, eq_text, has_prefix}

pub data DeploySource : Type 0 where
  git : (repo_url ref context_path dockerfile : Text) (clone_token : Option Text) → DeploySource
  buildpack :
      (repo_url ref framework : Text) (install_command build_command start_command : Option Text)
      (clone_token : Option Text)
      → DeploySource
  image : (name : Text) → DeploySource

pub record GitRepository : Type 0 where
  pub full_name : Text
  pub install_token : Option Text

-- The columns of an app that its source depends on.
pub record SourceColumns : Type 0 where
  pub framework : Option Text
  pub repo_url : Option Text
  pub branch : Text
  pub install_command : Option Text
  pub build_command : Option Text
  pub start_command : Option Text

abbrev pub demo_fallback_image : Text
demo_fallback_image = codes "traefik/whoami:latest"

-- `/^https?:\/\//.test(url)`
unfoldable pub is_http : Text → Bool
unfolding has_prefix
is_http url = has_prefix (codes "http://") url || has_prefix (codes "https://") url

-- A column that is neither null nor empty.
abbrev pub non_empty : Option Text → Option Text
non_empty none = none
non_empty (some []) = none
non_empty (some (c ∷ s)) = some (c ∷ s)

abbrev pub if_http : Option Text → Option Text
if_http none = none
if_http (some url) = if is_http url then some url else none

abbrev pub unless_http : Option Text → Option Text
unless_http none = none
unless_http (some url) = if is_http url then none else some url

-- `repoUrl`
unfoldable pub source_url : SourceColumns → Option GitRepository → Option Text
unfolding is_http
source_url app (some repo) = some (codes "https://github.com/" ++ (repo.full_name ++ codes ".git"))
source_url app none = if_http (non_empty app.repo_url)

abbrev pub is_dockerfile : Option Text → Bool
is_dockerfile none = true
is_dockerfile (some framework) = eq_text framework (codes "dockerfile")

module _ (decrypt : Text → Option Text) where
  -- `cloneToken`
  unfoldable pub clone_token_of : Option GitRepository → Option Text
  clone_token_of none = none
  clone_token_of (some repo) = elim (non_empty repo.install_token) [
    | none ↦ none
    | some ciphertext ↦ decrypt ciphertext
  ]

  unfoldable pub resolve_source : SourceColumns → Option GitRepository → Text → DeploySource
  unfolding source_url clone_token_of is_http
  resolve_source app repo ref = elim (source_url app repo) [
    | some url ↦
        if is_dockerfile app.framework
        then git url ref (codes ".") (codes "Dockerfile") (clone_token_of repo)
        else buildpack url ref (or_else app.framework []) app.install_command app.build_command
            app.start_command (clone_token_of repo)
    | none ↦ image (or_else (unless_http (non_empty app.repo_url)) demo_fallback_image)
  ]
