-- ===== src/Secrets/Env.antt =====
-- apps/worker/src/lib/secrets.ts: the environment of an app from the rows of the secrets' table. An
-- environment lists its variables in the order in which they were first assigned; no name is an array
-- index. What the encryptor decrypts, or none where it throws, is a parameter.
use your_stack.Common.{
  map, ℕ, Bool, Option, none, some, List, [], ◌∷◌, ◌==◌, ◌&&◌, ◌||◌, ltb, filter, is_some, eq_opt,
  if◌then◌else◌,
}
use your_stack.Common.Text.{Text, eq_text}

pub data SecretScope : Type 0 where
  project : SecretScope
  app : SecretScope
  environment : SecretScope

pub record SecretRow : Type 0 where
  pub scope : SecretScope
  pub key : Text
  pub ciphertext : Text
  pub project_id : Option ℕ
  pub app_id : Option ℕ
  pub environment_id : Option ℕ

abbrev pub Env : Type 0
Env = List (Text × Text)

-- `env[key]`
unfoldable pub lookup : Text → Env → Option Text
lookup key [] = none
lookup key ((name, value) ∷ env) =
    let rest = lookup key env in if eq_text name key then some value else rest

-- `env[key] = value`
unfoldable pub assign : Text → Text → Env → Env
assign key value [] = (key, value) ∷ []
assign key value ((name, old) ∷ env) =
    let rest = assign key value env in
    if eq_text name key then (name, value) ∷ env else (name, old) ∷ rest

-- `order`
abbrev pub rank : SecretScope → ℕ
rank project = 0
rank app = 1
rank environment = 2

abbrev pub is_scope : SecretScope → SecretScope → Bool
is_scope a b = rank a == rank b

abbrev pub of_project : ℕ → SecretRow → Bool
of_project project_id s = is_scope s.scope project && eq_opt s.project_id (some project_id)

abbrev pub of_app : ℕ → SecretRow → Bool
of_app app_id s = is_scope s.scope app && eq_opt s.app_id (some app_id)

abbrev pub of_environment : Option ℕ → SecretRow → Bool
of_environment environment_id s =
    is_some environment_id
    && (is_scope s.scope environment && eq_opt s.environment_id environment_id)

abbrev pub applies : ℕ → ℕ → Option ℕ → SecretRow → Bool
applies app_id project_id environment_id s =
    of_project project_id s || of_app app_id s || of_environment environment_id s

-- `sort`, which is stable.
unfoldable pub insert_secret : SecretRow → List SecretRow → List SecretRow
insert_secret s [] = s ∷ []
insert_secret s (t ∷ ts) =
    let rest = insert_secret s ts in
    if ltb (rank t.scope) (rank s.scope) then t ∷ rest else s ∷ t ∷ ts

unfoldable pub sort_secrets : List SecretRow → List SecretRow
unfolding insert_secret
sort_secrets [] = []
sort_secrets (s ∷ ss) = insert_secret s (sort_secrets ss)

unfoldable pub put : Text → Option Text → Env → Env
unfolding assign
put key none env = env
put key (some value) env = assign key value env

module _ (decrypt : Text → Option Text) where
  unfoldable pub assign_secrets : List SecretRow → Env → Env
  unfolding put
  assign_secrets [] env = env
  assign_secrets (s ∷ ss) env = assign_secrets ss (put s.key (decrypt s.ciphertext) env)

  unfoldable pub resolve_env : List SecretRow → ℕ → ℕ → Option ℕ → Env
  unfolding assign_secrets sort_secrets
  resolve_env secrets app_id project_id environment_id =
      assign_secrets (sort_secrets (filter (applies app_id project_id environment_id) secrets)) []

  -- `collectSecretValues` of apps/api/src/services/secret.service.ts.
  unfoldable pub collect_secret_values : List SecretRow → ℕ → ℕ → List Text
  unfolding resolve_env
  collect_secret_values secrets app_id project_id =
      map (λ variable. variable.1) (resolve_env secrets app_id project_id none)
