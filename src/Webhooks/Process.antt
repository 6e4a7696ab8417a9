-- ===== src/Webhooks/Process.antt =====
-- apps/worker/src/processors/webhook.ts over the tables of the deployments. The text of a preview
-- domain, made of the ids and the configuration, is a parameter; a token is left out. No deployment is
-- taken to throw.
use your_stack.Common.{
  ℕ, Bool, true, false, Option, none, some, List, [], ◌∷◌, ◌==◌, ◌&&◌, ◌||◌, not, find, filter, any,
  update, or_else, if◌then◌else◌, String,
}
use your_stack.Common.Text.{Text, codes, eq_text, has_prefix}
use your_stack.Deploy.{App, Store, TriggerInput, create_deployment}

pub record GitWebhook : Type 0 where
  pub id : ℕ
  pub repository_id : ℕ
  pub event : Text
  pub action : Option Text
  pub ref : Option Text
  pub commit_sha : Option String
  pub pr_number : Option ℕ
  pub pr_ref : Option String
  pub pr_sha : Option String
  pub processed : Bool

-- `gitRepositoryId` of an app.
pub record GitLink : Type 0 where
  pub app_id : ℕ
  pub repository_id : ℕ

pub record PreviewDomain : Type 0 where
  pub app_id : ℕ
  pub hostname : Text

pub record WebhookStore : Type 0 where
  pub tables : Store
  pub webhooks : List GitWebhook
  pub links : List GitLink
  pub domains : List PreviewDomain

unfoldable pub skip : Text → Text → Text
skip [] s = s
skip (c ∷ p) [] = []
skip (c ∷ p) (d ∷ s) = skip p s

-- `s.replace(p, '')`
unfoldable pub drop_first : Text → Text → Text
unfolding has_prefix skip
drop_first p [] = []
drop_first p (c ∷ s) =
    let rest = drop_first p s in if has_prefix p (c ∷ s) then skip p (c ∷ s) else c ∷ rest

unfoldable pub branch_of : GitWebhook → Text
unfolding drop_first
branch_of w = drop_first (codes "refs/heads/") (or_else w.ref [])

-- `where: { gitRepositoryId, branch, deletedAt: null }`
unfoldable pub is_pushed : List GitLink → ℕ → Text → App → Bool
is_pushed links repository_id branch a =
    any (λ l. l.app_id == a.id && l.repository_id == repository_id) links
    && eq_text (codes a.branch) branch
    && not a.deleted

-- `where: { gitRepositoryId, deletedAt: null }`
unfoldable pub is_previewed : List GitLink → ℕ → App → Bool
is_previewed links repository_id a =
    any (λ l. l.app_id == a.id && l.repository_id == repository_id) links && not a.deleted

-- The branch that was pushed is the branch of the app.
abbrev pub push_input : GitWebhook → App → TriggerInput
push_input w a = record {
  app_id = a.id;
  triggered_by = "webhook";
  ref = some a.branch;
  commit_sha = w.commit_sha;
}

abbrev pub preview_input : GitWebhook → App → TriggerInput
preview_input w a = record {
  app_id = a.id;
  triggered_by = "webhook";
  ref = some (or_else w.pr_ref a.branch);
  commit_sha = w.pr_sha;
}

-- `createDeployment`, whose result is only logged.
unfoldable pub deploy_one : (App → TriggerInput) → ℕ → Store → App → Store
unfolding create_deployment
deploy_one input day s a = elim (create_deployment s a (input a) day) [
  | none ↦ s
  | some made ↦ made.1
]

unfoldable pub deploy_each : (App → TriggerInput) → ℕ → List App → Store → Store
unfolding deploy_one
deploy_each input day [] s = s
deploy_each input day (a ∷ apps) s = deploy_each input day apps (deploy_one input day s a)

abbrev pub is_preview_action : Option Text → Bool
is_preview_action none = false
is_preview_action (some action) =
    eq_text action (codes "opened")
    || eq_text action (codes "synchronize")
    || eq_text action (codes "reopened")

module _ (host_of : ℕ → ℕ → Text) where
  -- `domain.upsert`
  unfoldable pub add_domain : ℕ → App → List PreviewDomain → List PreviewDomain
  add_domain number a domains =
      if any (λ d. eq_text d.hostname (host_of a.id number)) domains
      then domains
      else record { app_id = a.id; hostname = host_of a.id number } ∷ domains

  unfoldable pub add_domains : ℕ → List App → List PreviewDomain → List PreviewDomain
  unfolding add_domain
  add_domains number [] domains = domains
  add_domains number (a ∷ apps) domains = add_domains number apps (add_domain number a domains)

  -- The `try` block. The domains and the deployments of a pull request depend on each other in nothing,
  -- so the one loop is written as two.
  unfoldable pub handle : GitWebhook → ℕ → WebhookStore → WebhookStore
  unfolding is_pushed is_previewed branch_of deploy_each add_domains
  handle w day s =
      let pushed = filter (is_pushed s.links w.repository_id (branch_of w)) s.tables.apps in
      let previewed = filter (is_previewed s.links w.repository_id) s.tables.apps in
      if eq_text w.event (codes "push")
      then record s { tables = deploy_each (push_input w) day pushed s.tables }
      else if eq_text w.event (codes "pull_request") && is_preview_action w.action
      then record s {
        tables = deploy_each (preview_input w) day previewed s.tables;
        domains = add_domains (or_else w.pr_number 0) previewed s.domains;
      }
      else s

  abbrev pub mark_processed : ℕ → WebhookStore → WebhookStore
  mark_processed id s = record s {
    webhooks = update (λ w. w.id == id) (λ w. record w { processed = true }) s.webhooks;
  }

  -- `processWebhook`
  unfoldable pub process_webhook : ℕ → ℕ → WebhookStore → WebhookStore
  unfolding handle
  process_webhook id day s = elim (find (λ w. w.id == id) s.webhooks) [
    | none ↦ s
    | some w ↦ if w.processed then s else mark_processed id (handle w day s)
  ]
