-- ===== src/Domains/Requests.antt =====
-- The tables of custom domains, and the handlers of apps/api/src/routes/domains.ts that create, verify
-- and delete one. The verification token, which nothing reads, is left out.
use your_stack.Common.{
  ℕ, suc, Bool, true, not, ◌&&◌, Option, none, some, List, ◌∷◌, ◌++◌, ◌==◌, find, any, filter,
  Result, ok, AppError, ◌>>=◌, ◌>>◌, throw_if, or_else,
}
use your_stack.Common.Text.{Text, codes, eq_text}
use your_stack.Rbac.{Permission}
use your_stack.Tenancy.Db.{Db, User}
use your_stack.Tenancy.{require_permission, or_throw}

pub data DomainStatus : Type 0 where
  pending verifying verified active failed : DomainStatus

pub record Domain : Type 0 where
  pub id : ℕ
  pub app_id : ℕ
  pub hostname : Text
  pub status : DomainStatus
  pub dns_target : Text
  pub auto_https : Bool
  pub last_checked_at : Option ℕ
  pub verified_at : Option ℕ

-- A node with its address.
pub record HostNode : Type 0 where
  pub id : ℕ
  pub public_ip : Option Text

-- An app with the workspace of its project and its node.
pub record HostedApp : Type 0 where
  pub id : ℕ
  pub workspace_id : ℕ
  pub node : Option HostNode
  pub port : ℕ
  pub deleted : Bool

pub record DomainJob : Type 0 where
  pub domain_id : ℕ
  pub attempt : ℕ

pub record DomainCommand : Type 0 where
  pub node_id : ℕ
  pub app_id : ℕ
  pub domain : Text
  pub auto_https : Bool
  pub target_port : ℕ

pub record DomainStore : Type 0 where
  pub domains : List Domain
  pub apps : List HostedApp
  pub jobs : List DomainJob
  pub commands : List DomainCommand
  pub next_id : ℕ

-- `appWorkspace`
unfoldable pub app_workspace : ℕ → DomainStore → Result HostedApp
app_workspace id s =
    or_throw (find (λ a. a.id == id && not a.deleted) s.apps) (AppError.not_found "App not found")

abbrev pub node_ip : HostedApp → Option Text
node_ip a = elim a.node [ none ↦ none | some n ↦ n.public_ip ]

-- POST /apps/:id/domains. `id_text` prints an id, `preview_domain` is of the configuration.
unfoldable pub create_domain :
    (ℕ → Text) → Text → Db → Option User → ℕ → Text → DomainStore → Result DomainStore
unfolding app_workspace
create_domain id_text preview_domain db req_user id hostname s = do
  app ← app_workspace id s
  _ ← require_permission db req_user app.workspace_id Permission.domain_write
  throw_if (any (λ d. eq_text d.hostname hostname) s.domains)
      (AppError.conflict "That hostname is already registered")
  ok (record s {
    domains =
        record {
          id = s.next_id;
          app_id = id;
          hostname = hostname;
          status = pending;
          dns_target = or_else (node_ip app) (id_text app.id ++ (codes "." ++ preview_domain));
          auto_https = true;
          last_checked_at = none;
          verified_at = none;
        }
        ∷ s.domains;
    jobs = record { domain_id = s.next_id; attempt = 0 } ∷ s.jobs;
    next_id = suc s.next_id;
  })

-- The app of a domain, deleted or not.
unfoldable pub domain_with_app : ℕ → DomainStore → Result HostedApp
domain_with_app id s = do
  domain ← or_throw (find (λ d. d.id == id) s.domains) (AppError.not_found "Domain not found")
  or_throw (find (λ a. a.id == domain.app_id) s.apps) (AppError.not_found "Domain not found")

-- POST /domains/:id/verify
unfoldable pub verify_domain : Db → Option User → ℕ → DomainStore → Result DomainStore
unfolding domain_with_app
verify_domain db req_user id s = do
  app ← domain_with_app id s
  _ ← require_permission db req_user app.workspace_id Permission.domain_write
  ok (record s { jobs = record { domain_id = id; attempt = 0 } ∷ s.jobs })

-- DELETE /domains/:id
unfoldable pub delete_domain : Db → Option User → ℕ → DomainStore → Result DomainStore
unfolding domain_with_app
delete_domain db req_user id s = do
  app ← domain_with_app id s
  _ ← require_permission db req_user app.workspace_id Permission.domain_delete
  ok (record s { domains = filter (λ d. not (d.id == id)) s.domains })
