-- ===== src/Rbac/Permissions.antt =====
-- The permission catalog and the sets of permissions that the roles have. A permission is the string
-- that the source gives it, and sets of permissions compare those strings.
use Prim.Native.String.{String}
use text.Mathlib.Text.{◌==◌ as str_eq}
use your_stack.Common.{Bool, List, [], ◌∷◌, ◌++◌, any, true, false}
use your_stack.Rbac.Roles.{WorkspaceRole, owner, admin, developer, viewer}

pub data Permission : Type 0 where
  workspace_view workspace_update workspace_delete workspace_billing member_view member_invite
        member_update_role member_remove project_view project_create project_update project_delete
        app_view app_create app_update app_delete app_deploy app_rollback app_control node_view
        node_join node_update node_drain node_remove secret_view secret_write secret_delete
        domain_view domain_write domain_delete log_view repo_connect repo_view pipeline_view
        pipeline_trigger token_view token_create token_revoke audit_view data_view data_write
        data_delete storage_view storage_write storage_delete function_view function_write
        function_delete function_invoke runner_view runner_write scaling_view scaling_write
        metrics_view region_view template_view template_deploy cron_view cron_write
        github_app_manage firewall_view firewall_write lb_view lb_write node_admin blueprint_apply :
      Permission

abbrev pub text_of : Permission → String
text_of workspace_view = "workspace:view"
text_of workspace_update = "workspace:update"
text_of workspace_delete = "workspace:delete"
text_of workspace_billing = "workspace:billing"
text_of member_view = "member:view"
text_of member_invite = "member:invite"
text_of member_update_role = "member:update_role"
text_of member_remove = "member:remove"
text_of project_view = "project:view"
text_of project_create = "project:create"
text_of project_update = "project:update"
text_of project_delete = "project:delete"
text_of app_view = "app:view"
text_of app_create = "app:create"
text_of app_update = "app:update"
text_of app_delete = "app:delete"
text_of app_deploy = "app:deploy"
text_of app_rollback = "app:rollback"
text_of app_control = "app:control"
text_of node_view = "node:view"
text_of node_join = "node:join"
text_of node_update = "node:update"
text_of node_drain = "node:drain"
text_of node_remove = "node:remove"
text_of secret_view = "secret:view"
text_of secret_write = "secret:write"
text_of secret_delete = "secret:delete"
text_of domain_view = "domain:view"
text_of domain_write = "domain:write"
text_of domain_delete = "domain:delete"
text_of log_view = "log:view"
text_of repo_connect = "repo:connect"
text_of repo_view = "repo:view"
text_of pipeline_view = "pipeline:view"
text_of pipeline_trigger = "pipeline:trigger"
text_of token_view = "token:view"
text_of token_create = "token:create"
text_of token_revoke = "token:revoke"
text_of audit_view = "audit:view"
text_of data_view = "data:view"
text_of data_write = "data:write"
text_of data_delete = "data:delete"
text_of storage_view = "storage:view"
text_of storage_write = "storage:write"
text_of storage_delete = "storage:delete"
text_of function_view = "function:view"
text_of function_write = "function:write"
text_of function_delete = "function:delete"
text_of function_invoke = "function:invoke"
text_of runner_view = "runner:view"
text_of runner_write = "runner:write"
text_of scaling_view = "scaling:view"
text_of scaling_write = "scaling:write"
text_of metrics_view = "metrics:view"
text_of region_view = "region:view"
text_of template_view = "template:view"
text_of template_deploy = "template:deploy"
text_of cron_view = "cron:view"
text_of cron_write = "cron:write"
text_of github_app_manage = "github_app:manage"
text_of firewall_view = "firewall:view"
text_of firewall_write = "firewall:write"
text_of lb_view = "lb:view"
text_of lb_write = "lb:write"
text_of node_admin = "node:admin"
text_of blueprint_apply = "blueprint:apply"

-- `Object.values(Permission)`
unfoldable pub all_permissions : List Permission
all_permissions =
    workspace_view ∷ workspace_update ∷ workspace_delete ∷ workspace_billing ∷ member_view
    ∷ member_invite ∷ member_update_role ∷ member_remove ∷ project_view ∷ project_create
    ∷ project_update ∷ project_delete ∷ app_view ∷ app_create ∷ app_update ∷ app_delete ∷ app_deploy
    ∷ app_rollback ∷ app_control ∷ node_view ∷ node_join ∷ node_update ∷ node_drain ∷ node_remove
    ∷ secret_view ∷ secret_write ∷ secret_delete ∷ domain_view ∷ domain_write ∷ domain_delete
    ∷ log_view ∷ repo_connect ∷ repo_view ∷ pipeline_view ∷ pipeline_trigger ∷ token_view
    ∷ token_create ∷ token_revoke ∷ audit_view ∷ data_view ∷ data_write ∷ data_delete ∷ storage_view
    ∷ storage_write ∷ storage_delete ∷ function_view ∷ function_write ∷ function_delete
    ∷ function_invoke ∷ runner_view ∷ runner_write ∷ scaling_view ∷ scaling_write ∷ metrics_view
    ∷ region_view ∷ template_view ∷ template_deploy ∷ cron_view ∷ cron_write ∷ github_app_manage
    ∷ firewall_view ∷ firewall_write ∷ lb_view ∷ lb_write ∷ node_admin ∷ blueprint_apply ∷ []

unfoldable pub viewer_permissions : List Permission
viewer_permissions =
    workspace_view ∷ member_view ∷ project_view ∷ app_view ∷ node_view ∷ secret_view ∷ domain_view
    ∷ log_view ∷ repo_view ∷ pipeline_view ∷ data_view ∷ storage_view ∷ function_view ∷ runner_view
    ∷ scaling_view ∷ metrics_view ∷ region_view ∷ template_view ∷ cron_view ∷ firewall_view
    ∷ lb_view ∷ []

unfoldable pub developer_permissions : List Permission
developer_permissions =
    viewer_permissions
    ++ (project_create ∷ project_update ∷ app_create ∷ app_update ∷ app_deploy ∷ app_rollback
        ∷ app_control ∷ node_join ∷ node_update ∷ node_drain ∷ secret_write ∷ secret_delete
        ∷ domain_write ∷ domain_delete ∷ repo_connect ∷ pipeline_trigger ∷ token_view ∷ token_create
        ∷ data_write ∷ data_delete ∷ storage_write ∷ storage_delete ∷ function_write
        ∷ function_delete ∷ function_invoke ∷ runner_write ∷ scaling_write ∷ template_deploy
        ∷ cron_write ∷ github_app_manage ∷ firewall_write ∷ lb_write ∷ blueprint_apply ∷ [])

unfoldable pub admin_permissions : List Permission
admin_permissions =
    developer_permissions
    ++ (workspace_update ∷ member_invite ∷ member_update_role ∷ member_remove ∷ project_delete
        ∷ app_delete ∷ node_remove ∷ token_revoke ∷ audit_view ∷ node_admin ∷ [])

unfoldable pub owner_permissions : List Permission
owner_permissions = all_permissions

-- `Set.has`
unfoldable pub has : List Permission → Permission → Bool
has ps p = any (λ q. str_eq (text_of q) (text_of p)) ps

-- `new Set(ps)` in insertion order: `seen` is what the set holds already.
unfoldable pub set_from : List Permission → List Permission → List Permission
unfolding has
set_from seen [] = []
set_from seen (p ∷ ps) = elim (has seen p) [
  | true ↦ set_from seen ps
  | false ↦ p ∷ set_from (p ∷ seen) ps
]

unfoldable pub role_permissions : WorkspaceRole → List Permission
role_permissions owner = set_from [] owner_permissions
role_permissions admin = set_from [] admin_permissions
role_permissions developer = set_from [] developer_permissions
role_permissions viewer = set_from [] viewer_permissions

unfoldable pub role_has_permission : WorkspaceRole → Permission → Bool
role_has_permission role p = has (role_permissions role) p

unfoldable pub permissions_for_role : WorkspaceRole → List Permission
permissions_for_role role = role_permissions role
