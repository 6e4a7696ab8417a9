-- ===== src/Rbac/Roles.antt =====
-- Workspace roles and their ranks.
use your_stack.Common.{ℕ, Bool, leb}

pub data WorkspaceRole : Type 0 where
  owner admin developer viewer : WorkspaceRole

abbrev pub role_rank : WorkspaceRole → ℕ
role_rank owner = 3
role_rank admin = 2
role_rank developer = 1
role_rank viewer = 0

unfoldable pub role_at_least : WorkspaceRole → WorkspaceRole → Bool
role_at_least role min = leb (role_rank min) (role_rank role)
