-- ===== src/Sessions/Tokens.antt =====
-- apps/api/src/lib/auth.ts, the hook of plugins/auth.ts, and the handlers of routes/tokens.ts that create
-- and revoke. The digest of packages/security/src/tokens.ts is a parameter, random texts are arguments;
-- a token's name and last characters are left out.
use your_stack.Common.{
  ℕ, suc, ◌+◌, ◌*◌, Bool, false, not, ◌&&◌, Option, none, some, List, [], ◌∷◌, ◌++◌, ◌==◌, ltb,
  eq_opt, find, filter, update, is_some, if◌then◌else◌, Result, ok, AppError, ◌>>=◌,
}
use your_stack.Common.Text.{Text, codes, eq_text, has_prefix}
use your_stack.Rbac.{Permission}
use your_stack.Tenancy.Db.{Db, User}
use your_stack.Tenancy.{require_user, require_permission, or_throw}

pub record Session : Type 0 where
  pub id : ℕ
  pub user_id : ℕ
  pub token_hash : Text
  pub expires_at : ℕ

pub record ApiToken : Type 0 where
  pub id : ℕ
  pub user_id : ℕ
  pub workspace_id : Option ℕ
  pub token_hash : Text
  pub last_used_at : Option ℕ
  pub expires_at : Option ℕ
  pub revoked_at : Option ℕ

pub record AuthStore : Type 0 where
  pub users : List User
  pub sessions : List Session
  pub api_tokens : List ApiToken
  pub next_id : ℕ

pub record Resolved : Type 0 where
  pub store : AuthStore
  pub user : Option User

-- `SESSION_TTL_MS`
abbrev pub session_ttl_ms : ℕ
session_ttl_ms = 30 * 24 * 60 * 60 * 1000

-- The user of a row, by the relation.
abbrev pub user_of : ℕ → AuthStore → Option User
user_of id s = find (λ u. u.id == id) s.users

abbrev pub is_expired : ℕ → Option ℕ → Bool
is_expired now none = false
is_expired now (some at) = ltb at now

-- `generateApiToken`, of its random part.
abbrev pub api_token_of : Text → Text
api_token_of raw = codes "ys_" ++ raw

module _ (hash_token : Text → Text) where
  unfoldable pub create_session : ℕ → ℕ → Text → AuthStore → AuthStore
  create_session now user_id raw s = record s {
    sessions =
        record {
          id = s.next_id;
          user_id = user_id;
          token_hash = hash_token (api_token_of raw);
          expires_at = now + session_ttl_ms;
        }
        ∷ s.sessions;
    next_id = suc s.next_id;
  }

  abbrev pub is_session : Text → Session → Bool
  is_session token x = eq_text x.token_hash (hash_token token)

  abbrev pub session_user : ℕ → Option Session → AuthStore → Option User
  session_user now none s = none
  session_user now (some x) s = if ltb x.expires_at now then none else user_of x.user_id s

  -- An empty token is none.
  unfoldable pub resolve_session_user : ℕ → Option Text → AuthStore → Option User
  resolve_session_user now none s = none
  resolve_session_user now (some []) s = none
  resolve_session_user now (some (c ∷ t)) s =
      session_user now (find (is_session (c ∷ t)) s.sessions) s

  unfoldable pub destroy_session : Option Text → AuthStore → AuthStore
  destroy_session none s = s
  destroy_session (some []) s = s
  destroy_session (some (c ∷ t)) s = record s {
    sessions = filter (λ x. not (is_session (c ∷ t) x)) s.sessions;
  }

  abbrev pub is_api_token : Text → ApiToken → Bool
  is_api_token token x = eq_text x.token_hash (hash_token token)

  -- The checks of a row that was found by the digest, which `verifyToken` then compares once more.
  abbrev pub is_usable : ℕ → ApiToken → Bool
  is_usable now x = not (is_some x.revoked_at) && not (is_expired now x.expires_at)

  abbrev pub touch : ℕ → ApiToken → ApiToken
  touch now x = record x { last_used_at = some now }

  abbrev pub token_user : ℕ → Text → Option ApiToken → AuthStore → Resolved
  token_user now token none s = record { store = s; user = none }
  token_user now token (some x) s =
      if is_usable now x && is_api_token token x
      then record {
        store = record s { api_tokens = update (λ y. y.id == x.id) (touch now) s.api_tokens };
        user = user_of x.user_id s;
      }
      else record { store = s; user = none }

  unfoldable pub resolve_api_token_user : ℕ → Text → AuthStore → Resolved
  resolve_api_token_user now token s =
      if has_prefix (codes "ys_") token
      then token_user now token (find (is_api_token token) s.api_tokens) s
      else record { store = s; user = none }

  abbrev pub by_bearer : ℕ → Option Text → AuthStore → Resolved
  by_bearer now none s = record { store = s; user = none }
  by_bearer now (some token) s = resolve_api_token_user now token s

  abbrev pub or_bearer : Option User → ℕ → Option Text → AuthStore → Resolved
  or_bearer none now bearer s = by_bearer now bearer s
  or_bearer (some user) now bearer s = record { store = s; user = some user }

  -- The hook: the cookie, and else the token of the header.
  unfoldable pub on_request : ℕ → Option Text → Option Text → AuthStore → Resolved
  on_request now cookie bearer s = or_bearer (resolve_session_user now cookie s) now bearer s

  abbrev pub expiry : ℕ → Option ℕ → Option ℕ
  expiry now none = none
  expiry now (some days) = if days == 0 then none else some (now + days * 86400_000)

  -- POST /workspaces/:wid/tokens
  unfoldable pub create_api_token :
      Db → Option User → ℕ → ℕ → Option ℕ → Text → AuthStore → Result AuthStore
  create_api_token db req_user now wid expires_in_days raw s = do
    user ← require_user req_user
    _ ← require_permission db req_user wid Permission.token_create
    ok (record s {
      api_tokens =
          record {
            id = s.next_id;
            user_id = user.id;
            workspace_id = some wid;
            token_hash = hash_token (api_token_of raw);
            last_used_at = none;
            expires_at = expiry now expires_in_days;
            revoked_at = none;
          }
          ∷ s.api_tokens;
      next_id = suc s.next_id;
    })

  -- DELETE /workspaces/:wid/tokens/:id
  unfoldable pub revoke_api_token : Db → Option User → ℕ → ℕ → ℕ → AuthStore → Result AuthStore
  revoke_api_token db req_user now wid id s = do
    _ ← require_permission db req_user wid Permission.token_revoke
    _ ←
        or_throw (find (λ x. x.id == id && eq_opt x.workspace_id (some wid)) s.api_tokens)
          (AppError.not_found "Token not found")
    ok (record s {
      api_tokens = update (λ x. x.id == id) (λ x. record x { revoked_at = some now }) s.api_tokens;
    })
