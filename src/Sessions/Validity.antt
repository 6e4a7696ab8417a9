-- ===== src/Sessions/Validity.antt =====
-- How long a session and an API token of apps/api/src/lib/auth.ts are good for, and in which workspaces.
use your_stack.Common.{
  ℕ, zero, suc, ◌*◌, ◌+◌, ◌≡◌, refl, subst, Bool, true, false, err, AppError, not, Option, none,
  some, List, [], ◌∷◌, ◌==◌, ltb, find, filter, update, All, if◌then◌else◌, Bool-cases, inl, inr,
  arith, ok, ==_self,
}
use your_stack.Common.Text.{Text, codes, eq_text_self, has_prefix}
use your_stack.Rbac.{Permission}
use your_stack.Tenancy.Db.{Db, User}
use your_stack.Tenancy.{require_permission}
use your_stack.Sessions.Tokens.{
  Session, ApiToken, AuthStore, user_of, api_token_of, create_session, is_session,
  resolve_session_user, destroy_session, is_api_token, token_user, resolve_api_token_user,
  revoke_api_token, create_api_token, on_request, is_expired, expiry,
}

-- Whether the days that a token was given have passed; none and no days at all are for ever.
abbrev pub lapsed : ℕ → Option ℕ → ℕ → Bool
lapsed now none later = false
lapsed now (some zero) later = false
lapsed now (some (suc days)) later = ltb (now + suc days * 86_400_000) later

module _ (hash_token : Text → Text) where
  -- The token of a new session stands for its user until thirty days have passed, and for nobody after.
  pub resolve_session_user-create_session :
      (now later : ℕ) (user : User) (raw : Text) (s : AuthStore)
      → user_of user.id s ≡ some user
      → resolve_session_user hash_token later
          (some (api_token_of raw))
          (create_session hash_token now user.id raw s)
        ≡ (if ltb (now + 2_592_000_000) later then none else some user)
  unfolding resolve_session_user create_session
  resolve_session_user-create_session now later user raw s e =
      rw (eq_text_self (hash_token (api_token_of raw)), e) refl

  none-is_session :
      (token : Text) (xs : List Session)
      → find (is_session hash_token token) (filter (λ x. not (is_session hash_token token x)) xs)
        ≡ none
  none-is_session token [] = refl
  none-is_session token (x ∷ xs) = elim (Bool-cases (is_session hash_token token x)) [
    | inl t ↦ rw t (none-is_session token xs)
    | inr t ↦ rw (t, t) (none-is_session token xs)
  ]

  -- A session that was destroyed stands for nobody, at any time.
  pub resolve_session_user-destroy_session :
      (later : ℕ) (token : Option Text) (s : AuthStore)
      → resolve_session_user hash_token later token (destroy_session hash_token token s) ≡ none
  unfolding resolve_session_user destroy_session
  resolve_session_user-destroy_session later none s = refl
  resolve_session_user-destroy_session later (some []) s = refl
  resolve_session_user-destroy_session later (some (c ∷ t)) s =
      rw (none-is_session (c ∷ t) s.sessions) refl

  abbrev revoked : ℕ → ℕ → List ApiToken → List ApiToken
  revoked now id xs = update (λ x. x.id == id) (λ x. record x { revoked_at = some now }) xs

  -- Where only the row of the id has the digest, what is found by it is revoked.
  found_revoked :
      (now id later : ℕ) (token : Text) (s : AuthStore) (xs : List ApiToken)
      → All (λ x. is_api_token hash_token token x ≡ true → x.id ≡ id) xs
      → (token_user hash_token later token
          (find (is_api_token hash_token token) (revoked now id xs))
          s).user
        ≡ none
  found_revoked now id later token s [] h = refl
  found_revoked now id later token s (x ∷ xs) h =
      elim (Bool-cases (is_api_token hash_token token x)) [
        | inl t ↦ rw (h.0 t, ==_self id, t) refl
        | inr t ↦ elim (Bool-cases (x.id == id)) [
          | inl u ↦ rw (u, t) (found_revoked now id later token s xs h.1)
          | inr u ↦ rw (u, t) (found_revoked now id later token s xs h.1)
        ]
      ]

  revoke_api_token-tokens :
      (db : Db) (req_user : Option User) (now wid id : ℕ) (s s' : AuthStore)
      → revoke_api_token hash_token db req_user now wid id s ≡ ok s'
      → revoked now id s.api_tokens ≡ s'.api_tokens
  unfolding revoke_api_token
  revoke_api_token-tokens db req_user now wid id s s' e = ground (arith, e)

  -- After an API token was revoked by a request, it stands for nobody, at any time, if no other row has
  -- its digest.
  pub resolve_api_token_user-revoke_api_token :
      (db : Db) (req_user : Option User) (now wid id later : ℕ) (token : Text) (s s' : AuthStore)
      → All (λ x. is_api_token hash_token token x ≡ true → x.id ≡ id) s.api_tokens
      → revoke_api_token hash_token db req_user now wid id s ≡ ok s'
      → (resolve_api_token_user hash_token later token s').user ≡ none
  unfolding resolve_api_token_user
  resolve_api_token_user-revoke_api_token db req_user now wid id later token s s' h e =
      elim (Bool-cases (has_prefix (codes "ys_") token)) [
        | inl t ↦ rw t (
            subst
              (λ xs.
                (token_user hash_token later token (find (is_api_token hash_token token) xs)
                  s').user
                ≡ none)
              (revoke_api_token-tokens db req_user now wid id s s' e)
              (found_revoked now id later token s' s.api_tokens h))
        | inr t ↦ rw t refl
      ]

  is_expired-expiry :
      (now later : ℕ) (days : Option ℕ)
      → is_expired later (expiry hash_token now days) ≡ lapsed now days later
  is_expired-expiry now later none = refl
  is_expired-expiry now later (some zero) = refl
  is_expired-expiry now later (some (suc days)) = ground arith

  abbrev with_token : User → ℕ → ℕ → Option ℕ → Text → AuthStore → AuthStore
  with_token user now wid days raw s = record s {
    api_tokens =
        record {
          id = s.next_id;
          user_id = user.id;
          workspace_id = some wid;
          token_hash = hash_token (api_token_of raw);
          last_used_at = none;
          expires_at = expiry hash_token now days;
          revoked_at = none;
        }
        ∷ s.api_tokens;
    next_id = suc s.next_id;
  }

  created_token :
      (db : Db) (user : User) (now wid : ℕ) (days : Option ℕ) (raw : Text) (s s' : AuthStore)
      → create_api_token hash_token db (some user) now wid days raw s ≡ ok s'
      → with_token user now wid days raw s ≡ s'
  unfolding create_api_token
  created_token db user now wid days raw s s' e = ground (arith, e)

  new_token_user :
      (user : User) (now wid : ℕ) (days : Option ℕ) (raw : Text) (s : AuthStore) (later : ℕ)
      → user_of user.id s ≡ some user
      → (on_request hash_token later none
          (some (api_token_of raw))
          (with_token user now wid days raw s)).user
        ≡ (if lapsed now days later then none else some user)
  unfolding on_request resolve_session_user resolve_api_token_user has_prefix
  new_token_user user now wid days raw s later known =
      let self = eq_text_self (hash_token (api_token_of raw)) in
      elim (Bool-cases (lapsed now days later)) [
        | inl t ↦ rw (self, is_expired-expiry now later days, t) refl
        | inr t ↦ rw (self, is_expired-expiry now later days, t, self, known) refl
      ]

  permission_of :
      (db : Db) (user : User) (gone : Bool) (w : ℕ) (p : Permission) {o : Option User}
      → o ≡ (if gone then none else some user)
      → require_permission db o w p ≡ (
          if gone
          then err (AppError.unauthorized "Authentication required")
          else require_permission db (some user) w p)
  unfolding require_permission
  permission_of db user true w p e = rw e refl
  permission_of db user false w p e = rw e refl

  -- A request with the token of a new API token and without a cookie is from the user who created it until
  -- the days it was given have passed, and from nobody after; without days, or with none, it is from the
  -- user for ever. Its permissions are then the user's own in every workspace, also in another one than
  -- the token was created in.
  pub on_request-create_api_token :
      (db : Db) (user : User) (now wid : ℕ) (days : Option ℕ) (raw : Text) (s s' : AuthStore)
      (later w : ℕ) (p : Permission)
      → user_of user.id s ≡ some user
      → create_api_token hash_token db (some user) now wid days raw s ≡ ok s'
      → ((on_request hash_token later none (some (api_token_of raw)) s').user
          ≡ (if lapsed now days later then none else some user))
        × (require_permission db
              (on_request hash_token later none (some (api_token_of raw)) s').user
              w
              p
            ≡ (if lapsed now days later
                then err (AppError.unauthorized "Authentication required")
                else require_permission db (some user) w p))
  on_request-create_api_token db user now wid days raw s s' later w p known e =
      let from =
        subst
          (λ q.
            (on_request hash_token later none (some (api_token_of raw)) q).user
            ≡ (if lapsed now days later then none else some user))
          (created_token db user now wid days raw s s' e)
          (new_token_user user now wid days raw s later known) in
      (from, permission_of db user (lapsed now days later) w p from)
