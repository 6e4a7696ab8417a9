-- ===== src/Secrets/Precedence.antt =====
-- Which secret gives a variable its value.
use your_stack.Common.{
  ℕ, ◌≡◌, ◌≤◌, ◌<◌, refl, ◌∙◌, ap, Bool, Option, none, some, List, [], ◌∷◌, ◌==◌, ◌&&◌, ltb, filter,
  All, arith, Bool-cases, if◌then◌else◌, inl, inr,
}
use your_stack.Common.Text.{Text, eq_text, eq_text_iff}
use your_stack.Secrets.Env.{
  SecretScope, SecretRow, project, app, environment, Env, lookup, assign, rank, of_project, of_app,
  of_environment, applies, insert_secret, sort_secrets, put, assign_secrets, resolve_env,
}

abbrev pub prefer : Option Text → Option Text → Option Text
prefer (some v) o = some v
prefer none o = o

pub lookup-assign :
    (key name value : Text) (env : Env)
    → lookup key (assign name value env) ≡ (if eq_text name key then some value else lookup key env)
unfolding lookup assign
lookup-assign key name value [] = refl
lookup-assign key name value ((n, old) ∷ env) = ground (
  arith,
  lookup-assign key name value env,
  eq_text_iff n name,
  eq_text_iff n key,
  eq_text_iff name key,
)

-- The rows of one rank.
abbrev ranked : ℕ → List SecretRow → List SecretRow
ranked r = filter (λ s. rank s.scope == r)

ranked-insert_secret :
    (r : ℕ) (s : SecretRow) (ss : List SecretRow)
    → ranked r (insert_secret s ss) ≡ ranked r (s ∷ ss)
unfolding insert_secret
ranked-insert_secret r s [] = refl
ranked-insert_secret r s (t ∷ ts) = ground (arith, ranked-insert_secret r s ts)

ranked-sort_secrets : (r : ℕ) (ss : List SecretRow) → ranked r (sort_secrets ss) ≡ ranked r ss
unfolding sort_secrets
ranked-sort_secrets r [] = refl
ranked-sort_secrets r (s ∷ ss) =
    ranked-insert_secret r s (sort_secrets ss) ∙ ground (arith, ranked-sort_secrets r ss)

abbrev FromRank : ℕ → List SecretRow → Type 0
FromRank r = All (λ s. r ≤ rank s.scope)

abbrev IsSorted : List SecretRow → Type 0
IsSorted [] = Unit
IsSorted (s ∷ ss) = FromRank (rank s.scope) ss × IsSorted ss

FromRank-insert_secret :
    (r : ℕ) (s : SecretRow) (ss : List SecretRow)
    → r ≤ rank s.scope
    → FromRank r ss
    → FromRank r (insert_secret s ss)
unfolding insert_secret
FromRank-insert_secret r s [] h k = (h, tt)
FromRank-insert_secret r s (t ∷ ts) h k = elim (Bool-cases (ltb (rank t.scope) (rank s.scope))) [
  | inl e ↦ rw e (k.0, FromRank-insert_secret r s ts h k.1)
  | inr e ↦ rw e (h, k)
]

FromRank-le : (r q : ℕ) (ss : List SecretRow) → r ≤ q → FromRank q ss → FromRank r ss
FromRank-le r q [] h k = tt
FromRank-le r q (s ∷ ss) h k = (omega (arith, h, k.0), FromRank-le r q ss h k.1)

insert_secret-IsSorted :
    (s : SecretRow) (ss : List SecretRow) → IsSorted ss → IsSorted (insert_secret s ss)
unfolding insert_secret
insert_secret-IsSorted s [] h = (tt, tt)
insert_secret-IsSorted s (t ∷ ts) h = elim (Bool-cases (ltb (rank t.scope) (rank s.scope))) [
  | inl e ↦
      let t_first : rank t.scope ≤ rank s.scope = ground (arith, e) in
      rw e (FromRank-insert_secret (rank t.scope) s ts t_first h.0, insert_secret-IsSorted s ts h.1)
  | inr e ↦
      let s_first : rank s.scope ≤ rank t.scope = ground (arith, e) in
      rw e ((s_first, FromRank-le (rank s.scope) (rank t.scope) ts s_first h.0), h)
]

sort_secrets-IsSorted : (ss : List SecretRow) → IsSorted (sort_secrets ss)
unfolding sort_secrets
sort_secrets-IsSorted [] = tt
sort_secrets-IsSorted (s ∷ ss) =
    insert_secret-IsSorted s (sort_secrets ss) (sort_secrets-IsSorted ss)

ranked-FromRank : (r q : ℕ) (ss : List SecretRow) → r < q → FromRank q ss → ranked r ss ≡ []
ranked-FromRank r q [] h k = refl
ranked-FromRank r q (s ∷ ss) h k = ground (arith, h, k.0, ranked-FromRank r q ss h k.1)

module _ (decrypt : Text → Option Text) where
  -- The value of the last of the rows that has the name and can be decrypted.
  unfoldable pub latest : Text → List SecretRow → Option Text
  latest key [] = none
  latest key (s ∷ ss) =
      prefer (latest key ss) (if eq_text s.key key then decrypt s.ciphertext else none)

  prefer-put :
      (key name : Text) (o value : Option Text) (env : Env)
      → prefer o (lookup key (put name value env))
        ≡ prefer (prefer o (if eq_text name key then value else none)) (lookup key env)
  unfolding put
  prefer-put key name (some v) value env = refl
  prefer-put key name none none env = ground arith
  prefer-put key name none (some value) env = ground (arith, lookup-assign key name value env)

  lookup-assign_secrets :
      (key : Text) (ss : List SecretRow) (env : Env)
      → lookup key (assign_secrets decrypt ss env) ≡ prefer (latest key ss) (lookup key env)
  unfolding assign_secrets latest
  lookup-assign_secrets key [] env = refl
  lookup-assign_secrets key (s ∷ ss) env =
      lookup-assign_secrets key ss (put s.key (decrypt s.ciphertext) env)
      ∙ prefer-put key s.key (latest key ss) (decrypt s.ciphertext) env

  by_rank : Text → List SecretRow → Option Text
  by_rank key ss =
      prefer (latest key (ranked 2 ss))
        (prefer (latest key (ranked 1 ss)) (latest key (ranked 0 ss)))

  none_of_rank :
      (key : Text) (r q : ℕ) (ss : List SecretRow)
      → r < q
      → FromRank q ss
      → latest key (ranked r ss) ≡ none
  unfolding latest
  none_of_rank key r q ss h k = rw (ranked-FromRank r q ss h k) refl

  prefer_assoc : (a b c : Option Text) → prefer (prefer a b) c ≡ prefer a (prefer b c)
  prefer_assoc none b c = refl
  prefer_assoc (some v) b c = refl

  prefer-none : (a : Option Text) → prefer a none ≡ a
  prefer-none none = refl
  prefer-none (some v) = refl

  -- A row before rows of no lower rank.
  by_rank-first :
      (key : Text) (scope : SecretScope) (s : SecretRow) (ss : List SecretRow)
      → s.scope ≡ scope
      → FromRank (rank s.scope) ss
      → by_rank key (s ∷ ss)
        ≡ prefer (by_rank key ss) (if eq_text s.key key then decrypt s.ciphertext else none)
  unfolding by_rank latest
  by_rank-first key scope s ss e h =
      let value = if eq_text s.key key then decrypt s.ciphertext else none in
      let a = latest key (ranked 2 ss) in
      let b = latest key (ranked 1 ss) in
      let c = latest key (ranked 0 ss) in
      elim scope
          as (λ x. s.scope ≡ x → by_rank key (s ∷ ss) ≡ prefer (prefer a (prefer b c)) value) [
            | project ↦ λ e.
                let r : rank s.scope ≡ 0 = ap rank e in
                rw (r, prefer_assoc a (prefer b c) value, prefer_assoc b c value) refl
            | app ↦ λ e.
                let r : rank s.scope ≡ 1 = ap rank e in
                rw
                  (
                    r,
                    none_of_rank key 0 (rank s.scope) ss (omega (arith, r)) h,
                    prefer-none (prefer b value),
                    prefer-none b,
                    prefer_assoc a b value,
                  )
                  refl
            | environment ↦ λ e.
                let r : rank s.scope ≡ 2 = ap rank e in
                rw
                  (
                    r,
                    none_of_rank key 0 (rank s.scope) ss (omega (arith, r)) h,
                    none_of_rank key 1 (rank s.scope) ss (omega (arith, r)) h,
                    prefer-none (prefer a value),
                    prefer-none a,
                  )
                  refl
          ]
        e

  latest-IsSorted :
      (key : Text) (ss : List SecretRow) → IsSorted ss → latest key ss ≡ by_rank key ss
  unfolding by_rank latest
  latest-IsSorted key [] h = refl
  latest-IsSorted key (s ∷ ss) h =
      rw (by_rank-first key s.scope s ss refl h.0, latest-IsSorted key ss h.1) refl

filter-filter {ℓ} :
    {A : Type ℓ} (p q r : A → Bool) (xs : List A)
    → ((x : A) → (q x && p x) ≡ r x)
    → filter p (filter q xs) ≡ filter r xs
filter-filter p q r [] h = refl
filter-filter p q r (x ∷ xs) h = ground (arith, h x, filter-filter p q r xs h)

ranked-applies :
    (app_id project_id : ℕ) (environment_id : Option ℕ) (scope : SecretScope) (s : SecretRow)
    → s.scope ≡ scope
    → ((applies app_id project_id environment_id s && rank s.scope == 0) ≡ of_project project_id s)
      × ((applies app_id project_id environment_id s && rank s.scope == 1) ≡ of_app app_id s)
      × ((applies app_id project_id environment_id s && rank s.scope == 2)
          ≡ of_environment environment_id s)
ranked-applies a p e project s h = rw h (ground arith, ground arith, ground arith)
ranked-applies a p e app s h = rw h (ground arith, ground arith, ground arith)
ranked-applies a p e environment s h = rw h (ground arith, ground arith, ground arith)

-- A variable has the value of the environment's own secret of that name; without one that can be
-- decrypted, that of the app's secret, and else that of the project's. Where a scope has several rows of
-- the name the last that can be decrypted counts, and a variable without any is not set.
pub lookup-resolve_env :
    (decrypt : Text → Option Text) (key : Text) (secrets : List SecretRow) (app_id project_id : ℕ)
    (environment_id : Option ℕ)
    → lookup key (resolve_env decrypt secrets app_id project_id environment_id)
      ≡ prefer (latest decrypt key (filter (of_environment environment_id) secrets)) (
          prefer
            (latest decrypt key (filter (of_app app_id) secrets))
            (latest decrypt key (filter (of_project project_id) secrets)))
unfolding resolve_env lookup by_rank
lookup-resolve_env decrypt key secrets a p e =
    let rows = filter (applies a p e) secrets in
    lookup-assign_secrets decrypt key (sort_secrets rows) []
    ∙ prefer-none decrypt (latest decrypt key (sort_secrets rows))
    ∙ latest-IsSorted decrypt key (sort_secrets rows) (sort_secrets-IsSorted rows)
    ∙ rw
        (
          ranked-sort_secrets 0 rows,
          ranked-sort_secrets 1 rows,
          ranked-sort_secrets 2 rows,
          filter-filter (λ s. rank s.scope == 0) (applies a p e) (of_project p) secrets
              (λ s. (ranked-applies a p e s.scope s refl).0),
          filter-filter (λ s. rank s.scope == 1) (applies a p e) (of_app a) secrets
              (λ s. (ranked-applies a p e s.scope s refl).1),
          filter-filter (λ s. rank s.scope == 2) (applies a p e) (of_environment e) secrets
              (λ s. (ranked-applies a p e s.scope s refl).2),
        )
        refl
