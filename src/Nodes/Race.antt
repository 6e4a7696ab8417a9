-- ===== src/Nodes/Race.antt =====
-- What a join token is worth when the requests to POST /agent/register of
-- apps/api/src/routes/agent.ts interleave.
use your_stack.Common.{
  ℕ, ◌+◌, ◌≡◌, refl, sym, ap, subst, ◌∙◌, Bool, true, some, List, [], ◌∷◌, ◌++◌, ◌==◌, is_some,
  find, update, map, length, All, Bool-cases, inl, inr, arith, ok, err, AppError, ==_self,
}
use your_stack.Common.Text.{Text}
use your_stack.Nodes.Join.{
  JoinToken, JoinStore, is_token, use_token, check_join_token, commit_registration,
}
use your_stack.Nodes.Joining.{find-update_covering, check-found}
use your_stack.Nodes.Interleaving.{
  Attempt, Pending, Window, RegisterStep, check, commit, register_step, register_steps,
}

abbrev pub waiting : JoinToken → Attempt → Pending
waiting t a = record { attempt = a; token = t }

-- The requests check one after the other, then their transactions run.
abbrev pub together : List Attempt → List RegisterStep
together attempts = map check attempts ++ map (λ a. commit) attempts

abbrev pub opened : JoinStore → Window
opened s = record { store = s; pending = []; responses = []; errors = [] }

-- The first row of the token has been used.
abbrev IsUsed : (JoinToken → Bool) → List JoinToken → Type 0
IsUsed p ts = (u : JoinToken) × (find p ts ≡ some u) × (is_some u.used_at ≡ true)

update-IsUsed :
    (p : JoinToken → Bool) (id now node : ℕ) (ts : List JoinToken)
    → ((u : JoinToken) → p (use_token now node u) ≡ p u)
    → IsUsed p ts
    → IsUsed p (update (λ u. u.id == id) (use_token now node) ts)
update-IsUsed p id now node [] same (u, f, h) = absurd (cc f)
update-IsUsed p id now node (x ∷ ts) same (u, f, h) = elim (Bool-cases (x.id == id)) [
  | inl e ↦ elim (Bool-cases (p x)) [
    | inl t ↦ (use_token now node x, rw (e, same x, t) refl, refl)
    | inr t ↦
        let (v, g, k) = update-IsUsed p id now node ts same (u, ground (arith, f, t), h) in
        (v, rw (e, same x, t) g, k)
  ]
  | inr e ↦ elim (Bool-cases (p x)) [
    | inl t ↦ (u, rw (e, t) (ground (arith, f, t)), h)
    | inr t ↦
        let (v, g, k) = update-IsUsed p id now node ts same (u, ground (arith, f, t), h) in
        (v, rw (e, t) g, k)
  ]
]

module _ (hash_token : Text → Text) where
  register_steps-append :
      (xs ys : List RegisterStep) (w : Window)
      → register_steps hash_token (xs ++ ys) w
        ≡ register_steps hash_token ys (register_steps hash_token xs w)
  unfolding register_steps
  register_steps-append [] ys w = refl
  register_steps-append (x ∷ xs) ys w = register_steps-append xs ys (register_step hash_token x w)

  append_one :
      (xs : List Pending) (y : Pending) (ys : List Pending)
      → (xs ++ (y ∷ [])) ++ ys ≡ xs ++ (y ∷ ys)
  append_one [] y ys = refl
  append_one (x ∷ xs) y ys = ap (λ zs. x ∷ zs) (append_one xs y ys)

  append_none : (xs : List Pending) → xs ++ [] ≡ xs
  append_none [] = refl
  append_none (x ∷ xs) = ap (λ zs. x ∷ zs) (append_none xs)

  -- Checks that pass leave the tables, and all of the requests wait.
  checks-waiting :
      (t : JoinToken) (attempts : List Attempt) (w : Window)
      → All (λ a. check_join_token hash_token a.now a.join_token w.store ≡ ok t) attempts
      → register_steps hash_token (map check attempts) w
        ≡ record w { pending = w.pending ++ map (waiting t) attempts }
  unfolding register_steps register_step
  checks-waiting t [] w h = ap (λ ps. record w { pending = ps }) (sym (append_none w.pending))
  checks-waiting t (a ∷ attempts) w h =
      rw (register_steps, register_step, h.0)
        (checks-waiting t attempts (record w { pending = w.pending ++ (waiting t a ∷ []) }) h.1
          ∙ ap (λ ps. record w { pending = ps })
              (append_one w.pending (waiting t a) (map (waiting t) attempts)))

  abbrev Committed : Text → List Attempt → Window → Window → Type 0
  Committed join_token attempts w w' =
      (length w'.store.nodes ≡ length attempts + length w.store.nodes)
      × (length w'.responses ≡ length attempts + length w.responses)
      × (w'.errors ≡ w.errors)
      × IsUsed (is_token hash_token join_token) w'.store.join_tokens

  -- The transactions of all requests that wait go through, and the token stays used.
  commits-Committed :
      (join_token : Text) (t : JoinToken) (attempts : List Attempt) (w : Window)
      → w.pending ≡ map (waiting t) attempts
      → IsUsed (is_token hash_token join_token) w.store.join_tokens
      → Committed join_token attempts w (register_steps hash_token (map (λ a. commit) attempts) w)
  unfolding register_steps register_step commit_registration
  commits-Committed join_token t [] w e u = (omega arith, omega arith, refl, u)
  commits-Committed join_token t (a ∷ attempts) w e u =
      let r = commit_registration hash_token a.now a.name a.credentials t w.store in
      let next : Window = record w {
        store = r.store;
        pending = map (waiting t) attempts;
        responses = r.response ∷ w.responses;
      } in
      let used =
        update-IsUsed (is_token hash_token join_token) t.id a.now w.store.next_id
          w.store.join_tokens (λ v. refl) u in
      let (nodes, answers, errors, still) =
        commits-Committed join_token t attempts next refl used in
      rw (register_steps, register_step, e) (omega arith, omega arith, errors, still)

  abbrev Passes : Text → JoinToken → JoinStore → Attempt → Type 0
  Passes join_token t s a =
      (a.join_token ≡ join_token) × (check_join_token hash_token a.now a.join_token s ≡ ok t)

  passed :
      (join_token : Text) (t : JoinToken) (attempts : List Attempt) (s : JoinStore)
      → All (Passes join_token t s) attempts
      → All (λ a. check_join_token hash_token a.now a.join_token s ≡ ok t) attempts
  passed join_token t [] s h = tt
  passed join_token t (a ∷ attempts) s ((same, h), others) =
      (h, passed join_token t attempts s others)

  refused_later :
      (join_token : Text) (later : ℕ) (s : JoinStore)
      → IsUsed (is_token hash_token join_token) s.join_tokens
      → check_join_token hash_token later join_token s
        ≡ err (AppError.unauthorized "Join token already used")
  unfolding check_join_token
  refused_later join_token later s (u, f, h) = rw (check_join_token, f, h) refl

  commit_registration-IsUsed :
      (join_token : Text) (t : JoinToken) (a : Attempt) (s : JoinStore)
      → Passes join_token t s a
      → IsUsed
          (is_token hash_token join_token)
          (commit_registration hash_token a.now a.name a.credentials t s).store.join_tokens
  unfolding commit_registration
  commit_registration-IsUsed join_token t a s (same, h) = (
    use_token a.now s.next_id t,
    find-update_covering (is_token hash_token join_token) (λ u. u.id == t.id)
        (use_token a.now s.next_id) s.join_tokens t (λ u. refl)
        (subst (λ k. find (is_token hash_token k) s.join_tokens ≡ some t) same
          (check-found hash_token a.now a.join_token s t h).0)
        (==_self t.id),
    refl,
  )

  -- Requests with one join token that are all checked before the first transaction runs, each of which
  -- passes on its own, are all registered, however many they are: each adds a node and gets an answer, and
  -- none is refused. The token is refused from then on.
  pub register_steps-together :
      (join_token : Text) (t : JoinToken) (first : Attempt) (rest : List Attempt) (later : ℕ)
      (s : JoinStore)
      → All
          (λ a.
            (a.join_token ≡ join_token) × (check_join_token hash_token a.now a.join_token s ≡ ok t))
          (first ∷ rest)
      → (length (register_steps hash_token (together (first ∷ rest)) (opened s)).store.nodes
          ≡ length (first ∷ rest) + length s.nodes)
        × (length (register_steps hash_token (together (first ∷ rest)) (opened s)).responses
            ≡ length (first ∷ rest))
        × ((register_steps hash_token (together (first ∷ rest)) (opened s)).errors ≡ [])
        × (check_join_token hash_token later join_token
              (register_steps hash_token (together (first ∷ rest)) (opened s)).store
            ≡ err (AppError.unauthorized "Join token already used"))
  unfolding register_steps register_step commit_registration
  register_steps-together join_token t first rest later s h =
      let all = first ∷ rest in
      let ready : Window = record (opened s) { pending = map (waiting t) all } in
      let r = commit_registration hash_token first.now first.name first.credentials t s in
      let next : Window = record (opened s) {
        store = r.store;
        pending = map (waiting t) rest;
        responses = r.response ∷ [];
      } in
      let steps =
        register_steps-append (map check all) (map (λ a. commit) all) (opened s)
        ∙ ap (register_steps hash_token (map (λ a. commit) all))
            (checks-waiting t all (opened s) (passed join_token t all s h)) in
      let (nodes, answers, errors, used) =
        commits-Committed join_token t rest next refl
          (commit_registration-IsUsed join_token t first s h.0) in
      subst
        (λ w.
          (length w.store.nodes ≡ length all + length s.nodes)
          × (length w.responses ≡ length all)
          × (w.errors ≡ [])
          × (check_join_token hash_token later join_token w.store
              ≡ err (AppError.unauthorized "Join token already used")))
        (sym steps)
        (
          omega arith,
          omega arith,
          errors,
          refused_later join_token later
              (register_steps hash_token (map (λ a. commit) rest) next).store used,
        )
