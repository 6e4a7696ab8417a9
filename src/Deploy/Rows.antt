-- ===== src/Deploy/Rows.antt =====
-- Lemmas on the rows of the deployments: distinct ids and versions, and how many of an app's run.
use your_stack.Common.{
  ℕ, suc, ◌≤◌, ◌<◌, ◌≡◌, ◌≢◌, refl, ap, Bool, true, false, ◌&&◌, some, List, [], ◌∷◌, ◌==◌,
  if◌then◌else◌, count, update, All, arith, inl, inr, Bool-cases,
}
use your_stack.Deploy.Enums.{DeploymentStatus, is_running}
use your_stack.Deploy.State.{Deployment, find_deployment}
use your_stack.Deploy.Trigger.{last_version}
use your_stack.Deploy.Outcome.{is_other_running}

-- Two rows have different ids, and different versions if they belong to one app.
abbrev pub IsApart : Deployment → Deployment → Type 0
IsApart d e = (e.id ≢ d.id) × (e.app_id ≡ d.app_id → e.version ≢ d.version)

abbrev pub AllApart : List Deployment → Type 0
AllApart [] = Unit
AllApart (d ∷ ds) = All (IsApart d) ds × AllApart ds

abbrev pub IsFresh : ℕ → List Deployment → Type 0
IsFresh n ds = All (λ d. d.id < n) ds

abbrev pub running_of : ℕ → List Deployment → ℕ
running_of app ds = count (λ d. d.app_id == app && is_running d.status) ds

-- The rows are apart, their ids are in use, and of each app one row at most is running.
pub record IsSound (n : ℕ) (ds : List Deployment) : Type 0 where
  pub apart : AllApart ds
  pub fresh : IsFresh n ds
  pub one_running : (app : ℕ) → running_of app ds ≤ 1

-- An update keeps what tells rows apart.
abbrev pub Keeps : (Deployment → Deployment) → Type 0
Keeps f =
    (d : Deployment) → ((f d).id ≡ d.id) × ((f d).app_id ≡ d.app_id) × ((f d).version ≡ d.version)

module _ (p : Deployment → Bool) (f : Deployment → Deployment) (keeps : Keeps f) where
  IsFresh-update : (n : ℕ) (ds : List Deployment) → IsFresh n ds → IsFresh n (update p f ds)
  IsFresh-update n [] h = tt
  IsFresh-update n (d ∷ ds) h = ground (arith, keeps d, IsFresh-update n ds)

  IsApart-update :
      (d d' : Deployment) (ds : List Deployment)
      → d'.id ≡ d.id
      → d'.app_id ≡ d.app_id
      → d'.version ≡ d.version
      → All (IsApart d) ds
      → All (IsApart d') (update p f ds)
  IsApart-update d d' [] i a v h = tt
  IsApart-update d d' (e ∷ ds) i a v h = (ground (arith, keeps e), IsApart-update d d' ds i a v h.1)

  AllApart-update : (ds : List Deployment) → AllApart ds → AllApart (update p f ds)
  AllApart-update [] h = tt
  AllApart-update (d ∷ ds) h = (
    IsApart-update d (if p d then f d else d) ds (ground (arith, keeps d)) (ground (arith, keeps d))
        (ground (arith, keeps d)) h.0,
    AllApart-update ds h.1,
  )

  running_of-update :
      (quiet : (d : Deployment) → is_running (f d).status ≡ false) (app : ℕ) (ds : List Deployment)
      → running_of app (update p f ds) ≤ running_of app ds
  running_of-update quiet app [] = omega arith
  running_of-update quiet app (d ∷ ds) =
      ground (arith, keeps d, quiet d, running_of-update quiet app ds)

  -- An update that sets no row running.
  pub IsSound-update :
      (quiet : (d : Deployment) → is_running (f d).status ≡ false) (n : ℕ) (ds : List Deployment)
      → IsSound n ds
      → IsSound n (update p f ds)
  IsSound-update quiet n ds h = record {
    apart = AllApart-update ds h.apart;
    fresh = IsFresh-update n ds h.fresh;
    one_running = λ app. omega (arith, running_of-update quiet app ds, h.one_running app);
  }

le-last_version :
    (app bound : ℕ) (ds : List Deployment)
    → last_version app ds ≤ bound
    → All (λ e. e.app_id ≡ app → e.version ≤ bound) ds
unfolding last_version
le-last_version app bound [] h = tt
le-last_version app bound (d ∷ ds) h =
    ((λ same. ground arith), le-last_version app bound ds (ground arith))

IsApart-new :
    (d : Deployment) (bound : ℕ) (ds : List Deployment)
    → IsFresh d.id ds
    → All (λ e. e.app_id ≡ d.app_id → e.version ≤ bound) ds
    → bound < d.version
    → All (IsApart d) ds
IsApart-new d bound [] f h lt = tt
IsApart-new d bound (e ∷ ds) f h lt =
    ((omega arith, λ same. omega (arith, h.0 same)), IsApart-new d bound ds f.1 h.1 lt)

pub IsFresh-suc : (n : ℕ) (ds : List Deployment) → IsFresh n ds → IsFresh (suc n) ds
IsFresh-suc n [] h = tt
IsFresh-suc n (d ∷ ds) h = (omega arith, IsFresh-suc n ds h.1)

-- A new row, with the next version of its app, that is not running.
pub IsSound-create :
    (d : Deployment) (n : ℕ) (ds : List Deployment)
    → d.id ≡ n
    → d.version ≡ suc (last_version d.app_id ds)
    → is_running d.status ≡ false
    → IsSound n ds
    → IsSound (suc n) (d ∷ ds)
IsSound-create d n ds i v quiet h = record {
  apart = (
    IsApart-new d (last_version d.app_id ds) ds (rw i h.fresh)
        (le-last_version d.app_id (last_version d.app_id ds) ds (omega arith)) (omega arith),
    h.apart,
  );
  fresh = (omega arith, IsFresh-suc n ds h.fresh);
  one_running = λ app. ground (arith, h.one_running app);
}

abbrev pub supersede : Deployment → Deployment
supersede e = record e { status = DeploymentStatus.superseded }

-- The rows after one row has been set running and the others of its app have been superseded.
abbrev pub promoted : Deployment → ℕ → (Deployment → Deployment) → List Deployment → List Deployment
promoted d k f ds = update (is_other_running d) supersede (update (λ e. e.id == k) f ds)

none_running :
    (app k : ℕ) (ds : List Deployment)
    → All (λ e. e.id ≢ k) ds
    → All (λ e. (e.app_id == app && is_running e.status) ≡ true → e.id ≡ k) ds
    → running_of app ds ≡ 0
none_running app k [] h a = refl
none_running app k (d ∷ ds) h a = ground (arith, none_running app k ds, a.0)

ids_apart :
    (d : Deployment) (k : ℕ) (ds : List Deployment)
    → All (IsApart d) ds
    → d.id ≡ k
    → All (λ e. e.id ≢ k) ds
ids_apart d k [] h e = tt
ids_apart d k (x ∷ ds) h e = (ground (arith, h.0.0), ids_apart d k ds h.1 e)

one_at_most :
    (app k : ℕ) (ds : List Deployment)
    → AllApart ds
    → All (λ e. (e.app_id == app && is_running e.status) ≡ true → e.id ≡ k) ds
    → running_of app ds ≤ 1
one_at_most app k [] h a = omega arith
one_at_most app k (d ∷ ds) h a = elim (Bool-cases (d.app_id == app && is_running d.status)) [
  | inl r ↦
      let others = none_running app k ds (ids_apart d k ds h.0 (a.0 r)) a.1 in
      rw (r, others) (omega arith)
  | inr r ↦ rw r (one_at_most app k ds h.1 a.1)
]

module _ (d : Deployment) (k : ℕ) (here : d.id ≡ k) (f : Deployment → Deployment)
    (keeps : Keeps f) where
  only_promoted :
      (ds : List Deployment)
      → All
          (λ e. (e.app_id == d.app_id && is_running e.status) ≡ true → e.id ≡ d.id)
          (promoted d k f ds)
  only_promoted [] = tt
  only_promoted (e ∷ ds) = ((λ r. ground (arith, keeps e)), only_promoted ds)

  others_kept :
      (app : ℕ) (ds : List Deployment)
      → app ≢ d.app_id
      → All (λ e. e.id ≡ d.id → e.app_id ≡ d.app_id) ds
      → running_of app (promoted d k f ds) ≤ running_of app ds
  others_kept app [] ne h = omega arith
  others_kept app (e ∷ ds) ne h = ground (arith, keeps e, h.0, others_kept app ds ne h.1)

vacuous :
    (app k : ℕ) (ds : List Deployment)
    → All (λ e. e.id ≢ k) ds
    → All (λ e. e.id ≡ k → e.app_id ≡ app) ds
vacuous app k [] h = tt
vacuous app k (d ∷ ds) h = ((λ e. absurd (h.0 e)), vacuous app k ds h.1)

pub find-same_app :
    (id : ℕ) (d : Deployment) (ds : List Deployment)
    → AllApart ds
    → find_deployment id ds ≡ some d
    → (d.id ≡ id) × All (λ e. e.id ≡ d.id → e.app_id ≡ d.app_id) ds
find-same_app id d [] h e = cc
find-same_app id d (x ∷ ds) h e = elim (Bool-cases (x.id == id)) [
  | inl here ↦
      let same : x ≡ d = ground arith in
      let others =
        vacuous d.app_id d.id ds (ids_apart x d.id ds h.0 (ap (λ (y : Deployment). y.id) same)) in
      (ground arith, ((λ _. ap (λ (y : Deployment). y.app_id) same), others))
  | inr there ↦
      let (i, rest) = find-same_app id d ds h.1 (rw there at e) in
      (i, ((λ j. absurd (ground arith)), rest))
]

supersede-Keeps : Keeps supersede
supersede-Keeps d = (refl, refl, refl)

-- Setting one row running, with the others of its app superseded.
pub IsSound-promote :
    (n k : ℕ) (d : Deployment) (f : Deployment → Deployment) (ds : List Deployment)
    → Keeps f
    → find_deployment k ds ≡ some d
    → IsSound n ds
    → IsSound n (promoted d k f ds)
IsSound-promote n k d f ds keeps found h =
    let (here, same) = find-same_app k d ds h.apart found in
    let first = AllApart-update (λ e. e.id == k) f keeps ds h.apart in
    let apart = AllApart-update (is_other_running d) supersede supersede-Keeps _ first in
    record {
      apart = apart;
      fresh =
          IsFresh-update (is_other_running d) supersede supersede-Keeps n _
            (IsFresh-update (λ e. e.id == k) f keeps n ds h.fresh);
      one_running = λ app. elim (Bool-cases (app == d.app_id)) [
        | inl e ↦
            let eq : app ≡ d.app_id = ground arith in
            rw eq (one_at_most d.app_id d.id _ apart (only_promoted d k here f keeps ds))
        | inr e ↦
            omega
              (arith, others_kept d k here f keeps app ds (ground arith) same, h.one_running app)
      ];
    }
