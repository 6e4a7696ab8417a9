-- ===== src/Blueprint/Planned.antt =====
-- Where the plan of a blueprint has each declared resource.
use your_stack.Common.{
  ℕ, zero, suc, subst, ==_iff, ◌≡◌, refl, sym, ap, ◌∙◌, Bool, true, false, ◌||◌, some, List, [],
  ◌∷◌, ◌++◌, ◌==◌, map, any, find, IsIn, Bool-cases, ==_self, inl, inr, arith,
}
use mathlib.Core.List.{append-nil}
use your_stack.Common.Text.{Text, eq_text, eq_text_iff, eq_text_self}
use your_stack.Blueprint.Schema.{
  Blueprint, ResourceKind, app, database, bucket, function, cron, firewall, load_balancer,
  BlueprintPlanItem,
}
use your_stack.Blueprint.Plan.{
  ExistingResources, kind_rank, action_for, has_name, plan_section, compute_blueprint_plan,
}
use your_stack.Blueprint.Store.{ResourceRow, is_live, live_names}
use your_stack.Blueprint.Apply.{is_item}
use your_stack.Blueprint.Contract.{is_named}

-- The names that a blueprint declares of a kind, and those that exist.
abbrev pub declared : ResourceKind → Blueprint → List Text
declared app bp = map (λ a. a.name) bp.apps
declared database bp = map (λ d. d.name) bp.databases
declared bucket bp = map (λ b. b.name) bp.buckets
declared function bp = map (λ f. f.name) bp.functions
declared cron bp = map (λ c. c.name) bp.cron
declared firewall bp = map (λ w. w.name) bp.firewalls
declared load_balancer bp = map (λ l. l.name) bp.load_balancers

abbrev pub existing_of : ResourceKind → ExistingResources → List Text
existing_of app e = e.apps
existing_of database e = e.databases
existing_of bucket e = e.buckets
existing_of function e = e.functions
existing_of cron e = e.cron
existing_of firewall e = e.firewalls
existing_of load_balancer e = e.load_balancers

abbrev pub item_of : ResourceKind → Text → List Text → BlueprintPlanItem
item_of kind name have = record { kind = kind; name = name; action = action_for have name }

find-section :
    (kind : ResourceKind) (name : Text) (names have : List Text) (rest : List BlueprintPlanItem)
    → IsIn name names
    → find (is_item kind name) (plan_section kind names have ++ rest)
      ≡ some (item_of kind name have)
unfolding plan_section
find-section kind name [] have rest h = absurd h
find-section kind name (n ∷ names) have rest h = elim (Bool-cases (eq_text n name)) [
  | inl t ↦
      let same : n ≡ name = (eq_text_iff n name).0 t in
      rw (same, ==_self (kind_rank kind), eq_text_self name) refl
  | inr t ↦ elim h [
    | inl e ↦ absurd (cc (t, e, eq_text_self name))
    | inr later ↦ rw (t, ==_self (kind_rank kind)) (find-section kind name names have rest later)
  ]
]

find-other_section :
    (kind other : ResourceKind) (name : Text) (names have : List Text)
    (rest : List BlueprintPlanItem)
    → (kind_rank other == kind_rank kind) ≡ false
    → find (is_item kind name) (plan_section other names have ++ rest)
      ≡ find (is_item kind name) rest
unfolding plan_section
find-other_section kind other name [] have rest h = refl
find-other_section kind other name (n ∷ names) have rest h =
    rw h (find-other_section kind other name names have rest h)

-- The sections of a plan from a kind on.
sections : List ResourceKind → Blueprint → ExistingResources → List BlueprintPlanItem
sections [] bp e = []
sections (k ∷ kinds) bp e = plan_section k (declared k bp) (existing_of k e) ++ sections kinds bp e

plan-sections :
    (bp : Blueprint) (e : ExistingResources)
    → compute_blueprint_plan bp e
      ≡ sections (app ∷ database ∷ bucket ∷ function ∷ cron ∷ firewall ∷ load_balancer ∷ []) bp e
unfolding compute_blueprint_plan sections
plan-sections bp e =
    rw (append-nil (plan_section load_balancer (declared load_balancer bp) e.load_balancers)) refl

kind_at : ℕ → ResourceKind
kind_at zero = app
kind_at (suc zero) = database
kind_at (suc (suc zero)) = bucket
kind_at (suc (suc (suc zero))) = function
kind_at (suc (suc (suc (suc zero)))) = cron
kind_at (suc (suc (suc (suc (suc zero))))) = firewall
kind_at _ = load_balancer

kind_at-kind_rank : (k : ResourceKind) → kind_at (kind_rank k) ≡ k
unfolding kind_at
kind_at-kind_rank app = refl
kind_at-kind_rank database = refl
kind_at-kind_rank bucket = refl
kind_at-kind_rank function = refl
kind_at-kind_rank cron = refl
kind_at-kind_rank firewall = refl
kind_at-kind_rank load_balancer = refl

kind_rank-injective : (j k : ResourceKind) → kind_rank j ≡ kind_rank k → j ≡ k
kind_rank-injective j k e = sym (kind_at-kind_rank j) ∙ (ap kind_at e ∙ kind_at-kind_rank k)

is_listed :
    (kind : ResourceKind)
    → any
        (λ k. kind_rank k == kind_rank kind)
        (app ∷ database ∷ bucket ∷ function ∷ cron ∷ firewall ∷ load_balancer ∷ [])
      ≡ true
is_listed app = refl
is_listed database = refl
is_listed bucket = refl
is_listed function = refl
is_listed cron = refl
is_listed firewall = refl
is_listed load_balancer = refl

skip_first : {a b : Bool} → a ≡ false → (a || b) ≡ true → b ≡ true
skip_first e h = ground (arith, e, h)

find-sections :
    (kind : ResourceKind) (name : Text) (kinds : List ResourceKind) (bp : Blueprint)
    (e : ExistingResources)
    → any (λ k. kind_rank k == kind_rank kind) kinds ≡ true
    → IsIn name (declared kind bp)
    → find (is_item kind name) (sections kinds bp e) ≡ some (item_of kind name (existing_of kind e))
unfolding sections
find-sections kind name [] bp e h i = absurd (cc h)
find-sections kind name (k ∷ kinds) bp e h i = elim (Bool-cases (kind_rank k == kind_rank kind)) [
  | inl t ↦
      let same = kind_rank-injective k kind ((==_iff (kind_rank k) (kind_rank kind)).0 t) in
      subst
        (λ c.
          find (is_item kind name)
            (plan_section c (declared c bp) (existing_of c e) ++ sections kinds bp e)
          ≡ some (item_of kind name (existing_of kind e)))
        (sym same)
        (find-section kind name (declared kind bp) (existing_of kind e) (sections kinds bp e) i)
  | inr t ↦
      find-other_section kind k name (declared k bp) (existing_of k e) (sections kinds bp e) t
      ∙ find-sections kind name kinds bp e (skip_first t h) i
]

-- Each declared resource has an item of the plan, with the action for its name.
pub find-plan :
    (kind : ResourceKind) (name : Text) (bp : Blueprint) (e : ExistingResources)
    → IsIn name (declared kind bp)
    → find (is_item kind name) (compute_blueprint_plan bp e)
      ≡ some (item_of kind name (existing_of kind e))
find-plan kind name bp e i = rw (plan-sections bp e) (
    find-sections kind name
      (app ∷ database ∷ bucket ∷ function ∷ cron ∷ firewall ∷ load_balancer ∷ []) bp e
      (is_listed kind) i)

-- A name that exists is that of a live row.
pub has_name-live_names :
    (kind : ResourceKind) (owner : ℕ) (name : Text) (rows : List ResourceRow)
    → has_name (live_names kind owner rows) name ≡ any (is_named kind owner name) rows
has_name-live_names kind owner name [] = refl
has_name-live_names kind owner name (r ∷ rows) = elim (Bool-cases (is_live kind owner r)) [
  | inl t ↦ rw (t, has_name-live_names kind owner name rows) refl
  | inr t ↦ rw (t, has_name-live_names kind owner name rows) refl
]
