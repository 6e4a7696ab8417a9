-- ===== src/Common/Lists.antt =====
-- Lists as database tables: the first row that passes a test, the rows that pass, updates in place.
use Prim.Native.Nat.{ℕ, suc, ◌+◌}
use mathlib.Core.Path.{◌≡◌, refl, ap, sym, subst, ◌∙◌}
use mathlib.Core.Logic.{◌⊎◌, ◌↔◌, inl, inr}
use mathlib.Core.Bool.{Bool, true, true, false, ◌||◌}
use mathlib.Core.List.{List, [], ◌∷◌, ◌++◌}
use mathlib.Core.Option.{Option, none, some}
use native.Mathlib.Omega.{arith}
use your_stack.Common.Tests.{if◌then◌else◌, or_else, Bool-cases}

module _ {ℓ} {A : Type ℓ} where
  abbrev pub length : List A → ℕ
  length [] = 0
  length (x ∷ xs) = suc (length xs)

  abbrev pub find : (A → Bool) → List A → Option A
  find p [] = none
  find p (x ∷ xs) = if p x then some x else find p xs

  abbrev pub filter : (A → Bool) → List A → List A
  filter p [] = []
  filter p (x ∷ xs) = if p x then x ∷ filter p xs else filter p xs

  abbrev pub any : (A → Bool) → List A → Bool
  any p [] = false
  any p (x ∷ xs) = p x || any p xs

  -- `count({ where })`
  abbrev pub count : (A → Bool) → List A → ℕ
  count p [] = 0
  count p (x ∷ xs) = if p x then suc (count p xs) else count p xs

  -- `updateMany({ where, data })`
  abbrev pub update : (A → Bool) → (A → A) → List A → List A
  update p f [] = []
  update p f (x ∷ xs) = (if p x then f x else x) ∷ update p f xs

  pub any-append : (p : A → Bool) (xs ys : List A) → any p (xs ++ ys) ≡ (any p xs || any p ys)
  any-append p [] ys = refl
  any-append p (x ∷ xs) ys = ground (arith, any-append p xs ys)

  pub count-append : (p : A → Bool) (xs ys : List A) → count p (xs ++ ys) ≡ count p xs + count p ys
  count-append p [] ys = omega arith
  count-append p (x ∷ xs) ys = ground (arith, count-append p xs ys)

  pub length-append : (xs ys : List A) → length (xs ++ ys) ≡ length xs + length ys
  length-append [] ys = omega arith
  length-append (x ∷ xs) ys = omega (arith, length-append xs ys)

module _ {ℓ} {A : Type ℓ} where
  pub any-update :
      (p q : A → Bool) (f : A → A) (xs : List A)
      → ((x : A) → p (f x) ≡ p x)
      → any p (update q f xs) ≡ any p xs
  any-update p q f [] h = refl
  any-update p q f (x ∷ xs) h = ground (arith, h x, any-update p q f xs h)

module _ {ℓ κ} {A : Type ℓ} (P : A → Type κ) where
  abbrev pub All : List A → Type κ
  All [] = Unit
  All (x ∷ xs) = P x × All xs

  pub All-append : (xs ys : List A) → All xs → All ys → All (xs ++ ys)
  All-append [] ys hx hy = hy
  All-append (x ∷ xs) ys hx hy = (hx.0, All-append xs ys hx.1 hy)

-- Membership, by recursion: tactics read it as a choice of equations.
abbrev pub IsIn : {A : Type 0} → A → List A → Type 0
IsIn a [] = ⊥
IsIn a (x ∷ xs) = (x ≡ a) ⊎ IsIn a xs

module _ {A : Type 0} where
  pub IsIn-filter :
      (p : A → Bool) (a : A) (xs : List A) → IsIn a (filter p xs) ↔ (IsIn a xs × (p a ≡ true))
  IsIn-filter p a [] = ground arith
  IsIn-filter p a (x ∷ xs) = ground (arith, IsIn-filter p a xs, ap p {x = x} {y = a})

-- A row that is found after an update of the rows found has what the update establishes.
module _ {ℓ} {A : Type ℓ} (p q : A → Bool) (f : A → A) where
  found_first : (x a : A) (xs : List A) → p x ≡ true → find p (x ∷ xs) ≡ some a → x ≡ a
  found_first x a xs e h =
      let e' : find p (x ∷ xs) ≡ some x = rw e refl in ap (λ o. or_else o x) (sym e' ∙ h)

  pub found-update :
      (xs : List A) (a : A)
      → ((x : A) → p (f x) ≡ p x)
      → ((x : A) → q (f x) ≡ true)
      → find p (update p f xs) ≡ some a
      → q a ≡ true
  found-update [] a same h e = absurd (cc e)
  found-update (x ∷ xs) a same h e = elim (Bool-cases (p x)) [
    | inl t ↦
        let u : update p f (x ∷ xs) ≡ f x ∷ update p f xs = rw t refl in
        subst (λ y. q y ≡ true)
          (found_first (f x) a (update p f xs) (same x ∙ t) (sym (ap (find p) u) ∙ e)) (h x)
    | inr t ↦
        let u : update p f (x ∷ xs) ≡ x ∷ update p f xs = rw t refl in
        let v : find p (x ∷ update p f xs) ≡ find p (update p f xs) = rw t refl in
        found-update xs a same h (sym (ap (find p) u ∙ v) ∙ e)
  ]

-- The row that is found passes the test.
pub find-passes {ℓ} :
    {A : Type ℓ} (p : A → Bool) (xs : List A) (a : A) → find p xs ≡ some a → p a ≡ true
find-passes p [] a h = absurd (cc h)
find-passes p (x ∷ xs) a h = ground (arith, h, ap p {x = x} {y = a}, find-passes p xs a)

-- The row that is found after an update of the rows that pass.
pub find-update {ℓ} :
    {A : Type ℓ} (p : A → Bool) (f : A → A) (xs : List A) (a : A)
    → ((x : A) → p (f x) ≡ p x)
    → find p xs ≡ some a
    → find p (update p f xs) ≡ some (f a)
find-update p f [] a same h = absurd (cc h)
find-update p f (x ∷ xs) a same h =
    ground (arith, h, same x, find-update p f xs a same, ap f {x = x} {y = a})
