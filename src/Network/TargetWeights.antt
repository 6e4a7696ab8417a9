-- ===== src/Network/TargetWeights.antt =====
-- What a load balancer's target list keeps of the stored rows (`dedupeTargets`).
use your_stack.Common.{
  ℕ, zero, suc, ◌+◌, ◌≤◌, ◌≡◌, ◌≢◌, ap, sym, ◌∙◌, List, [], ◌∷◌, if◌then◌else◌, All, arith,
  Bool-cases, inl, inr,
}
use your_stack.Common.Text.{Text, eq_text, eq_text_iff, trim}
use your_stack.Common.Int.{ℤ, pos, negsuc}
use your_stack.Network.Targets.{
  LbTargetRow, Target, clean_weight, add_target, is_blank, take_target, dedupe_from, dedupe_targets,
}

-- The weight of an address in a target list, counting every entry.
abbrev pub weight_of : Text → List Target → ℕ
weight_of a [] = 0
weight_of a (t ∷ ts) = if eq_text t.address a then t.weight + weight_of a ts else weight_of a ts

-- The sum of the weights of the rows that name the address.
abbrev pub given_weight : Text → List LbTargetRow → ℕ
given_weight a [] = 0
given_weight a (t ∷ ts) =
    if eq_text (trim t.address) a
    then clean_weight t.weight + given_weight a ts
    else given_weight a ts

-- No two entries have one address, no address is blank and no weight is zero.
abbrev pub IsClean : List Target → Type 0
IsClean [] = Unit
IsClean (t ∷ ts) =
    (t.address ≢ []) × (1 ≤ t.weight) × All (λ u. u.address ≢ t.address) ts × IsClean ts

add_target-weight_of :
    (a b : Text) (w : ℕ) (ts : List Target)
    → weight_of b (add_target a w ts) ≡ (if eq_text a b then w + weight_of b ts else weight_of b ts)
unfolding add_target
add_target-weight_of a b w [] = ground arith
add_target-weight_of a b w (t ∷ ts) = ground (
  arith,
  add_target-weight_of a b w ts,
  eq_text_iff t.address a,
  eq_text_iff t.address b,
  eq_text_iff a b,
)

add_target-other :
    (a b : Text) (w : ℕ) (ts : List Target)
    → a ≢ b
    → All (λ u. u.address ≢ b) ts
    → All (λ u. u.address ≢ b) (add_target a w ts)
unfolding add_target
add_target-other a b w [] ne h = (ne, tt)
add_target-other a b w (t ∷ ts) ne h = ground (arith, add_target-other a b w ts ne)

add_target-IsClean :
    (a : Text) (w : ℕ) (ts : List Target)
    → a ≢ []
    → 1 ≤ w
    → IsClean ts
    → IsClean (add_target a w ts)
unfolding add_target
add_target-IsClean a w [] ne p h = (ne, p, tt, tt)
add_target-IsClean a w (t ∷ ts) ne p h = elim (Bool-cases (eq_text t.address a)) [
  | inl e ↦ rw e (h.0, omega (arith, h.1), h.2, h.3)
  | inr e ↦ rw e (
    h.0,
    h.1,
    add_target-other a t.address w ts (λ s. ground (arith, eq_text_iff t.address a)) h.2,
    add_target-IsClean a w ts ne p h.3,
  )
]

take_target-weight_of :
    (a : Text) (acc : List Target) (t : LbTargetRow)
    → a ≢ []
    → weight_of a (take_target t acc) ≡ (
        if eq_text (trim t.address) a
        then clean_weight t.weight + weight_of a acc
        else weight_of a acc)
unfolding take_target is_blank
take_target-weight_of a acc t ne = ground (
  arith,
  add_target-weight_of (trim t.address) a (clean_weight t.weight) acc,
  eq_text_iff (trim t.address) a,
)

clean_weight-pos : (w : ℤ) → 1 ≤ clean_weight w
clean_weight-pos (pos zero) = omega arith
clean_weight-pos (pos (suc n)) = omega arith
clean_weight-pos (negsuc n) = omega arith

take_target-IsClean :
    (t : LbTargetRow) (acc : List Target) → IsClean acc → IsClean (take_target t acc)
unfolding take_target is_blank
take_target-IsClean t acc h = elim (Bool-cases (is_blank (trim t.address))) [
  | inl b ↦ rw b h
  | inr b ↦ rw b (
      add_target-IsClean (trim t.address) (clean_weight t.weight) acc
        (λ e. cc (sym (ap is_blank e) ∙ b)) (clean_weight-pos t.weight) h)
]

dedupe_from-weight_of :
    (a : Text) (acc : List Target) (ts : List LbTargetRow)
    → a ≢ []
    → weight_of a (dedupe_from acc ts) ≡ weight_of a acc + given_weight a ts
unfolding dedupe_from
dedupe_from-weight_of a acc [] ne = omega arith
dedupe_from-weight_of a acc (t ∷ ts) ne =
    ground
      (arith, dedupe_from-weight_of a (take_target t acc) ts ne, take_target-weight_of a acc t ne)

dedupe_from-IsClean :
    (acc : List Target) (ts : List LbTargetRow) → IsClean acc → IsClean (dedupe_from acc ts)
unfolding dedupe_from
dedupe_from-IsClean acc [] h = h
dedupe_from-IsClean acc (t ∷ ts) h =
    dedupe_from-IsClean (take_target t acc) ts (take_target-IsClean t acc h)

-- The target list has distinct addresses, none of them blank, with positive weights, and the weight of
-- each address is the sum of the weights of the rows that name it, a weight that is not positive
-- counting as 1.
pub dedupe_targets-IsClean :
    (ts : List LbTargetRow)
    → IsClean (dedupe_targets ts)
      × ((a : Text) → a ≢ [] → weight_of a (dedupe_targets ts) ≡ given_weight a ts)
unfolding dedupe_targets
dedupe_targets-IsClean ts =
    (dedupe_from-IsClean [] ts tt, λ a ne. omega (arith, dedupe_from-weight_of a [] ts ne))
