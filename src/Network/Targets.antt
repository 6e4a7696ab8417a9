-- ===== src/Network/Targets.antt =====
-- `dedupeTargets` of apps/worker/src/processors/loadbalancer.ts. Addresses are texts, and weights are
-- the integers that the column holds.
use your_stack.Common.{ℕ, zero, suc, ◌+◌, Bool, true, false, List, [], ◌∷◌, if◌then◌else◌}
use your_stack.Common.Text.{Text, eq_text, trim}
use your_stack.Common.Int.{ℤ, pos, negsuc}

pub record LbTargetRow : Type 0 where
  pub address : Text
  pub weight : ℤ

pub record Target : Type 0 where
  pub address : Text
  pub weight : ℕ

-- `Number.isFinite(t.weight) && t.weight > 0 ? Math.trunc(t.weight) : 1`
abbrev pub clean_weight : ℤ → ℕ
clean_weight (pos zero) = 1
clean_weight (pos (suc n)) = suc n
clean_weight (negsuc n) = 1

-- `byAddress.set(address, (byAddress.get(address) ?? 0) + weight)`, in insertion order.
unfoldable pub add_target : Text → ℕ → List Target → List Target
add_target a w [] = record { address = a; weight = w } ∷ []
add_target a w (t ∷ ts) =
    if eq_text t.address a then record t { weight = t.weight + w } ∷ ts else t ∷ add_target a w ts

unfoldable pub is_blank : Text → Bool
is_blank [] = true
is_blank (c ∷ s) = false

-- One round of the loop.
unfoldable pub take_target : LbTargetRow → List Target → List Target
unfolding add_target is_blank
take_target t by_address =
    let a = trim t.address in
    if is_blank a then by_address else add_target a (clean_weight t.weight) by_address

unfoldable pub dedupe_from : List Target → List LbTargetRow → List Target
unfolding take_target
dedupe_from by_address [] = by_address
dedupe_from by_address (t ∷ ts) = dedupe_from (take_target t by_address) ts

unfoldable pub dedupe_targets : List LbTargetRow → List Target
unfolding dedupe_from
dedupe_targets ts = dedupe_from [] ts
