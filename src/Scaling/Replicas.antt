-- ===== src/Scaling/Replicas.antt =====
-- `computeDesiredReplicas` of apps/worker/src/processors/autoscale.ts. The arithmetic of doubles is a
-- parameter: what the host computes, the literals 0.9 and 1.1 included. `Math.ceil` is read on numbers
-- that are not negative.
use your_stack.Common.{ℕ, Bool, ◌&&◌, ltb, if◌then◌else◌}

pub record Doubles : Type 1 where
  pub Double : Type 0
  pub of_nat : ℕ → Double
  pub add : Double → Double → Double
  pub mul : Double → Double → Double
  pub div : Double → Double → Double
  pub is_less : Double → Double → Bool
  pub is_at_most : Double → Double → Bool
  pub ceil : Double → ℕ
  pub nine_tenths : Double
  pub eleven_tenths : Double

pub data Reason : Type 0 where
  invalid_target : Reason
  within_deadband : Reason
  scaling_up : Reason
  scaling_down : Reason

pub record ReplicaDecision : Type 0 where
  pub desired : ℕ
  pub reason : Reason

-- `Math.max(low, Math.min(high, n))`
unfoldable pub clamp : ℕ → ℕ → ℕ → ℕ
clamp low high n = let m = if ltb high n then high else n in if ltb m low then low else m

module _ (d : Doubles) where
  unfoldable pub compute_desired_replicas :
      (current : ℕ) (observed target : d.Double) (low high : ℕ) → ReplicaDecision
  unfolding clamp
  compute_desired_replicas current observed target low high =
      let ratio = d.div observed target in
      let base = if ltb 0 current then current else 1 in
      if d.is_at_most target (d.of_nat 0)
      then record { desired = clamp low high current; reason = invalid_target }
      else if d.is_less d.nine_tenths ratio && d.is_less ratio d.eleven_tenths
      then record { desired = clamp low high current; reason = within_deadband }
      else record {
        desired = clamp low high (d.ceil (d.mul (d.of_nat base) ratio));
        reason = if d.is_at_most (d.of_nat 1) ratio then scaling_up else scaling_down;
      }
