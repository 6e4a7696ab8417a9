-- ===== src/Signing/KeyOrder.antt =====
-- The order of the keys is a strict total order.
use your_stack.Common.{◌≡◌, refl, true, false, [], ◌∷◌, arith}
use your_stack.Common.Text.{Text}
use your_stack.Signing.Canonical.{lt_text}

pub lt_text_irrefl : (a : Text) → lt_text a a ≡ false
unfolding lt_text
lt_text_irrefl [] = refl
lt_text_irrefl (c ∷ a) = ground (arith, lt_text_irrefl a)

pub lt_text_asym : (a b : Text) → lt_text a b ≡ true → lt_text b a ≡ false
unfolding lt_text
lt_text_asym [] [] h = refl
lt_text_asym [] (d ∷ b) h = refl
lt_text_asym (c ∷ a) [] h = ground arith
lt_text_asym (c ∷ a) (d ∷ b) h = ground (arith, h, lt_text_asym a b)

pub lt_text_trans : (a b c : Text) → lt_text a b ≡ true → lt_text b c ≡ true → lt_text a c ≡ true
unfolding lt_text
lt_text_trans [] [] c h k = ground arith
lt_text_trans [] (y ∷ b) [] h k = ground arith
lt_text_trans [] (y ∷ b) (z ∷ c) h k = refl
lt_text_trans (x ∷ a) [] c h k = ground arith
lt_text_trans (x ∷ a) (y ∷ b) [] h k = ground arith
lt_text_trans (x ∷ a) (y ∷ b) (z ∷ c) h k = ground (arith, h, k, lt_text_trans a b c)

pub lt_text_total : (a b : Text) → lt_text a b ≡ false → lt_text b a ≡ false → a ≡ b
unfolding lt_text
lt_text_total [] [] h k = refl
lt_text_total [] (y ∷ b) h k = ground arith
lt_text_total (x ∷ a) [] h k = ground arith
lt_text_total (x ∷ a) (y ∷ b) h k = ground (arith, h, k, lt_text_total a b)
