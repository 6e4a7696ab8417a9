-- ===== src/Common/Text.antt =====
-- Text as a list of code units, with the string functions that the source calls.
use Prim.Native.Nat.{ℕ, zero, suc, ◌+◌, ◌*◌, ◌/◌, ◌%◌, ◌<◌}
use Prim.Native.Char.{code}
use Prim.Native.String.{String}
use mathlib.Core.Path.{◌≡◌, refl, ap}
use mathlib.Core.Logic.{◌↔◌}
use mathlib.Core.Bool.{Bool, true, false, ◌&&◌, ◌||◌}
use mathlib.Core.List.{List, [], ◌∷◌, reverse}
use native.Mathlib.Omega.{arith}
use your_stack.Common.Tests.{leb, ltb, ◌==◌, if◌then◌else◌}

abbrev pub Text : Type 0
Text = List ℕ

-- The code points of a literal.
abbrev pub codes : String → Text
codes String.[] = []
codes (String.◌∷◌ c s) = code c ∷ codes s

unfoldable pub eq_text : Text → Text → Bool
eq_text [] [] = true
eq_text (a ∷ xs) (b ∷ bs) = a == b && eq_text xs bs
eq_text _ _ = false

pub eq_text_iff : (a b : Text) → (eq_text a b ≡ true) ↔ (a ≡ b)
unfolding eq_text
eq_text_iff [] [] = ((λ _. refl), λ _. refl)
eq_text_iff [] (b ∷ bs) = ((λ e. cc), λ e. cc)
eq_text_iff (a ∷ xs) [] = ((λ e. cc), λ e. cc)
eq_text_iff (a ∷ xs) (b ∷ bs) = ground (arith, eq_text_iff xs bs)

pub eq_text_self : (a : Text) → eq_text a a ≡ true
eq_text_self a = (eq_text_iff a a).1 refl

-- White space and line terminators of ECMAScript.
unfoldable pub is_space : ℕ → Bool
is_space c =
    (leb 9 c && leb c 13)
    || c == 32
    || c == 160
    || c == 5760
    || (leb 8192 c && leb c 8202)
    || c == 8232
    || c == 8233
    || c == 8239
    || c == 8287
    || c == 12288
    || c == 65279

unfoldable pub trim_start : Text → Text
unfolding is_space
trim_start [] = []
trim_start (c ∷ s) = if is_space c then trim_start s else c ∷ s

-- `String.prototype.trim`
unfoldable pub trim : Text → Text
unfolding trim_start
trim s = reverse (trim_start (reverse (trim_start s)))

-- `startsWith`, the prefix first.
unfoldable pub has_prefix : Text → Text → Bool
has_prefix [] s = true
has_prefix (c ∷ p) [] = false
has_prefix (c ∷ p) (d ∷ s) = c == d && has_prefix p s

-- The last digits of a number, as many as the first argument says, before a text.
unfoldable pub digits : ℕ → ℕ → Text → Text
digits zero n s = s
digits (suc most) n s =
    let rest = digits most (n / 10) ((48 + n % 10) ∷ s) in if ltb n 10 then (48 + n) ∷ s else rest

-- `String` of a number that a column of 32 bits holds: it has ten digits at most.
unfoldable pub decimal : ℕ → Text
unfolding digits
decimal n = digits 10 n []

-- What a number of so many digits stays below.
abbrev limit : ℕ → ℕ
limit zero = 1
limit (suc n) = 10 * limit n

-- Where the fuel is at least the number of the digits, more of it changes nothing.
digits-fuel :
    (most n : ℕ) (s : Text)
    → n < limit (suc most)
    → digits (suc (suc most)) n s ≡ digits (suc most) n s
unfolding digits
digits-fuel zero n s h = let small : ltb n 10 ≡ true = ground (arith, h) in rw small refl
digits-fuel (suc most) n s h =
    let rest = digits-fuel most (n / 10) ((48 + n % 10) ∷ s) (omega (arith, h)) in
    ap (λ t. if ltb n 10 then (48 + n) ∷ s else t) rest
