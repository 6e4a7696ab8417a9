-- ===== src/Cli/Quoting.antt =====
-- Reading back a quoted argument.
use your_stack.Common.{
  ℕ, ◌≡◌, refl, sym, ap, subst, true, false, some, [], ◌∷◌, ◌++◌, ◌==◌, leb, length, length-append,
  All, All-append, arith,
}
use mathlib.Core.List.{reverse, reverse-cons, reverse-reverse}
use your_stack.Common.Text.{Text, is_space, trim_start, trim}
use your_stack.Cli.KeyValue.{
  split_pair, is_key_char, all_key_chars, is_key, last_is, drop_last, strip_quotes, pair_of,
  parse_key_value,
}

abbrev IsKeyText : Text → Type 0
IsKeyText = All (λ c. is_key_char c ≡ true)

all_key_chars-IsKeyText : (s : Text) → all_key_chars s ≡ true → IsKeyText s
unfolding all_key_chars
all_key_chars-IsKeyText [] h = tt
all_key_chars-IsKeyText (c ∷ s) h =
    (ground (arith, h), all_key_chars-IsKeyText s (ground (arith, h)))

is_key-IsKeyText : (key : Text) → is_key key ≡ true → IsKeyText key
unfolding is_key
is_key-IsKeyText [] h = absurd (cc h)
is_key-IsKeyText (c ∷ s) h = (ground (arith, h), all_key_chars-IsKeyText s (ground (arith, h)))

is_space-key_char : (c : ℕ) → is_key_char c ≡ true → is_space c ≡ false
unfolding is_space
is_space-key_char c h = ground (arith, h)

trim_start-IsKeyText : (s : Text) → IsKeyText s → trim_start s ≡ s
unfolding trim_start
trim_start-IsKeyText [] h = refl
trim_start-IsKeyText (c ∷ s) h = rw (is_space-key_char c h.0) refl

reverse-IsKeyText : (s : Text) → IsKeyText s → IsKeyText (reverse s)
reverse-IsKeyText [] h = tt
reverse-IsKeyText (c ∷ s) h = subst IsKeyText (sym (reverse-cons c s)) (
    All-append (λ c. is_key_char c ≡ true) (reverse s) (c ∷ []) (reverse-IsKeyText s h.1) (h.0, tt))

trim-IsKeyText : (s : Text) → IsKeyText s → trim s ≡ s
unfolding trim
trim-IsKeyText s h =
    rw (trim_start-IsKeyText s h, trim_start-IsKeyText (reverse s) (reverse-IsKeyText s h))
      (reverse-reverse s)

split_pair-append :
    (key rest : Text) → IsKeyText key → split_pair (key ++ (61 ∷ rest)) ≡ some (key, rest)
unfolding split_pair
split_pair-append [] rest h = refl
split_pair-append (c ∷ key) rest h =
    let ne : (c == 61) ≡ false = ground (arith, h.0) in rw (ne, split_pair-append key rest h.1) refl

last_is-append : (q : ℕ) (s : Text) → last_is q (s ++ (q ∷ [])) ≡ true
unfolding last_is
last_is-append q [] = ground arith
last_is-append q (c ∷ []) = ground arith
last_is-append q (c ∷ d ∷ s) = last_is-append q (d ∷ s)

drop_last-append : (q : ℕ) (s : Text) → drop_last (s ++ (q ∷ [])) ≡ s
unfolding drop_last
drop_last-append q [] = refl
drop_last-append q (c ∷ []) = refl
drop_last-append q (c ∷ d ∷ s) = ap (λ t. c ∷ t) (drop_last-append q (d ∷ s))

last_is-cons : (q c : ℕ) (s : Text) → last_is q (c ∷ (s ++ (q ∷ []))) ≡ true
unfolding last_is
last_is-cons q c s = last_is-append q (c ∷ s)

strip_quotes-quoted : (value : Text) → strip_quotes (34 ∷ (value ++ (34 ∷ []))) ≡ value
unfolding strip_quotes
strip_quotes-quoted value =
    let two : leb 2 (length (34 ∷ (value ++ (34 ∷ [])))) ≡ true =
      ground (arith, length-append value (34 ∷ [])) in
    rw (two, last_is-cons 34 34 value) (drop_last-append 34 value)

-- An argument of a valid key, an equals sign and a value in double quotes is read as the key and the
-- value, whatever characters the value holds, equals signs and quotes included; only an empty value is
-- refused.
pub parse_key_value-quoted :
    (key value : Text)
    → is_key key ≡ true
    → parse_key_value (key ++ (61 ∷ 34 ∷ (value ++ (34 ∷ [])))) ≡ pair_of key value
unfolding parse_key_value
parse_key_value-quoted key value h =
    let chars = is_key-IsKeyText key h in
    rw
      (
        split_pair-append key (34 ∷ (value ++ (34 ∷ []))) chars,
        parse_key_value,
        trim-IsKeyText key chars,
        h,
        strip_quotes-quoted value,
      )
      refl
