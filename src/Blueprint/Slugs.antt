-- ===== src/Blueprint/Slugs.antt =====
-- What a slug is made of.
use your_stack.Common.{
  ℕ, zero, suc, ◌≡◌, refl, ◌≤◌, Bool, true, false, ◌||◌, [], ◌∷◌, ◌==◌, length, All, Bool-cases,
  inl, inr, arith, if◌then◌else◌,
}
use mathlib.Core.List.{reverse, reverse_aux}
use your_stack.Common.Text.{Text, trim}
use your_stack.Blueprint.Names.{
  is_slug_char, is_digit, dash, drop_dashes, strip_dashes, take_chars, or_item, to_lower_case,
  slugify,
}

abbrev pub IsSlugText : Text → Type 0
IsSlugText s = All (λ c. (is_slug_char c || c == 45) ≡ true) s

dash-IsSlugText : (in_run : Bool) (s : Text) → IsSlugText (dash in_run s)
unfolding dash
dash-IsSlugText in_run [] = tt
dash-IsSlugText in_run (c ∷ s) = elim (Bool-cases (is_slug_char c)) [
  | inl t ↦ rw t (ground (arith, t), dash-IsSlugText false s)
  | inr t ↦ rw t (elim in_run as (λ b. IsSlugText (if b then dash true s else 45 ∷ dash true s)) [
    | true ↦ dash-IsSlugText true s
    | false ↦ (ground arith, dash-IsSlugText true s)
  ])
]

drop_dashes-IsSlugText : (s : Text) → IsSlugText s → IsSlugText (drop_dashes s)
unfolding drop_dashes
drop_dashes-IsSlugText [] h = tt
drop_dashes-IsSlugText (c ∷ s) h = elim (Bool-cases (c == 45)) [
  | inl t ↦ rw t (drop_dashes-IsSlugText s h.1)
  | inr t ↦ rw t h
]

take_chars-IsSlugText : (n : ℕ) (s : Text) → IsSlugText s → IsSlugText (take_chars n s)
unfolding take_chars
take_chars-IsSlugText zero s h = tt
take_chars-IsSlugText (suc n) [] h = tt
take_chars-IsSlugText (suc n) (c ∷ s) h = (h.0, take_chars-IsSlugText n s h.1)

length-take_chars : (n : ℕ) (s : Text) → length (take_chars n s) ≤ n
unfolding take_chars
length-take_chars zero s = omega arith
length-take_chars (suc n) [] = omega arith
length-take_chars (suc n) (c ∷ s) = omega (arith, length-take_chars n s)

reverse_aux-IsSlugText : (s t : Text) → IsSlugText s → IsSlugText t → IsSlugText (reverse_aux s t)
reverse_aux-IsSlugText [] t hs ht = ht
reverse_aux-IsSlugText (c ∷ s) t hs ht = reverse_aux-IsSlugText s (c ∷ t) hs.1 (hs.0, ht)

strip_dashes-IsSlugText : (s : Text) → IsSlugText s → IsSlugText (strip_dashes s)
unfolding strip_dashes
strip_dashes-IsSlugText s h =
    let front = drop_dashes-IsSlugText s h in
    let back = reverse_aux-IsSlugText (drop_dashes s) [] front tt in
    let trimmed = drop_dashes-IsSlugText (reverse (drop_dashes s)) back in
    reverse_aux-IsSlugText (drop_dashes (reverse (drop_dashes s))) [] trimmed tt

-- The text that stands in for an empty one is such a text of four characters.
or_item-bounds :
    (s : Text)
    → length s ≤ 48
    → IsSlugText s
    → IsSlugText (or_item s) × (1 ≤ length (or_item s)) × (length (or_item s) ≤ 48)
unfolding is_slug_char is_digit
or_item-bounds [] n h = ((refl, (refl, (refl, (refl, tt)))), omega arith, omega arith)
or_item-bounds (c ∷ s) n h = (h, omega arith, n)

-- A slug is a text of 1 to 48 characters, each a small letter, a digit or a dash, whatever the name is.
pub slugify-bounds :
    (name : Text)
    → IsSlugText (slugify name) × (1 ≤ length (slugify name)) × (length (slugify name) ≤ 48)
unfolding slugify
slugify-bounds name =
    let stripped = strip_dashes (dash false (trim (to_lower_case name))) in
    or_item-bounds (take_chars 48 stripped) (length-take_chars 48 stripped) (
      take_chars-IsSlugText 48 stripped (
        strip_dashes-IsSlugText (dash false (trim (to_lower_case name)))
          (dash-IsSlugText false (trim (to_lower_case name)))))
