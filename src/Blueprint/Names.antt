-- ===== src/Blueprint/Names.antt =====
-- Texts of a blueprint: `slugify` of apps/api/src/lib/util.ts, `toMb` of routes/blueprint.ts and
-- `resolveLbTargets` of services/loadbalancer.service.ts.
use your_stack.Common.{
  ℕ, suc, zero, ◌+◌, Bool, false, not, ◌&&◌, ◌||◌, Option, none, some, List, [], ◌∷◌, ◌++◌, ◌==◌,
  leb, any, if◌then◌else◌,
}
use mathlib.Core.List.{reverse}
use your_stack.Common.Text.{Text, codes, eq_text, trim, trim_start, decimal}
use your_stack.Network.{is_blank}
use your_stack.Blueprint.Schema.{Quantity, number, text, Number, whole}

-- The platform's functions: how an id prints, and `Math.round(Number(text) * scale)`.
pub record Platform : Type 0 where
  pub id_text : ℕ → Text
  pub round_number : Text → ℕ → Number

unfoldable pub is_digit : ℕ → Bool
is_digit c = leb 48 c && leb c 57

-- `[a-z0-9]`
unfoldable pub is_slug_char : ℕ → Bool
unfolding is_digit
is_slug_char c = is_digit c || (leb 97 c && leb c 122)

-- `toLowerCase` of one code unit, as far as the result has a letter of the alphabet: besides the
-- capitals these are the Kelvin sign and the capital I with a dot.
unfoldable pub lower : ℕ → Text
lower c =
    if leb 65 c && leb c 90
    then (c + 32) ∷ []
    else (if c == 8490 then 107 ∷ [] else (if c == 304 then 105 ∷ 775 ∷ [] else c ∷ []))

unfoldable pub to_lower_case : Text → Text
unfolding lower
to_lower_case [] = []
to_lower_case (c ∷ s) = lower c ++ to_lower_case s

-- `replace(/[^a-z0-9]+/g, '-')`; the flag tells that the character before was replaced.
unfoldable pub dash : Bool → Text → Text
unfolding is_slug_char
dash in_run [] = []
dash in_run (c ∷ s) =
    let kept = is_slug_char c in
    let rest = dash (not kept) s in if kept then c ∷ rest else (if in_run then rest else 45 ∷ rest)

unfoldable pub drop_dashes : Text → Text
drop_dashes [] = []
drop_dashes (c ∷ s) = if c == 45 then drop_dashes s else c ∷ s

-- `replace(/^-+|-+$/g, '')`
unfoldable pub strip_dashes : Text → Text
unfolding drop_dashes
strip_dashes s = reverse (drop_dashes (reverse (drop_dashes s)))

unfoldable pub take_chars : ℕ → Text → Text
take_chars zero s = []
take_chars (suc n) [] = []
take_chars (suc n) (c ∷ s) = c ∷ take_chars n s

abbrev pub or_item : Text → Text
or_item [] = codes "item"
or_item (c ∷ s) = c ∷ s

unfoldable pub slugify : Text → Text
unfolding to_lower_case dash strip_dashes take_chars
slugify input = or_item (take_chars 48 (strip_dashes (dash false (trim (to_lower_case input)))))

-- `\d*` at the start, and what follows it.
unfoldable pub span_digits : Text → Text × Text
unfolding is_digit
span_digits [] = ([], [])
span_digits (c ∷ s) =
    let rest = span_digits s in if is_digit c then (c ∷ rest.0, rest.1) else ([], c ∷ s)

-- `(?:\.\d+)?`, and what follows it.
unfoldable pub after_point : Text → Text × Text → Text × Text
after_point s ([], rest) = ([], s)
after_point s (d ∷ ds, rest) = (46 ∷ d ∷ ds, rest)

unfoldable pub span_fraction : Text → Text × Text
unfolding after_point span_digits
span_fraction [] = ([], [])
span_fraction (c ∷ s) = if c == 46 then after_point (c ∷ s) (span_digits s) else ([], c ∷ s)

-- `\s*(gb|g|mb|m)?$`, as the factor to megabytes.
unfoldable pub unit_scale : Text → Option ℕ
unfolding to_lower_case
unit_scale s =
    let unit = to_lower_case (trim_start s) in
    if eq_text unit (codes "gb") || eq_text unit (codes "g")
    then some 1024
    else (if eq_text unit (codes "mb") || eq_text unit (codes "m") || is_blank unit
        then some 1
        else none)

module _ (platform : Platform) where
  unfoldable pub scaled : Text → Text × Text → ℕ → Number
  unfolding unit_scale
  scaled digits (fraction, unit) fallback = elim (unit_scale unit) [
    | none ↦ whole fallback
    | some scale ↦ platform.round_number (digits ++ fraction) scale
  ]

  unfoldable pub parse_mb : Text × Text → ℕ → Number
  unfolding scaled span_fraction
  parse_mb ([], rest) fallback = whole fallback
  parse_mb (d ∷ ds, rest) fallback = scaled (d ∷ ds) (span_fraction rest) fallback

  unfoldable pub to_mb : Option Quantity → ℕ → Number
  unfolding parse_mb span_digits
  to_mb none fallback = whole fallback
  to_mb (some (number n)) fallback = n
  to_mb (some (text t)) fallback = parse_mb (span_digits (trim t)) fallback

pub record AppAddress : Type 0 where
  pub app_id : ℕ
  pub port : ℕ

pub record ResolvedTarget : Type 0 where
  pub address : Text
  pub weight : ℕ
  pub app_id : Option ℕ

unfoldable pub app_container_address : Platform → AppAddress → Text
app_container_address platform a =
    codes "yourstack-" ++ (platform.id_text a.app_id ++ (codes ":" ++ decimal a.port))

abbrev pub is_seen : Text → List Text → Bool
is_seen address seen = any (eq_text address) seen

-- The loop over the explicit targets.
unfoldable pub explicit_targets : List Text → List Text → List ResolvedTarget
unfolding is_blank
explicit_targets seen [] = []
explicit_targets seen (raw ∷ raws) =
    let address = trim raw in
    let skipped = is_blank address || is_seen address seen in
    let rest = explicit_targets (if skipped then seen else address ∷ seen) raws in
    if skipped then rest else record { address = address; weight = 1; app_id = none } ∷ rest

-- The loop over the apps, and then the explicit targets.
unfoldable pub app_targets :
    Platform → List Text → List AppAddress → List Text → List ResolvedTarget
unfolding app_container_address explicit_targets
app_targets platform seen [] explicit = explicit_targets seen explicit
app_targets platform seen (a ∷ apps) explicit =
    let address = app_container_address platform a in
    let skipped = is_seen address seen in
    let rest = app_targets platform (if skipped then seen else address ∷ seen) apps explicit in
    if skipped
    then rest
    else record { address = address; weight = 1; app_id = some a.app_id } ∷ rest

unfoldable pub resolve_lb_targets : Platform → List AppAddress → List Text → List ResolvedTarget
unfolding app_targets
resolve_lb_targets platform apps explicit = app_targets platform [] apps explicit
