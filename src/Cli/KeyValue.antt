-- ===== src/Cli/KeyValue.antt =====
-- `parseKeyValue` of apps/cli/src/lib/env.ts. An error is told by its kind and the key it names.
use your_stack.Common.{
  ℕ, Bool, true, false, Option, none, some, [], ◌∷◌, ◌==◌, ◌&&◌, ◌||◌, leb, length, if◌then◌else◌,
}
use your_stack.Common.Text.{Text, trim}

pub record EnvPair : Type 0 where
  pub key : Text
  pub value : Text

pub data CliError : Type 0 where
  no_separator : CliError
  invalid_key : Text → CliError
  empty_value : Text → CliError

pub data Parsed : Type 0 where
  pair : EnvPair → Parsed
  refused : CliError → Parsed

abbrev pub with_first : ℕ → Option (Text × Text) → Option (Text × Text)
with_first c none = none
with_first c (some (key, value)) = some (c ∷ key, value)

-- What stands before and after the first `=`.
unfoldable pub split_pair : Text → Option (Text × Text)
split_pair [] = none
split_pair (c ∷ s) = let rest = split_pair s in if c == 61 then some ([], s) else with_first c rest

abbrev pub is_upper : ℕ → Bool
is_upper c = (leb 65 c && leb c 90) || c == 95

abbrev pub is_key_char : ℕ → Bool
is_key_char c = is_upper c || (leb 48 c && leb c 57)

unfoldable pub all_key_chars : Text → Bool
all_key_chars [] = true
all_key_chars (c ∷ s) = is_key_char c && all_key_chars s

-- `KEY_RE`
unfoldable pub is_key : Text → Bool
unfolding all_key_chars
is_key [] = false
is_key (c ∷ s) = is_upper c && all_key_chars s

abbrev pub first_is : ℕ → Text → Bool
first_is q [] = false
first_is q (c ∷ s) = c == q

unfoldable pub last_is : ℕ → Text → Bool
last_is q [] = false
last_is q (c ∷ []) = c == q
last_is q (c ∷ d ∷ s) = last_is q (d ∷ s)

unfoldable pub drop_last : Text → Text
drop_last [] = []
drop_last (c ∷ []) = []
drop_last (c ∷ d ∷ s) = c ∷ drop_last (d ∷ s)

-- `slice(1, -1)`
abbrev pub inner : Text → Text
unfolding drop_last
inner [] = []
inner (c ∷ s) = drop_last s

-- Without a pair of quotes around it.
unfoldable pub strip_quotes : Text → Text
unfolding last_is drop_last
strip_quotes value =
    if leb 2 (length value)
      && ((first_is 34 value && last_is 34 value) || (first_is 39 value && last_is 39 value))
    then inner value
    else value

abbrev pub pair_of : Text → Text → Parsed
pair_of key [] = refused (empty_value key)
pair_of key (c ∷ s) = pair (record { key = key; value = c ∷ s })

unfoldable pub parse_key_value : Text → Parsed
unfolding split_pair is_key strip_quotes
parse_key_value input = elim (split_pair input) [
  | none ↦ refused no_separator
  | some parts ↦
      if is_key (trim parts.0)
      then pair_of (trim parts.0) (strip_quotes parts.1)
      else refused (invalid_key (trim parts.0))
]
