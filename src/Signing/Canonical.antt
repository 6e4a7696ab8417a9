-- ===== src/Signing/Canonical.antt =====
-- packages/shared/src/canonical.ts. A number is the text that JSON.stringify prints for it. An object
-- lists its properties in the order of their enumeration, and none of its keys is an array index.
use your_stack.Common.{
  ℕ, ◌+◌, ◌/◌, ◌%◌, Bool, true, false, [], ◌∷◌, ◌++◌, ◌==◌, ◌&&◌, ◌||◌, ltb, if◌then◌else◌,
}
use your_stack.Common.Text.{Text, codes}

mutual
  pub data Json : Type 0 where
    null : Json
    bool : Bool → Json
    num : Text → Json
    str : Text → Json
    arr : Items → Json
    obj : Fields → Json

  pub data Items : Type 0 where
    nil : Items
    cons : Json → Items → Items

  pub data Fields : Type 0 where
    end : Fields
    field : Text → Json → Fields → Fields

-- The order of `sort()`, by code units.
unfoldable pub lt_text : Text → Text → Bool
lt_text [] [] = false
lt_text [] (b ∷ t) = true
lt_text (a ∷ s) [] = false
lt_text (a ∷ s) (b ∷ t) = let rest = lt_text s t in ltb a b || (a == b && rest)

unfoldable pub insert_field : Text → Json → Fields → Fields
unfolding lt_text
insert_field k v end = field k v end
insert_field k v (field j w fs) =
    let rest = insert_field k v fs in
    if lt_text j k then field j w rest else field k v (field j w fs)

-- `sortValue`
unfoldable mutual
  unfolding insert_field

  pub sort_value : Json → Json
  sort_value (arr xs) = arr (sort_items xs)
  sort_value (obj fs) = obj (sort_fields fs)
  sort_value v = v

  pub sort_items : Items → Items
  sort_items nil = nil
  sort_items (cons x xs) = cons (sort_value x) (sort_items xs)

  pub sort_fields : Fields → Fields
  sort_fields end = end
  sort_fields (field k v fs) = insert_field k (sort_value v) (sort_fields fs)

abbrev pub hex_digit : ℕ → ℕ
hex_digit d = if ltb d 10 then d + 48 else d + 87

abbrev pub unicode_escape : ℕ → Text
unicode_escape c =
    codes "\\u"
    ++ (hex_digit (c / 4096 % 16)
        ∷ hex_digit (c / 256 % 16)
        ∷ hex_digit (c / 16 % 16)
        ∷ hex_digit (c % 16)
        ∷ [])

-- A character within a JSON string. Surrogates are taken to stand in pairs.
abbrev pub escape : ℕ → Text
escape c =
    if c == 34
    then codes "\\\""
    else if c == 92
    then codes "\\\\"
    else if c == 8
    then codes "\\b"
    else if c == 9
    then codes "\\t"
    else if c == 10
    then codes "\\n"
    else if c == 12
    then codes "\\f"
    else if c == 13
    then codes "\\r"
    else if ltb c 32
    then unicode_escape c
    else c ∷ []

unfoldable pub escaped : Text → Text
escaped [] = []
escaped (c ∷ s) = escape c ++ escaped s

unfoldable pub quoted : Text → Text
unfolding escaped
quoted s = 34 ∷ (escaped s ++ (34 ∷ []))

-- `JSON.stringify`
unfoldable mutual
  unfolding quoted

  pub stringify : Json → Text
  stringify null = codes "null"
  stringify (bool true) = codes "true"
  stringify (bool false) = codes "false"
  stringify (num t) = t
  stringify (str s) = quoted s
  stringify (arr xs) = codes "[" ++ (stringify_items xs ++ codes "]")
  stringify (obj fs) = codes "{" ++ (stringify_fields fs ++ codes "}")

  pub stringify_items : Items → Text
  stringify_items nil = []
  stringify_items (cons x nil) = stringify x
  stringify_items (cons x (cons y ys)) = stringify x ++ (codes "," ++ stringify_items (cons y ys))

  pub stringify_fields : Fields → Text
  stringify_fields end = []
  stringify_fields (field k v end) = quoted k ++ (codes ":" ++ stringify v)
  stringify_fields (field k v (field j w fs)) =
      quoted k ++ (codes ":" ++ (stringify v ++ (codes "," ++ stringify_fields (field j w fs))))

unfoldable pub canonical_json : Json → Text
unfolding stringify sort_value
canonical_json v = stringify (sort_value v)
