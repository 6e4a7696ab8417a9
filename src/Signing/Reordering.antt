-- ===== src/Signing/Reordering.antt =====
-- The order in which an object's properties stand changes neither its canonical form nor a signature.
use your_stack.Common.{
  ℕ, ◌≡◌, ◌≢◌, refl, sym, ◌∙◌, ap, true, false, List, ◌==◌, ==_self, not, length, arith,
  if◌then◌else◌,
}
use your_stack.Common.Text.{Text, eq_text, eq_text_iff}
use your_stack.Signing.Canonical.{
  Json, Items, Fields, arr, obj, nil, cons, end, field, insert_field, sort_value, sort_items,
  sort_fields, canonical_json,
}
use your_stack.Signing.KeyOrder.{lt_text_asym, lt_text_trans, lt_text_total}
use your_stack.Signing.Signature.{
  SignableCommand, command_value, sign_command, verify_command_signature,
}

-- The second value is the first with the properties of its objects in another order, at any depth.
mutual
  pub data Reordered : Json → Json → Type 0 where
    same : {v : Json} → Reordered v v
    in_array : {xs ys : Items} → ReorderedItems xs ys → Reordered (arr xs) (arr ys)
    in_object : {fs gs : Fields} → ReorderedFields fs gs → Reordered (obj fs) (obj gs)

  pub data ReorderedItems : Items → Items → Type 0 where
    no_item : ReorderedItems nil nil
    item :
        {v w : Json} {xs ys : Items}
        → Reordered v w
        → ReorderedItems xs ys
        → ReorderedItems (cons v xs) (cons w ys)

  pub data ReorderedFields : Fields → Fields → Type 0 where
    no_field : ReorderedFields end end
    keep :
        {k : Text} {v w : Json} {fs gs : Fields}
        → Reordered v w
        → ReorderedFields fs gs
        → ReorderedFields (field k v fs) (field k w gs)
    swap :
        {k j : Text} {v w : Json} {fs : Fields}
        → k ≢ j
        → ReorderedFields (field k v (field j w fs)) (field j w (field k v fs))
    both :
        {fs gs hs : Fields} → ReorderedFields fs gs → ReorderedFields gs hs → ReorderedFields fs hs

insert_field_comm :
    (k j : Text) (v w : Json) (fs : Fields)
    → k ≢ j
    → insert_field k v (insert_field j w fs) ≡ insert_field j w (insert_field k v fs)
unfolding insert_field
insert_field_comm k j v w end ne =
    ground (arith, ne, lt_text_asym k j, lt_text_asym j k, lt_text_total k j)
insert_field_comm k j v w (field h u fs) ne = ground (
  arith,
  ne,
  insert_field_comm k j v w fs ne,
  lt_text_asym k j,
  lt_text_asym j k,
  lt_text_total k j,
  lt_text_trans h k j,
  lt_text_trans h j k,
  lt_text_trans j h k,
)

mutual
  unfolding sort_value

  sort_value-same : {v w : Json} → Reordered v w → sort_value v ≡ sort_value w
  sort_value-same same = refl
  sort_value-same (in_array h) = ap arr (sort_items-same h)
  sort_value-same (in_object h) = ap obj (sort_fields-same h)

  sort_items-same : {xs ys : Items} → ReorderedItems xs ys → sort_items xs ≡ sort_items ys
  sort_items-same no_item = refl
  sort_items-same (item h t) = rw (sort_value-same h, sort_items-same t) refl

  sort_fields-same : {fs gs : Fields} → ReorderedFields fs gs → sort_fields fs ≡ sort_fields gs
  sort_fields-same no_field = refl
  sort_fields-same (keep h t) = rw (sort_value-same h, sort_fields-same t) refl
  sort_fields-same (swap {k} {j} {v} {w} {fs} ne) =
      insert_field_comm k j (sort_value v) (sort_value w) (sort_fields fs) ne
  sort_fields-same (both h t) = sort_fields-same h ∙ sort_fields-same t

-- Two values that differ only in the order of their objects' properties have one canonical text.
pub canonical_json-Reordered : (v w : Json) → Reordered v w → canonical_json v ≡ canonical_json w
unfolding canonical_json
canonical_json-Reordered v w h = rw (sort_value-same h) refl

-- The comparison of two digests of one text.
agrees :
    (digest : Text → List ℕ) {a b : Text}
    → a ≡ b
    → (if not (length (digest a) == length (digest b))
        then false
        else eq_text (digest a) (digest b))
      ≡ true
agrees digest {a} {b} e =
    rw (e, ==_self (length (digest b))) ((eq_text_iff (digest b) (digest b)).1 refl)

-- A command verifies against its own signature under the key, also when the properties of its payload
-- have been reordered since, as a database column of JSON does, whatever digest is used.
pub verify_command_signature-sign_command :
    (hmac : Text → Text → Text) (from_hex : Text → List ℕ) (command : SignableCommand)
    (stored : Json) (hex_key : Text)
    → Reordered command.payload stored
    → verify_command_signature hmac from_hex
        (record command { payload = stored })
        (sign_command hmac from_hex command hex_key)
        hex_key
      ≡ true
unfolding verify_command_signature sign_command
verify_command_signature-sign_command hmac from_hex command stored hex_key h =
    let sent = command_value command in
    let read = command_value (record command { payload = stored }) in
    let same_text : canonical_json sent ≡ canonical_json read =
      canonical_json-Reordered sent read
        (in_object (keep same (keep same (keep h (keep same (keep same no_field)))))) in
    agrees (λ t. from_hex (hmac hex_key t)) (sym same_text)
