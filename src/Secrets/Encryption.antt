-- ===== src/Secrets/Encryption.antt =====
-- packages/security/src/encryption.ts. What node:crypto and Buffer compute are parameters: the hex text
-- of bytes and its reading, the cipher (the ciphertext and the authentication tag) and its inverse,
-- which throws where the tag does not match.
use your_stack.Common.{
  Bool, true, some, leb, ◌&&◌, ◌||◌, length, ℕ, Option, none, List, [], ◌∷◌, ◌++◌, ◌==◌,
  if◌then◌else◌,
}
use your_stack.Common.Text.{Text, codes, eq_text}

-- `split(':')`
unfoldable pub in_head : ℕ → List Text → List Text
in_head c [] = (c ∷ []) ∷ []
in_head c (part ∷ parts) = (c ∷ part) ∷ parts

unfoldable pub split_colon : Text → List Text
unfolding in_head
split_colon [] = [] ∷ []
split_colon (c ∷ s) = let rest = split_colon s in if c == 58 then [] ∷ rest else in_head c rest

abbrev pub is_hex_digit : ℕ → Bool
is_hex_digit c = (leb 48 c && leb c 57) || (leb 97 c && leb c 102) || (leb 65 c && leb c 70)

unfoldable pub is_hex : Text → Bool
is_hex [] = true
is_hex (c ∷ s) = is_hex_digit c && is_hex s

-- The constructor: the bytes of the key, or none where it throws.
unfoldable pub new_encryptor : {Bytes : Type 0} → (Text → Bytes) → Text → Option Bytes
unfolding is_hex
new_encryptor from_hex hex_key =
    if is_hex hex_key && length hex_key == 64 then some (from_hex hex_key) else none

module _ {Bytes : Type 0} (to_hex : Bytes → Text) (from_hex : Text → Bytes) where
  -- `encrypt`, with the random initialization vector as an argument.
  unfoldable pub encrypt : (Bytes → Bytes → Text → Bytes × Bytes) → Bytes → Bytes → Text → Text
  encrypt seal key iv plaintext =
      let sealed = seal key iv plaintext in
      codes "v1:" ++ (to_hex iv ++ (58 ∷ (to_hex sealed.1 ++ (58 ∷ to_hex sealed.0))))

  -- `decrypt` after the split; none where it throws.
  unfoldable pub decrypt_parts :
      (Bytes → Bytes → Bytes → Bytes → Option Text) → Bytes → List Text → Option Text
  decrypt_parts unseal key (version ∷ iv_hex ∷ tag_hex ∷ ct_hex ∷ []) =
      if eq_text version (codes "v1")
      then unseal key (from_hex iv_hex) (from_hex tag_hex) (from_hex ct_hex)
      else none
  decrypt_parts unseal key _ = none

  unfoldable pub decrypt :
      (Bytes → Bytes → Bytes → Bytes → Option Text) → Bytes → Text → Option Text
  unfolding decrypt_parts split_colon
  decrypt unseal key payload = decrypt_parts unseal key (split_colon payload)
