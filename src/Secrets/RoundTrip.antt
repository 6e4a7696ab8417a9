-- ===== src/Secrets/RoundTrip.antt =====
-- Reading back what the encryptor wrote.
use your_stack.Common.{◌≡◌, ◌≢◌, refl, Option, some, [], ◌∷◌, ◌++◌, All, arith}
use your_stack.Common.Text.{Text, eq_text}
use your_stack.Secrets.Encryption.{split_colon, encrypt, decrypt}

abbrev pub HasNoColon : Text → Type 0
HasNoColon = All (λ c. c ≢ 58)

split_colon-last : (s : Text) → HasNoColon s → split_colon s ≡ s ∷ []
unfolding split_colon
split_colon-last [] h = refl
split_colon-last (c ∷ s) h = ground (arith, h.0, split_colon-last s h.1)

split_colon-append :
    (s rest : Text) → HasNoColon s → split_colon (s ++ (58 ∷ rest)) ≡ s ∷ split_colon rest
unfolding split_colon
split_colon-append [] rest h = refl
split_colon-append (c ∷ s) rest h = ground (arith, h.0, split_colon-append s rest h.1)

-- A secret that was encrypted under a key decrypts under that key to the plaintext: for a cipher that is
-- inverted under the same key, vector and tag, and hex texts that read back and hold no colon.
pub decrypt-encrypt :
    {Bytes : Type 0} (to_hex : Bytes → Text) (from_hex : Text → Bytes)
    (seal : Bytes → Bytes → Text → Bytes × Bytes)
    (unseal : Bytes → Bytes → Bytes → Bytes → Option Text) (key iv : Bytes) (plaintext : Text)
    → ((b : Bytes) → from_hex (to_hex b) ≡ b)
    → ((b : Bytes) → HasNoColon (to_hex b))
    → ((k v : Bytes) (p : Text) → unseal k v (seal k v p).1 (seal k v p).0 ≡ some p)
    → decrypt to_hex from_hex unseal key (encrypt to_hex from_hex seal key iv plaintext)
      ≡ some plaintext
unfolding decrypt encrypt eq_text
decrypt-encrypt to_hex from_hex seal unseal key iv plaintext reads no_colon inverts =
    let sealed = seal key iv plaintext in
    rw
      (
        split_colon-append (to_hex iv) (to_hex sealed.1 ++ (58 ∷ to_hex sealed.0)) (no_colon iv),
        split_colon-append (to_hex sealed.1) (to_hex sealed.0) (no_colon sealed.1),
        split_colon-last (to_hex sealed.0) (no_colon sealed.0),
        reads iv,
        reads sealed.1,
        reads sealed.0,
      )
      (inverts key iv plaintext)
