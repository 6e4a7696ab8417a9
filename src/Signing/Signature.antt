-- ===== src/Signing/Signature.antt =====
-- packages/security/src/signing.ts. What node:crypto and Buffer compute are parameters: the digest of
-- a message under a key, in hex, and the bytes of a hex text.
use your_stack.Common.{
  [], ◌∷◌, ℕ, Option, none, some, ◌++◌, Bool, false, List, ◌==◌, not, length, if◌then◌else◌,
}
use your_stack.Common.Text.{Text, codes, eq_text}
use your_stack.Signing.Canonical.{Json, num, str, obj, end, field, canonical_json}

pub record SignableCommand : Type 0 where
  pub id : Text
  pub node_id : Text
  pub payload : Json
  pub timeout_ms : Text
  pub issued_at : Text

-- The command as the value that is serialized.
abbrev pub command_value : SignableCommand → Json
command_value c = obj (
    field (codes "id") (str c.id) (
      field (codes "nodeId") (str c.node_id) (
        field (codes "payload") c.payload (
          field (codes "timeoutMs") (num c.timeout_ms)
            (field (codes "issuedAt") (str c.issued_at) end)))))

module _ (hmac : Text → Text → Text) (from_hex : Text → List ℕ) where
  unfoldable pub sign_command : SignableCommand → Text → Text
  unfolding canonical_json
  sign_command command hex_key = hmac hex_key (canonical_json (command_value command))

  unfoldable pub verify_command_signature : SignableCommand → Text → Text → Bool
  unfolding sign_command
  verify_command_signature command signature hex_key =
      let a = from_hex (sign_command command hex_key) in
      let b = from_hex signature in if not (length a == length b) then false else eq_text a b

-- `verifyGithubWebhook`, with the digest of a body under a secret in hex and the bytes of a text.
unfoldable pub verify_github_webhook :
    (Text → Text → Text) → (Text → List ℕ) → Text → Option Text → Text → Bool
verify_github_webhook hmac bytes raw_body none secret = false
verify_github_webhook hmac bytes raw_body (some []) secret = false
verify_github_webhook hmac bytes raw_body (some (c ∷ signature)) secret =
    let a = bytes (codes "sha256=" ++ hmac secret raw_body) in
    let b = bytes (c ∷ signature) in if not (length a == length b) then false else eq_text a b
