-- ===== src/Identity.antt =====
-- safa-core/src/identity.rs: requests signed with HMAC-SHA256 under an agent's secret.
pub mod Verify
pub mod Message
use Prim.Native.String.{◌++◌}
use ama.Prelude.{
  ℕ, ◌-◌, ◌≡◌, ◌↔◌, String, Bool, true, Option, none, some, List, ltb, not, if◌then◌else◌,
  parse_u64, to_string,
}
use ama.Errors.{Result, ok, err, ◌>>=◌, ◌>>◌, ok_or, fail_if}
use ama.Audit.{as_bytes}

-- The crates `sha2`, `hmac` and `hex`, as far as the code relies on them: what was encoded can be
-- decoded, and `verify_slice` accepts exactly the code of the message.
pub record Crypto : Type 0 where
  pub sha256_hex : List ℕ → String
  pub hmac : List ℕ → List ℕ → List ℕ
  pub verify_slice : List ℕ → List ℕ → List ℕ → Bool
  pub hex_encode : List ℕ → String
  pub hex_decode : String → Option (List ℕ)
  pub hex_decode-encode : (bytes : List ℕ) → hex_decode (hex_encode bytes) ≡ some bytes
  pub verify_slice_iff :
      (key message code : List ℕ)
      → (verify_slice key message code ≡ true) ↔ (code ≡ hmac key message)

abbrev pub timestamp_tolerance_secs : ℕ
timestamp_tolerance_secs = 300

pub data IdentityError : Type 0 where
  missing_timestamp invalid_timestamp expired_timestamp : IdentityError
  missing_signature invalid_signature_format signature_mismatch : IdentityError

-- The `Display` of an error.
unfoldable pub display : IdentityError → String
display missing_timestamp = "missing X-Agent-Timestamp header"
display invalid_timestamp = "X-Agent-Timestamp is not a valid unix timestamp"
display expired_timestamp =
    "X-Agent-Timestamp outside acceptable window (+-"
    ++ (to_string timestamp_tolerance_secs ++ "s)")
display missing_signature = "missing X-Agent-Signature header"
display invalid_signature_format = "X-Agent-Signature is not valid hex"
display signature_mismatch = "HMAC signature verification failed"

unfoldable pub body_hash : Crypto → List ℕ → String
body_hash c body = c.sha256_hex body

unfoldable pub build_signing_message : String → String → String → String
build_signing_message agent_id timestamp body_sha256 =
    agent_id ++ ("." ++ (timestamp ++ ("." ++ body_sha256)))

unfoldable pub compute_signature : Crypto → String → String → String → List ℕ → String
unfolding body_hash
compute_signature c secret agent_id timestamp body = c.hex_encode (
    c.hmac (as_bytes secret)
      (as_bytes (build_signing_message agent_id timestamp (body_hash c body))))

-- `u64::abs_diff`
unfoldable pub abs_diff : ℕ → ℕ → ℕ
abs_diff a b = if ltb a b then b - a else a - b

unfoldable pub verify_identity :
    Crypto
    → String
    → String
    → Option String
    → Option String
    → List ℕ
    → ℕ
    → Result IdentityError (Unit {0})
unfolding body_hash abs_diff
verify_identity c secret agent_id timestamp_header signature_header body now_secs = do
  timestamp_str ← ok_or timestamp_header missing_timestamp
  timestamp ← ok_or (parse_u64 timestamp_str) invalid_timestamp
  fail_if (ltb timestamp_tolerance_secs (abs_diff now_secs timestamp)) expired_timestamp
  signature_hex ← ok_or signature_header missing_signature
  provided_sig ← ok_or (c.hex_decode signature_hex) invalid_signature_format
  let message = build_signing_message agent_id timestamp_str (body_hash c body)
  fail_if (not (c.verify_slice (as_bytes secret) (as_bytes message) provided_sig))
      signature_mismatch
