-- ===== src/Identity/Verify.antt =====
-- safa-core/src/identity.rs: which requests pass the verification.
use ama.Prelude.{
  ℕ, ◌+◌, ◌≤◌, ◌≡◌, refl, ◌↔◌, String, Option, none, some, List, arith, parse_u64, Option-cases,
  inl, inr,
}
use ama.Errors.{ok}
use ama.Audit.{as_bytes}
use ama.Identity.{
  Crypto, timestamp_tolerance_secs, build_signing_message, compute_signature, verify_identity,
}

-- The request carries a timestamp within the tolerance, and the code of the message under the secret.
pub record IsAuthentic (c : Crypto) (secret agent_id : String)
    (timestamp_header signature_header : Option String) (body : List ℕ) (now_secs : ℕ)
    : Type 0 where
  pub timestamp_str : String
  pub timestamp : ℕ
  pub signature_hex : String
  pub stamped : timestamp_header ≡ some timestamp_str
  pub parsed : parse_u64 timestamp_str ≡ some timestamp
  pub not_early : now_secs ≤ timestamp + timestamp_tolerance_secs
  pub not_late : timestamp ≤ now_secs + timestamp_tolerance_secs
  pub signed : signature_header ≡ some signature_hex
  pub code :
      c.hex_decode signature_hex
      ≡ some (
          c.hmac
            (as_bytes secret)
            (as_bytes (build_signing_message agent_id timestamp_str (c.sha256_hex body))))

module _ (c : Crypto) (secret agent_id : String) (body : List ℕ) (now_secs : ℕ) where
  IsAuthentic-of_ok :
      (timestamp_header signature_header : Option String)
      → verify_identity c secret agent_id timestamp_header signature_header body now_secs ≡ ok tt
      → IsAuthentic c secret agent_id timestamp_header signature_header body now_secs
  unfolding verify_identity
  IsAuthentic-of_ok none signature_header h = cc
  IsAuthentic-of_ok (some t) none h = absurd (ground arith)
  IsAuthentic-of_ok (some t) (some s) h = elim (Option-cases (parse_u64 t)) [
    | inl bad ↦ absurd (ground arith)
    | inr (n, parsed) ↦ elim (Option-cases (c.hex_decode s)) [
      | inl bad ↦ absurd (ground arith)
      | inr (bytes, decoded) ↦
          let message = as_bytes (build_signing_message agent_id t (c.sha256_hex body)) in
          record {
            timestamp_str = t;
            timestamp = n;
            signature_hex = s;
            stamped = refl;
            parsed = parsed;
            not_early = ground arith;
            not_late = ground arith;
            signed = refl;
            code = ground (arith, c.verify_slice_iff (as_bytes secret) message bytes);
          }
    ]
  ]

  ok_of_authentic :
      (timestamp_header signature_header : Option String)
      → IsAuthentic c secret agent_id timestamp_header signature_header body now_secs
      → verify_identity c secret agent_id timestamp_header signature_header body now_secs ≡ ok tt
  unfolding verify_identity
  ok_of_authentic timestamp_header signature_header a =
      let message = as_bytes (build_signing_message agent_id a.timestamp_str (c.sha256_hex body)) in
      ground
        (arith, a, c.verify_slice_iff (as_bytes secret) message (c.hmac (as_bytes secret) message))

  -- Verification succeeds exactly for a request with a parseable timestamp within the tolerance on either
  -- side and the code of its own agent id, timestamp and body under the secret.
  pub verify_identity_iff :
      (timestamp_header signature_header : Option String)
      → (verify_identity c secret agent_id timestamp_header signature_header body now_secs ≡ ok tt)
        ↔ IsAuthentic c secret agent_id timestamp_header signature_header body now_secs
  verify_identity_iff timestamp_header signature_header = (
    IsAuthentic-of_ok timestamp_header signature_header,
    ok_of_authentic timestamp_header signature_header,
  )

  -- What `compute_signature` signs is accepted while its timestamp is within the tolerance.
  pub verify-compute :
      (timestamp_str : String) (timestamp : ℕ)
      → parse_u64 timestamp_str ≡ some timestamp
      → now_secs ≤ timestamp + timestamp_tolerance_secs
      → timestamp ≤ now_secs + timestamp_tolerance_secs
      → verify_identity c secret agent_id
          (some timestamp_str)
          (some (compute_signature c secret agent_id timestamp_str body))
          body
          now_secs
        ≡ ok tt
  unfolding compute_signature
  verify-compute t n parsed early late = ok_of_authentic (some t) _ (record {
    timestamp_str = t;
    timestamp = n;
    signature_hex = compute_signature c secret agent_id t body;
    stamped = refl;
    parsed = parsed;
    not_early = early;
    not_late = late;
    signed = refl;
    code = c.hex_decode-encode _;
  })
