-- ===== src/Tests/Values.antt =====
-- safa-core/src/newtypes.rs, identity.rs and audit.rs on small values.
use ama.Prelude.{
  ◌≤◌, ◌≡◌, ◌↔◌, refl, String, some, [], ◌∷◌, arith, string_eq, parse_u64, contains_char,
  starts_with, split,
}
use ama.Errors.{ok}
use ama.Schema.{validate_magnitude, validate_magnitude_iff}
use ama.Newtypes.Url.{allowlisted_url}
use ama.Newtypes.Url.Glob.{IsAllowed, allowlisted_url_iff}
use ama.Newtypes.Path.{
  WorkspacePath, new_with_agent, effective_root, check_relative, resolve, components,
}
use ama.Newtypes.Path.Confined.{IsConfined, new_with_agent-IsConfined}
use ama.Identity.{compute_signature, verify_identity}
use ama.Identity.Verify.{IsAuthentic, verify_identity_iff, verify-compute}
use ama.Identity.Message.{build_signing_message-injective}
use ama.Tests.Fixtures.{crypto, files, config}

validate_magnitude_iff_example : (validate_magnitude 1000 ≡ ok tt) ↔ ((1 ≤ 1000) × (1000 ≤ 1000))
validate_magnitude_iff_example = validate_magnitude_iff 1000

allowlisted_url_iff_example :
    (allowlisted_url "https://a.org/x" config.allowlist ≡ ok (record { url = "https://a.org/x" }))
    ↔ IsAllowed "https://a.org/x" config.allowlist
allowlisted_url_iff_example = allowlisted_url_iff "https://a.org/x" config.allowlist

abbrev written : String → WorkspacePath
written agent = record { canonical = "w" ∷ agent ∷ "a" ∷ "b" ∷ []; relative = "a/b" }

new_with_agent-IsConfined_example :
    IsConfined files (effective_root ("w" ∷ []) (some "ann")) "a/b" (written "ann")
unfolding new_with_agent check_relative starts_with contains_char split resolve effective_root
    components
new_with_agent-IsConfined_example =
    new_with_agent-IsConfined files "a/b" ("w" ∷ []) (some "ann") (written "ann") refl

verify_identity_iff_example :
    (verify_identity crypto "s" "bob" (some "990") (some "a.a.") (1 ∷ []) 1000 ≡ ok tt)
    ↔ IsAuthentic crypto "s" "bob" (some "990") (some "a.a.") (1 ∷ []) 1000
verify_identity_iff_example =
    verify_identity_iff crypto "s" "bob" (1 ∷ []) 1000 (some "990") (some "a.a.")

verify-compute_example :
    verify_identity crypto "s" "bob"
      (some "990")
      (some (compute_signature crypto "s" "bob" "990" (1 ∷ [])))
      (1 ∷ [])
      1000
    ≡ ok tt
unfolding parse_u64
verify-compute_example =
    verify-compute crypto "s" "bob" (1 ∷ []) 1000 "990" 990 refl (omega arith) (omega arith)

build_signing_message-injective_example :
    (◌≡◌ {A = String} "ann" "ann") × (◌≡◌ {A = String} "12" "12") × (◌≡◌ {A = String} "ff" "ff")
unfolding parse_u64 contains_char
build_signing_message-injective_example =
    build_signing_message-injective "ann" "ann" "12" "12" "ff" "ff" 12 12 refl refl refl refl refl
