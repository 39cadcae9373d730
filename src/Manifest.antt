-- ===== src/Manifest.antt =====
-- safa-core/src/manifest.rs: the public manifest of an agent. `BTreeMap` is a list in ascending order
-- of its keys.
pub mod Order
pub mod Stable
use Prim.Native.Char.{code}
use ama.Prelude.{
  ℕ, String, Bool, true, false, Option, none, some, List, [], ◌∷◌, HashMap, ltb, ◌==◌, nat_beq,
  if◌then◌else◌, string_eq,
}
use ama.Config.{AgentConfig, DomainPolicy}
use ama.Audit.{as_bytes}

pub record DomainCapability : Type 0 where
  pub enabled : Bool
  pub max_magnitude_per_action : ℕ

abbrev pub BTreeMap : Type 0 → Type 0
BTreeMap V = List (String × V)

-- `str::cmp`, by code points, which UTF-8 orders as its bytes.
unfoldable pub before : String → String → Bool
before String.[] String.[] = false
before String.[] (String.◌∷◌ d t) = true
before (String.◌∷◌ c s) String.[] = false
before (String.◌∷◌ c s) (String.◌∷◌ d t) =
    let rest = before s t in if nat_beq (code c) (code d) then rest else ltb (code c) (code d)

unfoldable pub insert_sorted : {V : Type 0} → String → V → BTreeMap V → BTreeMap V
unfolding before
insert_sorted k v [] = (k, v) ∷ []
insert_sorted k v ((j, w) ∷ m) =
    let rest = insert_sorted k v m in
    if k == j then (k, v) ∷ m else if before k j then (k, v) ∷ (j, w) ∷ m else (j, w) ∷ rest

unfoldable pub capabilities : HashMap String DomainPolicy → BTreeMap DomainCapability
unfolding insert_sorted
capabilities [] = []
capabilities ((domain_id, policy) ∷ policies) =
    insert_sorted domain_id
      (record {
        enabled = policy.enabled;
        max_magnitude_per_action = policy.max_magnitude_per_action;
      })
      (capabilities policies)

pub record ManifestForHashing : Type 0 where
  pub schema_version : String
  pub agent_id : String
  pub identity_bound : Bool
  pub max_capacity : ℕ
  pub rate_limit_per_window : ℕ
  pub rate_limit_window_secs : ℕ
  pub domains : BTreeMap DomainCapability

pub record PublicManifest : Type 0 where
  pub schema_version : String
  pub agent_id : String
  pub identity_bound : Bool
  pub max_capacity : ℕ
  pub rate_limit_per_window : ℕ
  pub rate_limit_window_secs : ℕ
  pub domains : BTreeMap DomainCapability
  pub manifest_hash : String

unfoldable pub is_some {ℓ} : {A : Type ℓ} → Option A → Bool
is_some none = false
is_some (some a) = true

unfoldable pub hashable : AgentConfig → ManifestForHashing
unfolding capabilities is_some
hashable config = record {
  schema_version = "safa-manifest-v1";
  agent_id = config.agent_id;
  identity_bound = is_some config.secret;
  max_capacity = config.max_capacity;
  rate_limit_per_window = config.rate_limit_per_window;
  rate_limit_window_secs = config.rate_limit_window_secs;
  domains = capabilities config.domain_policies;
}

-- The functions of `serde_json` and `sha2` are arguments.
unfoldable pub from_agent_config :
    (ManifestForHashing → String) → (List ℕ → String) → AgentConfig → PublicManifest
unfolding hashable
from_agent_config to_string sha256_hex config =
    let h = hashable config in
    record {
      schema_version = h.schema_version;
      agent_id = h.agent_id;
      identity_bound = h.identity_bound;
      max_capacity = h.max_capacity;
      rate_limit_per_window = h.rate_limit_per_window;
      rate_limit_window_secs = h.rate_limit_window_secs;
      domains = h.domains;
      manifest_hash = sha256_hex (as_bytes (to_string h));
    }

unfoldable pub hash : PublicManifest → String
hash m = m.manifest_hash
