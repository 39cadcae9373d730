-- ===== src/Manifest/Stable.antt =====
-- safa-core/src/manifest.rs: the manifest depends on nothing but what it publishes.
use ama.Prelude.{
  ℕ, ◌≡◌, refl, String, Option, none, some, List, [], ◌∷◌, arith, HashMap, get, string_eq,
}
use ama.Config.{AgentConfig, DomainPolicy}
use ama.Manifest.{DomainCapability, capabilities, ManifestForHashing, is_some, from_agent_config}
use ama.Manifest.Order.{Sorted, insert-Sorted, get-insert_sorted, Sorted-unique}

abbrev capability : DomainPolicy → DomainCapability
capability policy = record {
  enabled = policy.enabled;
  max_magnitude_per_action = policy.max_magnitude_per_action;
}

abbrev published : Option DomainPolicy → Option DomainCapability
published none = none
published (some policy) = some (capability policy)

capabilities-Sorted : (m : HashMap String DomainPolicy) → Sorted (capabilities m)
unfolding capabilities
capabilities-Sorted [] = tt
capabilities-Sorted ((d, p) ∷ m) =
    insert-Sorted d (capability p) (capabilities m) (capabilities-Sorted m)

get-capabilities :
    (d : String) (m : HashMap String DomainPolicy) → get d (capabilities m) ≡ published (get d m)
unfolding get capabilities
get-capabilities d [] = refl
get-capabilities d ((e, p) ∷ m) =
    ground (arith, get-insert_sorted e d (capability p) (capabilities m), get-capabilities d m)

capabilities_unique :
    (m n : HashMap String DomainPolicy)
    → ((d : String) → get d m ≡ get d n)
    → capabilities m ≡ capabilities n
capabilities_unique m n h =
    Sorted-unique (capabilities m) (capabilities n) (capabilities-Sorted m) (capabilities-Sorted n)
      (λ d. ground (arith, h d, get-capabilities d m, get-capabilities d n))

-- The manifest and its hash stay the same when the policies stand in another order in their map, and
-- when the secret is another one: of the secret it says only whether there is one.
pub from_agent_config-stable :
    (to_string : ManifestForHashing → String) (sha256_hex : List ℕ → String) (a : AgentConfig)
    (policies : HashMap String DomainPolicy) (secret : Option String)
    → ((d : String) → get d policies ≡ get d a.domain_policies)
    → is_some secret ≡ is_some a.secret
    → from_agent_config to_string sha256_hex
        (record a { domain_policies = policies; secret = secret })
      ≡ from_agent_config to_string sha256_hex a
unfolding from_agent_config
from_agent_config-stable to_string sha256_hex a policies secret same bound =
    rw (capabilities_unique policies a.domain_policies same, bound) refl
