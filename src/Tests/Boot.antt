-- ===== src/Tests/Boot.antt =====
-- safa-core/src/config.rs and manifest.rs: two agents from their files, and a manifest.
use ama.Prelude.{◌≡◌, refl, String, true, some, [], ◌∷◌, arith, HashMap, get, string_eq}
use ama.Config.{AgentConfig, DomainPolicy}
use ama.Config.Agent.{RawAgent}
use ama.Manifest.{ManifestForHashing, from_agent_config}
use ama.Manifest.Stable.{from_agent_config-stable}
use ama.Tests.Fixtures.{bob, policy, encode}

abbrev pub raw : String → RawAgent
raw agent_id = record {
  agent_id = agent_id;
  max_capacity = 12;
  rate_limit_per_window = 2;
  rate_limit_window_secs = 60;
  secret = some "0123456789abcdef0123456789abcdef";
  domains = ("fs_write", record { enabled = true; max_magnitude_per_action = 10 }) ∷ [];
}

abbrev pub loaded : String → AgentConfig
loaded agent_id = record {
  agent_id = agent_id;
  max_capacity = 12;
  rate_limit_per_window = 2;
  rate_limit_window_secs = 60;
  domain_policies = ("fs.write", record { enabled = true; max_magnitude_per_action = 10 }) ∷ [];
  secret = some "0123456789abcdef0123456789abcdef";
}

abbrev pub agents : HashMap String AgentConfig
agents = ("ann", loaded "ann") ∷ ("bob-2", loaded "bob-2") ∷ []

-- The policies of two domains, in both orders.
abbrev here_there : HashMap String DomainPolicy
here_there = ("fs", policy) ∷ ("net", policy) ∷ []

abbrev there_here : HashMap String DomainPolicy
there_here = ("net", policy) ∷ ("fs", policy) ∷ []

same_policies : (d : String) → get d there_here ≡ get d here_there
unfolding get
same_policies d = ground (arith, string_eq.equal_iff "net" d, string_eq.equal_iff "fs" d)

from_agent_config-stable_example :
    from_agent_config
      (λ m. m.agent_id)
      (λ bytes. encode bytes)
      (record bob { domain_policies = there_here; secret = some "t" })
    ≡ from_agent_config
        (λ m. m.agent_id)
        (λ bytes. encode bytes)
        (record bob { domain_policies = here_there })
unfolding ama.Manifest.is_some
from_agent_config-stable_example =
    from_agent_config-stable (λ m. m.agent_id) (λ bytes. encode bytes)
      (record bob { domain_policies = here_there }) there_here (some "t") same_policies refl
