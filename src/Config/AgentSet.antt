-- ===== src/Config/AgentSet.antt =====
-- safa-core/src/config.rs: the agents of `AmaConfig::load`, from the `agents/` directory or from the
-- `[slime]` section.
pub mod Gathered
pub mod Valid
pub mod Hash
use Prim.Native.String.{◌++◌}
use ama.Prelude.{
  ℕ, String, Bool, true, false, Option, none, some, List, [], ◌∷◌, not, HashMap, get, insert,
  string_eq, nat_beq, ltb, ◌==◌, ◌||◌, if◌then◌else◌, length,
}
use ama.Errors.{
  Result, ok, err, AmaError, service_unavailable, ◌>>=◌, ◌>>◌, fail_if, ok_or, map_err,
}
use ama.Config.{AgentConfig, DomainPolicy}
use ama.Config.Agent.{domain_policies, load_agent_configs}
use ama.Config.Raw.{RawSlime, RawDomainEntry, ConfigDir, Crates}
use ama.Audit.{as_bytes}
use ama.Manifest.{insert_sorted}

pub record AgentSet : Type 0 where
  pub agents : HashMap String AgentConfig
  pub default_agent_id : Option String
  pub domain_policies : HashMap String DomainPolicy
  pub max_capacity : ℕ
  pub agents_hash : String

-- `entries.sort_by_key(|e| e.path())`
unfoldable pub sort_by_path :
    List (String × Result String (List ℕ)) → List (String × Result String (List ℕ))
unfolding insert_sorted
sort_by_path [] = []
sort_by_path ((path, bytes) ∷ entries) = insert_sorted path bytes (sort_by_path entries)

-- The hashes of the files, joined: the loop that fills `agent_hashes`, and `join("")`.
unfoldable pub joined_hashes :
    (List ℕ → String) → List (String × Result String (List ℕ)) → Result AmaError String
joined_hashes sha256_hex [] = ok ""
joined_hashes sha256_hex ((path, err e) ∷ entries) =
    err (service_unavailable ("cannot read " ++ (path ++ (": " ++ e))))
joined_hashes sha256_hex ((path, ok bytes) ∷ entries) = do
  rest ← joined_hashes sha256_hex entries
  ok (sha256_hex bytes ++ rest)

unfoldable pub agents_hash :
    (List ℕ → String)
    → Result String (List (String × Result String (List ℕ)))
    → Result AmaError String
unfolding sort_by_path joined_hashes
agents_hash sha256_hex listing = do
  entries ← map_err (λ e. service_unavailable ("cannot read agents dir: " ++ e)) listing
  combined ← joined_hashes sha256_hex (sort_by_path entries)
  ok (sha256_hex (as_bytes combined))

-- `entry(key).or_insert_with`
unfoldable pub or_insert :
    String → DomainPolicy → HashMap String DomainPolicy → HashMap String DomainPolicy
or_insert k v m = elim (get k m) [ none ↦ insert k v m | some w ↦ m ]

unfoldable pub union_policies :
    HashMap String DomainPolicy → HashMap String DomainPolicy → HashMap String DomainPolicy
unfolding or_insert
union_policies [] all = all
union_policies ((did, policy) ∷ policies) all = union_policies policies (or_insert did policy all)

-- The loop over the agents: the largest capacity, and the union of the policies.
unfoldable pub gather :
    HashMap String AgentConfig → ℕ → HashMap String DomainPolicy → ℕ × HashMap String DomainPolicy
gather [] global_max_capacity all = (global_max_capacity, all)
gather ((agent_id, agent) ∷ agents) global_max_capacity all =
    gather agents
      (if ltb global_max_capacity agent.max_capacity
        then agent.max_capacity
        else global_max_capacity)
      (union_policies agent.domain_policies all)

unfoldable pub defines : HashMap String RawDomainEntry → String → Bool
defines [] domain_id = false
defines ((action, d) ∷ domains) domain_id = d.domain_id == domain_id || defines domains domain_id

unfoldable pub check_domains :
    HashMap String RawDomainEntry
    → String
    → HashMap String DomainPolicy
    → Result AmaError (Unit {0})
check_domains domains agent_id [] = ok tt
check_domains domains agent_id ((domain_id, policy) ∷ policies) = do
  fail_if (not (defines domains domain_id)) (
      service_unavailable (
        "agent '"
        ++ (agent_id
            ++ ("' references domain '" ++ (domain_id ++ "' not defined in domains.toml")))))
  check_domains domains agent_id policies

unfoldable pub cross_validate :
    HashMap String RawDomainEntry → HashMap String AgentConfig → Result AmaError (Unit {0})
unfolding check_domains
cross_validate domains [] = ok tt
cross_validate domains ((agent_id, agent) ∷ agents) = do
  check_domains domains agent.agent_id agent.domain_policies
  cross_validate domains agents

abbrev pub sole_agent : HashMap String AgentConfig → Option String
sole_agent [] = none
sole_agent ((agent_id, agent) ∷ []) = some agent_id
sole_agent ((agent_id, agent) ∷ b ∷ agents) = none

unfoldable pub from_directory :
    Crates → ConfigDir → HashMap String RawDomainEntry → Result AmaError AgentSet
unfolding agents_hash gather cross_validate
from_directory crates dir domains = do
  agents ← load_agent_configs crates.unicode crates.agent_from_str dir.agents_texts
  hash ← agents_hash crates.sha256_hex dir.agents_bytes
  let all = gather agents 0 []
  cross_validate domains agents
  ok (record {
    agents = agents;
    default_agent_id = sole_agent agents;
    domain_policies = all.1;
    max_capacity = all.0;
    agents_hash = hash;
  })

abbrev pub slime_domain : String → String
slime_domain domain_id = "domain '" ++ (domain_id ++ "': ")

abbrev pub none_given {ℓ} : {A : Type ℓ} → List A → Bool
none_given [] = true
none_given (x ∷ xs) = false

-- The agent "default".
unfoldable pub from_slime : RawSlime → Result AmaError AgentSet
from_slime slime = do
  slime_capacity ←
      ok_or slime.max_capacity
        (service_unavailable "slime.max_capacity is required when no agents/ directory exists")
  fail_if (nat_beq slime_capacity 0) (service_unavailable "slime.max_capacity must be > 0")
  fail_if (none_given slime.domains)
      (service_unavailable "slime.domains is required when no agents/ directory exists")
  policies ← domain_policies slime_domain slime_capacity slime.domains []
  let default_agent : AgentConfig = record {
    agent_id = "default";
    max_capacity = slime_capacity;
    rate_limit_per_window = 60;
    rate_limit_window_secs = 60;
    domain_policies = policies;
    secret = none;
  }
  ok (record {
    agents = ("default", default_agent) ∷ [];
    default_agent_id = some "default";
    domain_policies = policies;
    max_capacity = slime_capacity;
    agents_hash = "";
  })
