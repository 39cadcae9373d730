-- ===== src/Config/Agent.antt =====
-- safa-core/src/config.rs: the configuration of an agent, from its parsed TOML. The parser is a
-- parameter, which also fills the defaults of the absent fields in.
pub mod Valid
use Prim.Native.Char.{code}
use Prim.Native.String.{◌++◌, len}
use ama.Prelude.{
  ℕ, String, Bool, Option, none, some, List, [], ◌∷◌, ◌||◌, not, HashMap, get, insert, string_eq,
  nat_beq, ltb, if◌then◌else◌, is_empty, all_chars, to_string,
}
use ama.Errors.{Result, ok, err, AmaError, service_unavailable, ◌>>=◌, ◌>>◌, fail_if}
use ama.Config.{AgentConfig, DomainPolicy}
use ama.Newtypes.{Unicode, is_alphanumeric}

pub record RawDomainPolicy : Type 0 where
  pub enabled : Bool
  pub max_magnitude_per_action : ℕ

pub record RawAgent : Type 0 where
  pub agent_id : String
  pub max_capacity : ℕ
  pub rate_limit_per_window : ℕ
  pub rate_limit_window_secs : ℕ
  pub secret : Option String
  pub domains : HashMap String RawDomainPolicy

-- `key.replace('_', ".")`
unfoldable pub replace_underscores : String → String
replace_underscores String.[] = ""
replace_underscores (String.◌∷◌ c s) =
    if nat_beq (code c) b'_'
    then String.◌∷◌ "." (replace_underscores s)
    else String.◌∷◌ c (replace_underscores s)

abbrev pub id_char : Unicode → ℕ → Bool
id_char u c = is_alphanumeric u c || (nat_beq c b'_' || nat_beq c b'-')

-- The loop over the domains. `named` begins the message of a refusal.
unfoldable pub domain_policies :
    (String → String)
    → ℕ
    → List (String × RawDomainPolicy)
    → HashMap String DomainPolicy
    → Result AmaError (HashMap String DomainPolicy)
unfolding replace_underscores
domain_policies named max_capacity [] policies = ok policies
domain_policies named max_capacity ((key, raw_policy) ∷ domains) policies = do
  let domain_id = replace_underscores key
  fail_if (nat_beq raw_policy.max_magnitude_per_action 0)
      (service_unavailable (named domain_id ++ "max_magnitude_per_action must be > 0"))
  fail_if (ltb max_capacity raw_policy.max_magnitude_per_action) (
      service_unavailable (
        named domain_id
        ++ ("max_magnitude_per_action ("
            ++ (to_string raw_policy.max_magnitude_per_action
                ++ (") > max_capacity (" ++ (to_string max_capacity ++ ")"))))))
  domain_policies named max_capacity domains (
      insert domain_id
        (record {
          enabled = raw_policy.enabled;
          max_magnitude_per_action = raw_policy.max_magnitude_per_action;
        })
        policies)

unfoldable pub check_secret : String → Option String → Result AmaError (Unit {0})
check_secret agent_id none = ok tt
check_secret agent_id (some s) = do
  fail_if (is_empty s)
      (service_unavailable ("agent '" ++ (agent_id ++ "': secret must not be empty if specified")))
  fail_if (ltb (len s) 32)
      (service_unavailable ("agent '" ++ (agent_id ++ "': secret must be at least 32 characters")))

abbrev pub agent_domain : String → String → String
agent_domain agent_id domain_id = "agent '" ++ (agent_id ++ ("' domain '" ++ (domain_id ++ "': ")))

-- `from_toml_str`, after the parser.
unfoldable pub validate_agent : Unicode → RawAgent → Result AmaError AgentConfig
unfolding domain_policies check_secret is_alphanumeric
validate_agent u agent = do
  fail_if (is_empty agent.agent_id) (service_unavailable "agent_id must not be empty")
  fail_if (not (all_chars (id_char u) agent.agent_id)) (
      service_unavailable (
        "agent_id '"
        ++ (agent.agent_id ++ "' contains invalid characters (only alphanumeric, _, -)")))
  fail_if (nat_beq agent.max_capacity 0) (service_unavailable "agent max_capacity must be > 0")
  fail_if (nat_beq agent.rate_limit_per_window 0)
      (service_unavailable "agent rate_limit_per_window must be > 0")
  fail_if (nat_beq agent.rate_limit_window_secs 0)
      (service_unavailable "agent rate_limit_window_secs must be > 0")
  policies ← domain_policies (agent_domain agent.agent_id) agent.max_capacity agent.domains []
  check_secret agent.agent_id agent.secret
  ok (record {
    agent_id = agent.agent_id;
    max_capacity = agent.max_capacity;
    rate_limit_per_window = agent.rate_limit_per_window;
    rate_limit_window_secs = agent.rate_limit_window_secs;
    domain_policies = policies;
    secret = agent.secret;
  })

unfoldable pub from_toml_str :
    Unicode → (String → Result String RawAgent) → String → Result AmaError AgentConfig
unfolding validate_agent
from_toml_str u toml_from_str toml_str = elim (toml_from_str toml_str) [
  | err e ↦ err (service_unavailable ("agent config parse error: " ++ e))
  | ok agent ↦ validate_agent u agent
]

-- The loop of `load_agent_configs` over the contents of the agents' files, or the texts of the errors
-- of reading them.
unfoldable pub load_agents :
    Unicode
    → (String → Result String RawAgent)
    → List (Result String String)
    → HashMap String AgentConfig
    → Result AmaError (HashMap String AgentConfig)
unfolding from_toml_str
load_agents u toml_from_str [] agents = ok agents
load_agents u toml_from_str (err e ∷ entries) agents = err (service_unavailable e)
load_agents u toml_from_str (ok contents ∷ entries) agents =
    from_toml_str u toml_from_str contents >>= λ agent_config.
    elim (get agent_config.agent_id agents) [
      | some a ↦ err (
          service_unavailable
            ("duplicate agent_id '" ++ (agent_config.agent_id ++ "' in agents directory")))
      | none ↦
          load_agents u toml_from_str entries (insert agent_config.agent_id agent_config agents)
    ]

-- `load_agent_configs`. The listing is that of the `.toml` files, or the text of the error.
unfoldable pub load_agent_configs :
    Unicode
    → (String → Result String RawAgent)
    → Result String (List (Result String String))
    → Result AmaError (HashMap String AgentConfig)
unfolding load_agents
load_agent_configs u toml_from_str (err e) =
    err (service_unavailable ("cannot read agents directory: " ++ e))
load_agent_configs u toml_from_str (ok []) =
    err (service_unavailable "agents directory contains no .toml files")
load_agent_configs u toml_from_str (ok (entry ∷ entries)) =
    load_agents u toml_from_str (entry ∷ entries) []
