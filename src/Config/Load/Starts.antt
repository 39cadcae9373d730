-- ===== src/Config/Load/Starts.antt =====
-- safa-core/src/config.rs: `AmaConfig::load` succeeds or fails with a refusal to start.
use ama.Prelude.{
  ℕ, ◌≡◌, refl, inl, inr, String, Bool, true, false, Option, none, some, List, [], ◌∷◌, HashMap,
  get, insert, string_eq, Bool-cases, Option-cases,
}
use ama.Errors.{Result, ok, err, AmaError, service_unavailable, ◌>>=◌, fail_if, ok_or, map_err}
use ama.Newtypes.{Unicode}
use ama.Config.{AgentConfig, DomainPolicy, DomainMapping, IntentMapping}
use ama.Config.Raw.{RawConfig, RawDomainEntry, RawIntentEntry, ConfigDir, Crates}
use ama.Config.Agent.{
  RawAgent, RawDomainPolicy, domain_policies, check_secret, validate_agent, from_toml_str,
  load_agents, load_agent_configs,
}
use ama.Config.AgentSet.{
  joined_hashes, agents_hash, check_domains, cross_validate, from_directory, from_slime,
}
use ama.Config.Load.{
  Bytes, RawFiles, parse_file, check_config, agent_set, domain_mappings, intent_mappings,
  read_files, parse_files, check_schemas, load,
}

-- A result that is a success or the refusal to start.
pub data Starts {A : Type 0} : Result AmaError A → Type 0 where
  fine : (a : A) → Starts (ok a)
  refused : (message : String) → Starts (err (service_unavailable message))

Starts-bind :
    {A B : Type 0} {m : Result AmaError A} {f : A → Result AmaError B}
    → Starts m
    → ((a : A) → Starts (f a))
    → Starts (m >>= f)
Starts-bind (fine a) h = h a
Starts-bind (refused message) h = refused message

Starts-fail_if : (b : Bool) (message : String) → Starts (fail_if b (service_unavailable message))
Starts-fail_if true message = refused message
Starts-fail_if false message = fine tt

Starts-map_err :
    {A : Type 0} (f : String → String) (r : Result String A)
    → Starts (map_err (λ e. service_unavailable (f e)) r)
Starts-map_err f (ok a) = fine a
Starts-map_err f (err e) = refused (f e)

ruleset start_rules = (Starts-bind, Starts-fail_if, fine, refused)

domain_policies-Starts :
    (named : String → String) (c : ℕ) (domains : List (String × RawDomainPolicy))
    (m : HashMap String DomainPolicy)
    → Starts (domain_policies named c domains m)
unfolding domain_policies
domain_policies-Starts named c [] m = fine m
domain_policies-Starts named c ((key, raw) ∷ domains) m =
    search (start_rules, domain_policies-Starts named c domains)

Starts-ok_or :
    {A : Type 0} (o : Option A) (message : String) → Starts (ok_or o (service_unavailable message))
Starts-ok_or none message = refused message
Starts-ok_or (some a) message = fine a

check_secret-Starts :
    (agent_id : String) (secret : Option String) → Starts (check_secret agent_id secret)
unfolding check_secret
check_secret-Starts agent_id none = fine tt
check_secret-Starts agent_id (some s) = search start_rules

validate_agent-Starts : (u : Unicode) (agent : RawAgent) → Starts (validate_agent u agent)
unfolding validate_agent
validate_agent-Starts u agent =
    search (start_rules, domain_policies-Starts, check_secret-Starts) depth 12

from_toml_str-Starts :
    (u : Unicode) (toml_from_str : String → Result String RawAgent) (text : String)
    → Starts (from_toml_str u toml_from_str text)
unfolding from_toml_str
from_toml_str-Starts u toml_from_str text =
    elim (toml_from_str text)
      as (λ r. Starts (elim r [
        | err e ↦ err (service_unavailable (Prim.Native.String.◌++◌ "agent config parse error: " e))
        | ok agent ↦ validate_agent u agent
      ])) [ err e ↦ refused _ | ok agent ↦ validate_agent-Starts u agent ]

load_agents-Starts :
    (u : Unicode) (toml_from_str : String → Result String RawAgent)
    (entries : List (Result String String)) (agents : HashMap String AgentConfig)
    → Starts (load_agents u toml_from_str entries agents)
unfolding load_agents
load_agents-Starts u toml_from_str [] agents = fine agents
load_agents-Starts u toml_from_str (err e ∷ entries) agents = refused e
load_agents-Starts u toml_from_str (ok contents ∷ entries) agents =
    Starts-bind (from_toml_str-Starts u toml_from_str contents) (λ a.
      elim (Option-cases (get a.agent_id agents)) [
        | inl free ↦
            rw (free, load_agents)
              (load_agents-Starts u toml_from_str entries (insert a.agent_id a agents))
        | inr (b, taken) ↦ rw (taken, load_agents) (refused _)
      ])

load_agent_configs-Starts :
    (u : Unicode) (toml_from_str : String → Result String RawAgent)
    (listing : Result String (List (Result String String)))
    → Starts (load_agent_configs u toml_from_str listing)
unfolding load_agent_configs
load_agent_configs-Starts u toml_from_str (err e) = refused _
load_agent_configs-Starts u toml_from_str (ok []) = refused _
load_agent_configs-Starts u toml_from_str (ok (entry ∷ entries)) =
    load_agents-Starts u toml_from_str (entry ∷ entries) []

joined_hashes-Starts :
    (sha256_hex : List ℕ → String) (entries : List (String × Result String (List ℕ)))
    → Starts (joined_hashes sha256_hex entries)
unfolding joined_hashes
joined_hashes-Starts sha256_hex [] = fine ""
joined_hashes-Starts sha256_hex ((path, err e) ∷ entries) = refused _
joined_hashes-Starts sha256_hex ((path, ok bytes) ∷ entries) =
    search (start_rules, joined_hashes-Starts sha256_hex entries)

agents_hash-Starts :
    (sha256_hex : List ℕ → String)
    (listing : Result String (List (String × Result String (List ℕ))))
    → Starts (agents_hash sha256_hex listing)
unfolding agents_hash
agents_hash-Starts sha256_hex listing = search (start_rules, Starts-map_err, joined_hashes-Starts)

check_domains-Starts :
    (domains : HashMap String RawDomainEntry) (agent_id : String)
    (policies : HashMap String DomainPolicy)
    → Starts (check_domains domains agent_id policies)
unfolding check_domains
check_domains-Starts domains agent_id [] = fine tt
check_domains-Starts domains agent_id ((d, p) ∷ policies) =
    search (start_rules, check_domains-Starts domains agent_id policies)

cross_validate-Starts :
    (domains : HashMap String RawDomainEntry) (agents : HashMap String AgentConfig)
    → Starts (cross_validate domains agents)
unfolding cross_validate
cross_validate-Starts domains [] = fine tt
cross_validate-Starts domains ((k, a) ∷ agents) =
    search (start_rules, check_domains-Starts, cross_validate-Starts domains agents)

agent_set-Starts :
    (crates : Crates) (dir : ConfigDir) (raw : RawConfig) (domains : HashMap String RawDomainEntry)
    → Starts (agent_set crates dir raw domains)
unfolding agent_set from_directory from_slime
agent_set-Starts crates dir raw domains = elim (Bool-cases dir.agents_is_dir) [
  | inl there ↦
      rw there
        (search (start_rules, load_agent_configs-Starts, agents_hash-Starts, cross_validate-Starts))
  | inr absent ↦ rw absent (search (start_rules, Starts-ok_or, domain_policies-Starts))
]

domain_mappings-Starts :
    (policies : HashMap String DomainPolicy) (domains : HashMap String RawDomainEntry)
    (mappings : HashMap String DomainMapping)
    → Starts (domain_mappings policies domains mappings)
unfolding domain_mappings
domain_mappings-Starts policies [] mappings = fine mappings
domain_mappings-Starts policies ((action, entry) ∷ domains) mappings =
    search (start_rules, domain_mappings-Starts policies domains)

intent_mappings-Starts :
    (dir : ConfigDir) (workspace_root : String) (raws : HashMap String RawIntentEntry)
    (intents : HashMap String IntentMapping)
    → Starts (intent_mappings dir workspace_root raws intents)
unfolding intent_mappings
intent_mappings-Starts dir workspace_root [] intents = fine intents
intent_mappings-Starts dir workspace_root ((name, raw) ∷ raws) intents =
    search (start_rules, intent_mappings-Starts dir workspace_root raws)

read_files-Starts : (dir : ConfigDir) → Starts (read_files dir)
unfolding read_files
read_files-Starts dir = search (start_rules, Starts-map_err)

parse_file-Starts :
    {A : Type 0} (from_utf8 : List ℕ → Result String String) (from_str : String → Result String A)
    (name : String) (bytes : List ℕ)
    → Starts (parse_file from_utf8 from_str name bytes)
unfolding parse_file
parse_file-Starts from_utf8 from_str name bytes = search (start_rules, Starts-map_err)

parse_files-Starts : (crates : Crates) (bytes : Bytes) → Starts (parse_files crates bytes)
parse_files-Starts crates bytes = unfold parse_files in search (start_rules, parse_file-Starts)

check_schemas-Starts : (raw : RawFiles) → Starts (check_schemas raw)
unfolding check_schemas
check_schemas-Starts raw = search start_rules

check_config-Starts : (dir : ConfigDir) (raw : RawConfig) → Starts (check_config dir raw)
unfolding check_config
check_config-Starts dir raw = search start_rules

pub load-Starts : (crates : Crates) (dir : ConfigDir) → Starts (load crates dir)
unfolding load
load-Starts crates dir =
    search
      (
        start_rules, read_files-Starts, parse_files-Starts, check_schemas-Starts,
        check_config-Starts, agent_set-Starts, domain_mappings-Starts, intent_mappings-Starts,
      )
      depth 12

pub Starts-err :
    {A : Type 0} {r : Result AmaError A}
    → Starts r
    → (e : AmaError) → r ≡ err e
    → (message : String) × (r ≡ err (service_unavailable message))
Starts-err (fine a) e h = cc
Starts-err (refused message) e h = (message, refl)
