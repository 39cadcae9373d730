-- ===== src/Config.antt =====
-- safa-core/src/config.rs: the validated configuration types, as the rest of the program reads them.
pub mod Agent
pub mod Raw
pub mod AgentSet
pub mod Load
use ama.Prelude.{ℕ, String, Bool, Option, List, HashMap}

pub record DomainPolicy : Type 0 where
  pub enabled : Bool
  pub max_magnitude_per_action : ℕ

pub record DomainMapping : Type 0 where
  pub domain_id : String
  pub max_payload_bytes : Option ℕ
  pub validator : Option String
  pub requires_intent : Bool

pub record IntentMapping : Type 0 where
  pub binary : String
  pub args_template : List String
  pub validators : List String
  pub working_dir : Option String

pub record AllowlistEntry : Type 0 where
  pub pattern_text : String
  pub methods : List String
  pub max_body_bytes : Option ℕ

pub record AgentConfig : Type 0 where
  pub agent_id : String
  pub max_capacity : ℕ
  pub rate_limit_per_window : ℕ
  pub rate_limit_window_secs : ℕ
  pub domain_policies : HashMap String DomainPolicy
  pub secret : Option String

pub record BootHashes : Type 0 where
  pub config_hash : String
  pub domains_hash : String
  pub intents_hash : String
  pub allowlist_hash : String
  pub agents_hash : String

pub record AmaConfig : Type 0 where
  pub workspace_root : String
  pub bind_host : String
  pub bind_port : ℕ
  pub log_level : String
  pub log_output : String
  pub slime_mode : String
  pub max_capacity : ℕ
  pub domain_policies : HashMap String DomainPolicy
  pub domain_mappings : HashMap String DomainMapping
  pub intents : HashMap String IntentMapping
  pub allowlist : List AllowlistEntry
  pub agents : HashMap String AgentConfig
  pub default_agent_id : Option String
  pub boot_hashes : BootHashes
