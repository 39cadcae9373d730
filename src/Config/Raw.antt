-- ===== src/Config/Raw.antt =====
-- safa-core/src/config.rs: the files of the configuration as `serde` reads them, and what the loader
-- takes from outside: the file system, the TOML parser and the hash.
use ama.Prelude.{ℕ, String, Bool, Option, List, HashMap}
use ama.Errors.{Result}
use ama.Newtypes.{Unicode}
use ama.Config.Agent.{RawAgent, RawDomainPolicy}

pub record RawSafa : Type 0 where
  pub workspace_root : String
  pub bind_host : String
  pub bind_port : ℕ
  pub log_level : String
  pub log_output : String

pub record RawSlime : Type 0 where
  pub mode : String
  pub max_capacity : Option ℕ
  pub domains : HashMap String RawDomainPolicy

pub record RawConfig : Type 0 where
  pub safa : RawSafa
  pub slime : RawSlime

pub record RawMeta : Type 0 where
  pub schema_version : String

pub record RawDomainEntry : Type 0 where
  pub domain_id : String
  pub max_payload_bytes : Option ℕ
  pub validator : Option String
  pub requires_intent : Option Bool

pub record RawDomains : Type 0 where
  pub meta : RawMeta
  pub domains : HashMap String RawDomainEntry

pub record RawIntentEntry : Type 0 where
  pub binary : String
  pub args_template : List String
  pub validators : List String
  pub working_dir : Option String
  pub description : Option String

pub record RawIntents : Type 0 where
  pub meta : RawMeta
  pub intents : HashMap String RawIntentEntry

pub record RawAllowlistUrl : Type 0 where
  pub pattern_text : String
  pub methods : List String
  pub max_body_bytes : Option ℕ

pub record RawAllowlist : Type 0 where
  pub meta : RawMeta
  pub urls : List RawAllowlistUrl

-- A configuration directory. `read` and `display` are of the file with a name in it; an error is its
-- text. The `.toml` files of `agents/` are read twice, for their texts and for their bytes by path, and a
-- path stands once in a listing.
pub record ConfigDir : Type 0 where
  pub read : String → Result String (List ℕ)
  pub display : String → String
  pub is_dir : String → Bool
  pub exists : String → Bool
  pub agents_is_dir : Bool
  pub agents_texts : Result String (List (Result String String))
  pub agents_bytes : Result String (List (String × Result String (List ℕ)))

-- The crates: `toml::from_str` at each type, with the defaults filled in, and `sha2`.
pub record Crates : Type 0 where
  pub unicode : Unicode
  pub from_utf8 : List ℕ → Result String String
  pub sha256_hex : List ℕ → String
  pub config_from_str : String → Result String RawConfig
  pub domains_from_str : String → Result String RawDomains
  pub intents_from_str : String → Result String RawIntents
  pub allowlist_from_str : String → Result String RawAllowlist
  pub agent_from_str : String → Result String RawAgent
