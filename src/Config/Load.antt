-- ===== src/Config/Load.antt =====
-- safa-core/src/config.rs: `AmaConfig::load`.
pub mod Valid
pub mod Isolated
pub mod Starts
pub mod Refused
use Prim.Native.String.{◌++◌}
use ama.Prelude.{
  ℕ, String, Bool, true, false, Option, none, some, List, [], ◌∷◌, not, HashMap, get, insert,
  string_eq, ◌==◌, if◌then◌else◌, starts_with, map, replace,
}
use ama.Errors.{Result, ok, err, AmaError, service_unavailable, ◌>>=◌, ◌>>◌, fail_if, map_err}
use ama.Config.{DomainPolicy, DomainMapping, IntentMapping, AllowlistEntry, AmaConfig}
use ama.Config.Raw.{
  RawSafa, RawDomainEntry, RawIntentEntry, RawAllowlistUrl, RawConfig, RawDomains, RawIntents,
  RawAllowlist, ConfigDir, Crates,
}
use ama.Config.AgentSet.{AgentSet, from_directory, from_slime}

unfoldable pub read_file : ConfigDir → String → Result AmaError (List ℕ)
read_file dir name =
    map_err (λ e. service_unavailable ("cannot read " ++ (dir.display name ++ (": " ++ e))))
      (dir.read name)

unfoldable pub check_schema : String → String → String → Result AmaError (Unit {0})
check_schema expected got file = fail_if (not (got == expected)) (
    service_unavailable (
      file
      ++ (": unrecognized schema_version '" ++ (got ++ ("' (expected '" ++ (expected ++ "')"))))))

-- `from_utf8`, then `toml::from_str`.
unfoldable pub parse_file :
    {A : Type 0}
    → (List ℕ → Result String String)
    → (String → Result String A)
    → String
    → List ℕ
    → Result AmaError A
parse_file from_utf8 from_str name bytes = do
  text ← map_err (λ e. service_unavailable (name ++ (" not UTF-8: " ++ e))) (from_utf8 bytes)
  map_err (λ e. service_unavailable (name ++ (" parse error: " ++ e))) (from_str text)

-- The checks of the workspace, the host and the mode.
unfoldable pub check_config : ConfigDir → RawConfig → Result AmaError (Unit {0})
check_config dir raw = do
  fail_if (not (starts_with raw.safa.workspace_root "/"))
      (service_unavailable "workspace_root must be absolute")
  fail_if (not (dir.is_dir raw.safa.workspace_root)) (
      service_unavailable
        ("workspace_root does not exist or is not a directory: " ++ raw.safa.workspace_root))
  fail_if (not (raw.safa.bind_host == "127.0.0.1")) (
      service_unavailable
        ("P0 requires bind_host = 127.0.0.1, got '" ++ (raw.safa.bind_host ++ "'")))
  fail_if (not (raw.slime.mode == "embedded"))
      (service_unavailable ("P0 requires slime.mode = embedded, got '" ++ (raw.slime.mode ++ "'")))

unfoldable pub agent_set :
    Crates → ConfigDir → RawConfig → HashMap String RawDomainEntry → Result AmaError AgentSet
agent_set crates dir raw domains =
    if dir.agents_is_dir then from_directory crates dir domains else from_slime raw.slime

abbrev pub or_false : Option Bool → Bool
or_false none = false
or_false (some b) = b

abbrev pub is_absent : Option DomainPolicy → Bool
is_absent none = true
is_absent (some p) = false

unfoldable pub domain_mappings :
    HashMap String DomainPolicy
    → HashMap String RawDomainEntry
    → HashMap String DomainMapping
    → Result AmaError (HashMap String DomainMapping)
domain_mappings policies [] mappings = ok mappings
domain_mappings policies ((action, entry) ∷ domains) mappings = do
  fail_if (is_absent (get entry.domain_id policies)) (
      service_unavailable (
        "domains.toml action '"
        ++ (action ++ ("' references domain_id '" ++ (entry.domain_id ++ "' not in config.toml")))))
  domain_mappings policies domains (
      insert action
        (record {
          domain_id = entry.domain_id;
          max_payload_bytes = entry.max_payload_bytes;
          validator = entry.validator;
          requires_intent = or_false entry.requires_intent;
        })
        mappings)

abbrev pub expand : String → Option String → Option String
expand workspace_root none = none
expand workspace_root (some wd) = some (replace "{{workspace_root}}" workspace_root wd)

-- On Unix.
unfoldable pub intent_mappings :
    ConfigDir
    → String
    → HashMap String RawIntentEntry
    → HashMap String IntentMapping
    → Result AmaError (HashMap String IntentMapping)
intent_mappings dir workspace_root [] intents = ok intents
intent_mappings dir workspace_root ((name, raw) ∷ raws) intents = do
  fail_if (not (dir.exists raw.binary)) (
      service_unavailable
        ("intent '" ++ (name ++ ("': binary '" ++ (raw.binary ++ "' does not exist")))))
  intent_mappings dir workspace_root raws (
      insert name
        (record {
          binary = raw.binary;
          args_template = raw.args_template;
          validators = raw.validators;
          working_dir = expand workspace_root raw.working_dir;
        })
        intents)

abbrev pub allowlist_entry : RawAllowlistUrl → AllowlistEntry
allowlist_entry u = record {
  pattern_text = u.pattern_text;
  methods = u.methods;
  max_body_bytes = u.max_body_bytes;
}

-- The four files, parsed.
pub record RawFiles : Type 0 where
  pub config : RawConfig
  pub domains : RawDomains
  pub intents : RawIntents
  pub allowlist : RawAllowlist

pub record Bytes : Type 0 where
  pub config : List ℕ
  pub domains : List ℕ
  pub intents : List ℕ
  pub allowlist : List ℕ

unfoldable pub read_files : ConfigDir → Result AmaError Bytes
unfolding read_file
read_files dir = do
  config_bytes ← read_file dir "config.toml"
  domains_bytes ← read_file dir "domains.toml"
  intents_bytes ← read_file dir "intents.toml"
  allowlist_bytes ← read_file dir "allowlist.toml"
  ok (record {
    config = config_bytes;
    domains = domains_bytes;
    intents = intents_bytes;
    allowlist = allowlist_bytes;
  })

unfoldable pub parse_files : Crates → Bytes → Result AmaError RawFiles
unfolding parse_file
parse_files crates bytes = do
  raw_config ← parse_file crates.from_utf8 crates.config_from_str "config.toml" bytes.config
  raw_domains ← parse_file crates.from_utf8 crates.domains_from_str "domains.toml" bytes.domains
  raw_intents ← parse_file crates.from_utf8 crates.intents_from_str "intents.toml" bytes.intents
  raw_allowlist ←
      parse_file crates.from_utf8 crates.allowlist_from_str "allowlist.toml" bytes.allowlist
  ok (record {
    config = raw_config;
    domains = raw_domains;
    intents = raw_intents;
    allowlist = raw_allowlist;
  })

unfoldable pub check_schemas : RawFiles → Result AmaError (Unit {0})
unfolding check_schema
check_schemas raw = do
  check_schema "safa-domains-v1" raw.domains.meta.schema_version "domains.toml"
  check_schema "safa-intents-v1" raw.intents.meta.schema_version "intents.toml"
  check_schema "safa-allowlist-v1" raw.allowlist.meta.schema_version "allowlist.toml"

unfoldable pub load : Crates → ConfigDir → Result AmaError AmaConfig
unfolding read_files parse_files check_schemas check_config agent_set domain_mappings
    intent_mappings
load crates dir = do
  bytes ← read_files dir
  raw ← parse_files crates bytes
  check_schemas raw
  check_config dir raw.config
  set ← agent_set crates dir raw.config raw.domains.domains
  mappings ← domain_mappings set.domain_policies raw.domains.domains []
  intents ← intent_mappings dir raw.config.safa.workspace_root raw.intents.intents []
  ok (record {
    workspace_root = raw.config.safa.workspace_root;
    bind_host = raw.config.safa.bind_host;
    bind_port = raw.config.safa.bind_port;
    log_level = raw.config.safa.log_level;
    log_output = raw.config.safa.log_output;
    slime_mode = raw.config.slime.mode;
    max_capacity = set.max_capacity;
    domain_policies = set.domain_policies;
    domain_mappings = mappings;
    intents = intents;
    allowlist = map allowlist_entry raw.allowlist.urls;
    agents = set.agents;
    default_agent_id = set.default_agent_id;
    boot_hashes = record {
      config_hash = crates.sha256_hex bytes.config;
      domains_hash = crates.sha256_hex bytes.domains;
      intents_hash = crates.sha256_hex bytes.intents;
      allowlist_hash = crates.sha256_hex bytes.allowlist;
      agents_hash = set.agents_hash;
    };
  })
