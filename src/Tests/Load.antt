-- ===== src/Tests/Load.antt =====
-- safa-core/src/config.rs and safa-daemon/src/server.rs: a configuration directory with two agents, from
-- its files to the first state of the daemon.
use ama.Prelude.{
  ℕ, ◌≡◌, ◌≢◌, refl, contains_char, split, String, true, false, none, some, [], ◌∷◌, arith, get,
  string_eq, insert, all_chars, starts_with, replace,
}
use ama.Newtypes.Path.{
  WorkspacePath, new_with_agent, check_relative, resolve, effective_root, components,
}
use ama.Newtypes.Path.Confined.{Below}
use ama.Identity.{compute_signature}
use ama.Config.Load.Isolated.{load-agents_isolated}
use ama.Server.Sound.{Incoming, serve, Sound}
use ama.Server.Sound.Started.{load-serve-Sound}
use ama.Errors.{ok, err, service_unavailable}
use ama.Config.{AmaConfig}
use ama.Config.Raw.{RawConfig, RawDomains, RawIntents, RawAllowlist, ConfigDir, Crates}
use ama.Config.Agent.{load_agent_configs, replace_underscores}
use ama.Config.AgentSet.{from_directory, agents_hash, defines, union_policies}
use ama.Audit.{as_bytes}
use ama.Config.Load.{RawFiles, load, read_files, parse_files}
use ama.Config.Load.Valid.{Loaded, load-Loaded}
use ama.Config.Load.Refused.{load-Flawed, foreign_host}
use ama.Server.{new_state}
use ama.Server.Boot.{Ready, load-Ready}
use ama.Tests.Fixtures
use ama.Tests.Fixtures.{unicode, encode, crypto, env, reading}
use ama.Tests.Boot.{raw, loaded, agents}

abbrev raw_config : String → RawConfig
raw_config host = record {
  safa = record {
    workspace_root = "/w";
    bind_host = host;
    bind_port = 8787;
    log_level = "info";
    log_output = "stderr";
  };
  slime = record { mode = "embedded"; max_capacity = none; domains = [] };
}

abbrev raw_domains : RawDomains
raw_domains = record {
  meta = record { schema_version = "safa-domains-v1" };
  domains =
      (
        "file_write",
        record {
          domain_id = "fs.write";
          max_payload_bytes = some 16;
          validator = none;
          requires_intent = none;
        },
      )
      ∷ [];
}

abbrev raw_intents : RawIntents
raw_intents = record {
  meta = record { schema_version = "safa-intents-v1" };
  intents =
      (
        "ls",
        record {
          binary = "/bin/ls";
          args_template = "{{0}}" ∷ [];
          validators = [];
          working_dir = some "{{workspace_root}}/d";
          description = none;
        },
      )
      ∷ [];
}

abbrev raw_allowlist : RawAllowlist
raw_allowlist = record { meta = record { schema_version = "safa-allowlist-v1" }; urls = [] }

abbrev crates : String → Crates
crates host = record {
  unicode = unicode;
  from_utf8 = λ bytes. ok "";
  sha256_hex = λ bytes. encode bytes;
  config_from_str = λ t. ok (raw_config host);
  domains_from_str = λ t. ok raw_domains;
  intents_from_str = λ t. ok raw_intents;
  allowlist_from_str = λ t. ok raw_allowlist;
  agent_from_str = λ t. ok (raw t);
}

abbrev dir : ConfigDir
dir = record {
  read = λ name. ok (1 ∷ []);
  display = λ name. name;
  is_dir = λ path. true;
  exists = λ path. true;
  agents_is_dir = true;
  agents_texts = ok (ok "ann" ∷ ok "bob-2" ∷ []);
  agents_bytes = ok (("b.toml", ok (2 ∷ [])) ∷ ("a.toml", ok (1 ∷ [])) ∷ []);
}

abbrev config : AmaConfig
config = record {
  workspace_root = "/w";
  bind_host = "127.0.0.1";
  bind_port = 8787;
  log_level = "info";
  log_output = "stderr";
  slime_mode = "embedded";
  max_capacity = 12;
  domain_policies = ("fs.write", record { enabled = true; max_magnitude_per_action = 10 }) ∷ [];
  domain_mappings =
      (
        "file_write",
        record {
          domain_id = "fs.write";
          max_payload_bytes = some 16;
          validator = none;
          requires_intent = false;
        },
      )
      ∷ [];
  intents =
      (
        "ls",
        record {
          binary = "/bin/ls";
          args_template = "{{0}}" ∷ [];
          validators = [];
          working_dir = some "/w/d";
        },
      )
      ∷ [];
  allowlist = [];
  agents = agents;
  default_agent_id = none;
  boot_hashes = record {
    config_hash = "a.";
    domains_hash = "a.";
    intents_hash = "a.";
    allowlist_hash = "a.";
    agents_hash = encode (97 ∷ 46 ∷ 97 ∷ 97 ∷ 46 ∷ []);
  };
}

-- The files are hashed in the order of their paths.
agents_hash_test :
    agents_hash (λ bytes. encode bytes) dir.agents_bytes ≡ ok (encode (97 ∷ 46 ∷ 97 ∷ 97 ∷ 46 ∷ []))
unfolding agents_hash as_bytes
agents_hash_test = refl

loads : load (crates "127.0.0.1") dir ≡ ok config
unfolding load load_agent_configs insert get all_chars replace_underscores from_directory
    starts_with defines union_policies replace as_bytes
loads = refl

load-Loaded_example : Loaded (crates "127.0.0.1") dir config
load-Loaded_example = load-Loaded (crates "127.0.0.1") dir config loads

abbrev written : String → WorkspacePath
written id = record { canonical = "w" ∷ id ∷ "a" ∷ []; relative = "a" }

ann_not_bob : ◌≢◌ {A = String} "ann" "bob-2"
ann_not_bob h = ground (arith, (string_eq.equal_iff "ann" "bob-2").1 h)

load-agents_isolated_example :
    Below (written "ann").canonical ("w" ∷ "ann" ∷ [])
    × Below (written "bob-2").canonical ("w" ∷ "bob-2" ∷ [])
    × ((written "ann").canonical ≢ (written "bob-2").canonical)
unfolding get new_with_agent check_relative starts_with contains_char split resolve effective_root
    components
load-agents_isolated_example =
    load-agents_isolated (crates "127.0.0.1") dir config loads Fixtures.files ("w" ∷ []) "a" "a"
      "ann" "bob-2" (loaded "ann") (loaded "bob-2") (written "ann") (written "bob-2") refl refl
      ann_not_bob (refl, refl) (refl, refl) refl refl

-- A signed request, twice.
abbrev signed : Incoming
signed = record {
  reading = reading;
  headers =
      ("x-agent-id", some "bob-2")
      ∷ ("x-agent-timestamp", some "1000")
      ∷ (
        "x-agent-signature",
        some (compute_signature crypto "0123456789abcdef0123456789abcdef" "bob-2" "1000" (1 ∷ [])),
      )
      ∷ ("idempotency-key", some "k")
      ∷ [];
  body = 1 ∷ [];
}

load-serve-Sound_example :
    Sound "bob-2"
      (loaded "bob-2")
      (serve env (signed ∷ signed ∷ []) (new_state config (λ a. 1) 2 5 0 []))
unfolding get
load-serve-Sound_example =
    load-serve-Sound (crates "127.0.0.1") dir config (λ a. 1) 2 5 0 env (signed ∷ signed ∷ [])
      "bob-2" (loaded "bob-2") loads refl (omega arith)

load-Ready_example :
    Ready {W = ℕ} (λ a. 1) 5 "bob-2" (loaded "bob-2") (new_state config (λ a. 1) 2 5 0 [])
unfolding get
load-Ready_example =
    load-Ready (crates "127.0.0.1") dir config (λ a. 1) 2 5 0 "bob-2" (loaded "bob-2") loads refl

abbrev files : String → RawFiles
files host = record {
  config = raw_config host;
  domains = raw_domains;
  intents = raw_intents;
  allowlist = raw_allowlist;
}

load-Flawed_example :
    (message : String) × (load (crates "0.0.0.0") dir ≡ err (service_unavailable message))
unfolding read_files parse_files
load-Flawed_example = load-Flawed (crates "0.0.0.0") dir (
    foreign_host (files "0.0.0.0")
      (record {
        bytes = record { config = 1 ∷ []; domains = 1 ∷ []; intents = 1 ∷ []; allowlist = 1 ∷ [] };
        was_read = refl;
        was_parsed = refl;
      })
      (λ e. ground (arith, (string_eq.equal_iff "0.0.0.0" "127.0.0.1").1 e)))
