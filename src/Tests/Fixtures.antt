-- ===== src/Tests/Fixtures.antt =====
-- A small configuration with two agents, and simple stand-ins for what the repository does not define.
use Prim.Native.Char.{code}
use ama.Prelude.{
  ℕ, zero, suc, ◌+◌, String, ◌≡◌, refl, ◌↔◌, Bool, true, false, Option, none, some, List, [], ◌∷◌,
  arith, if◌then◌else◌, nat_beq, length, pos, ◌==◌, HashMap, get, string_eq,
}
use ama.Errors.{ok, err}
use ama.Config.{DomainPolicy, DomainMapping, AgentConfig, AmaConfig}
use ama.Schema.{ActionRequest}
use ama.Newtypes.{Unicode}
use ama.Newtypes.Path.{FileSystem}
use ama.Identity.{Crypto}
use ama.Audit.{Order, ProofRecord}
use ama.Pipeline.{Actuators}
use ama.Server.{AppState, HeaderMap, new_state}
use ama.Server.Handler.{Env, Reading}

abbrev pub unicode : Unicode
unicode = record { alphanumeric = λ c. false; uppercase = λ c. c ∷ [] }

-- Every path exists and is its own canonical form.
abbrev pub files : FileSystem
files = record { exists = λ p. true; canonicalize = λ p. ok p }

abbrev pub tally : ℕ → String → String
tally zero rest = rest
tally (suc n) rest = String.◌∷◌ "a" (tally n rest)

-- A number is that many letters and a dot.
abbrev pub encode : List ℕ → String
encode [] = ""
encode (n ∷ ns) = tally n (String.◌∷◌ "." (encode ns))

abbrev pub onto : ℕ → Option (List ℕ) → Option (List ℕ)
onto n none = none
onto n (some ns) = some (n ∷ ns)

abbrev pub decode : ℕ → String → Option (List ℕ)
decode n String.[] = some []
decode n (String.◌∷◌ c s) =
    let more = decode (suc n) s in
    let rest = decode 0 s in if nat_beq (code c) 46 then onto n rest else more

decode-tally : (k n : ℕ) (s : String) → decode n (tally k s) ≡ decode (n + k) s
decode-tally zero n s = ground arith
decode-tally (suc k) n s = ground (arith, decode-tally k (suc n) s)

pub decode-encode : (ns : List ℕ) → decode 0 (encode ns) ≡ some ns
decode-encode [] = refl
decode-encode (n ∷ ns) =
    ground (arith, decode-tally n 0 (String.◌∷◌ "." (encode ns)), decode-encode ns)

abbrev pub same_bytes : List ℕ → List ℕ → Bool
same_bytes [] [] = true
same_bytes (m ∷ ms) [] = false
same_bytes [] (n ∷ ns) = false
same_bytes (m ∷ ms) (n ∷ ns) = let rest = same_bytes ms ns in if nat_beq m n then rest else false

pub same_bytes_iff : (ms ns : List ℕ) → (same_bytes ms ns ≡ true) ↔ (ms ≡ ns)
same_bytes_iff [] [] = ground arith
same_bytes_iff (m ∷ ms) [] = ground arith
same_bytes_iff [] (n ∷ ns) = ground arith
same_bytes_iff (m ∷ ms) (n ∷ ns) = ground (arith, same_bytes_iff ms ns)

-- The hash and the code of a message are its length.
abbrev pub crypto : Crypto
crypto = record {
  sha256_hex = λ bytes. encode (length bytes ∷ []);
  hmac = λ key message. length key ∷ length message ∷ [];
  verify_slice = λ key message tag. same_bytes tag (length key ∷ length message ∷ []);
  hex_encode = encode;
  hex_decode = decode 0;
  hex_decode-encode = decode-encode;
  verify_slice_iff = λ key message tag. same_bytes_iff tag (length key ∷ length message ∷ []);
}

abbrev pub first_key : HashMap String ProofRecord → Option String
first_key [] = none
first_key ((k, p) ∷ m) = some k

pub first_key_none : (m : HashMap String ProofRecord) → first_key m ≡ none → m ≡ []
first_key_none [] h = refl
first_key_none ((k, p) ∷ m) h = cc

pub first_key_mem :
    (m : HashMap String ProofRecord) (k : String)
    → first_key m ≡ some k
    → (p : ProofRecord) × (get k m ≡ some p)
unfolding get
first_key_mem [] k h = cc
first_key_mem ((j, p) ∷ m) k h = (p, ground (arith, string_eq.equal_iff j k))

abbrev pub order : Order
order = record {
  first_key = first_key;
  first_key_mem = first_key_mem;
  first_key_none = first_key_none;
}

-- The world is how often an actuator was called. Every call succeeds.
abbrev pub io : Actuators ℕ
io = record {
  file_system = λ w. files;
  file_write = λ timeout path content action_id w. (some (ok 2), suc w);
  file_read = λ timeout path limit w. (some (ok ("hi", 2, 2, false)), suc w);
  shell_exec = λ binary args dir action_id timeout limit w. (ok ("", "", pos 0, false), suc w);
  http_request = λ timeout method url body allowlist w. (some (ok (204, "", false)), suc w);
}

abbrev pub policy : DomainPolicy
policy = record { enabled = true; max_magnitude_per_action = 10 }

abbrev agent : String → Option String → AgentConfig
agent agent_id secret = record {
  agent_id = agent_id;
  max_capacity = 12;
  rate_limit_per_window = 2;
  rate_limit_window_secs = 60;
  domain_policies = ("fs", policy) ∷ [];
  secret = secret;
}

abbrev pub ann : AgentConfig
ann = agent "ann" none

abbrev pub bob : AgentConfig
bob = agent "bob" (some "s")

abbrev domain : DomainMapping
domain = record {
  domain_id = "fs";
  max_payload_bytes = some 16;
  validator = none;
  requires_intent = false;
}

abbrev pub config : AmaConfig
config = record {
  workspace_root = "/w";
  bind_host = "127.0.0.1";
  bind_port = 8787;
  log_level = "info";
  log_output = "stdout";
  slime_mode = "embedded";
  max_capacity = 12;
  domain_policies = ("fs", policy) ∷ [];
  domain_mappings = ("file_write", domain) ∷ ("shell_exec", domain) ∷ [];
  intents =
      (
        "ls",
        record {
          binary = "/bin/ls";
          args_template = "-l" ∷ "{{0}}" ∷ [];
          validators = "relative_workspace_path" ∷ [];
          working_dir = none;
        },
      )
      ∷ [];
  allowlist =
      record { pattern_text = "https://a.org/*"; methods = "GET" ∷ []; max_body_bytes = none } ∷ [];
  agents = ("ann", ann) ∷ ("bob", bob) ∷ [];
  default_agent_id = some "ann";
  boot_hashes = record {
    config_hash = "";
    domains_hash = "";
    intents_hash = "";
    allowlist_hash = "";
    agents_hash = "";
  };
}

abbrev pub write_request : ActionRequest
write_request = record {
  adapter = "t";
  action = "file_write";
  target = "a/b";
  magnitude = 3;
  dry_run = false;
  method = none;
  payload = some "hi";
  args = none;
}

abbrev pub env : Env ℕ
env = record {
  unicode = unicode;
  uuids = record { parse_str = λ s. if s == "k" then some 7 else none; get_version_num = λ u. 4 };
  uuid_to_string = λ u. encode (u ∷ []);
  crypto = crypto;
  io = io;
  order = order;
  from_slice = λ body. elim body [ [] ↦ err "no body" | b ∷ bs ↦ ok write_request ];
  response_to_string = λ r. r.status;
  manifest_to_string = λ m. m.agent_id;
  json_to_string = λ j. "json";
}

abbrev pub reading : Reading
reading = record {
  now_secs = 1000;
  now = 5;
  cache = record { purged_at = 5; now = 5; stamp = 5 };
  action_uuid = 9;
  pipeline = record { epoch_secs = 1000; elapsed_ms = 4 };
  timestamp_epoch = 1000;
}

-- One more second.
abbrev pub later : Reading
later = record reading {
  now = 1000000005;
  cache = record { purged_at = 1000000005; now = 1000000005; stamp = 1000000005 };
  action_uuid = 10;
}

abbrev pub state : AppState ℕ
state = new_state config (λ a. 1) 2 0 0 []

abbrev pub headers : HeaderMap
headers = ("idempotency-key", some "k") ∷ []
