-- ===== src/Server.antt =====
-- safa-daemon/src/server.rs: the shared state of the daemon and the helpers of its handlers. What a
-- handler changes is the state that it returns. The state also holds the world that the actuators act
-- on and the audit log, which the program keeps outside `AppState`.
pub mod RateLimit
pub mod Handler
pub mod Views
pub mod Gates
pub mod Replay
pub mod Isolation
pub mod Attested
pub mod Boot
pub mod Threads
pub mod Sound
use Prim.Native.String.{◌++◌}
use ama.Prelude.{
  ℕ, ◌+◌, ◌%◌, ◌^◌, String, Bool, true, false, Option, none, some, List, [], ◌∷◌, HashMap, get,
  insert, string_eq, if◌then◌else◌, Uuid, map,
}
use ama.Errors.{Result, ok, err, AmaError, bad_request, Json, http_status_and_body}
use ama.Config.{AmaConfig, AgentConfig, DomainPolicy}
use ama.Slime.Registry.{AgentRegistry, new_registry, get_agent}
use ama.Idempotency.{IdempotencyCache, empty_cache}
use ama.Audit.{AuditEntry, ProofStore, new}
use ama.Server.RateLimit.{RateLimitState, admit}

pub data Body : Type 0 where
  json : Json → Body
  text : String → Body

pub record Response : Type 0 where
  pub status : ℕ
  pub headers : List (String × String)
  pub body : Body

-- A request's headers, by lower-case name: `none` is a value for which `to_str` fails.
abbrev pub HeaderMap : Type 0
HeaderMap = HashMap String (Option String)

-- `headers.get(name).and_then(|v| v.to_str().ok())`
abbrev pub header_text : String → HeaderMap → Option String
header_text name headers = elim (get name headers) [ none ↦ none | some v ↦ v ]

pub record AppState (W : Type 0) : Type 0 where
  pub config : AmaConfig
  pub agent_registry : AgentRegistry
  pub idempotency_cache : IdempotencyCache
  pub session_id : Uuid
  pub start_time : ℕ
  pub domain_counters : HashMap String ℕ
  pub agent_rate_limiters : HashMap String RateLimitState
  pub proof_store : ProofStore
  pub world : W
  pub log : List AuditEntry

unfoldable pub ama_error_response : AmaError → Response
unfolding http_status_and_body
ama_error_response e =
    let (status, body) = http_status_and_body e in
    record { status = status; headers = []; body = json body }

-- The loop that builds the limiters, all with the same window start.
unfoldable pub limiters : ℕ → HashMap String AgentConfig → HashMap String RateLimitState
limiters now [] = []
limiters now ((agent_id, a) ∷ agents) =
    insert agent_id
      (record {
        window_start = now;
        count = 0;
        max_per_window = a.rate_limit_per_window;
        window_secs = a.rate_limit_window_secs;
      })
      (limiters now agents)

-- `entry(domain_id).or_insert_with(0)` for every domain of an agent.
unfoldable pub count_domains : HashMap String DomainPolicy → HashMap String ℕ → HashMap String ℕ
count_domains [] counters = counters
count_domains ((domain_id, policy) ∷ policies) counters =
    count_domains policies
      (elim (get domain_id counters) [ none ↦ insert domain_id 0 counters | some n ↦ counters ])

unfoldable pub counters : HashMap String AgentConfig → HashMap String ℕ → HashMap String ℕ
unfolding count_domains
counters [] m = m
counters ((agent_id, a) ∷ agents) m = counters agents (count_domains a.domain_policies m)

-- The fresh ids: `session_ids` are those of the authorizers. The time to live of the idempotency
-- cache is in nanoseconds.
unfoldable pub new_state :
    {W : Type 0} → AmaConfig → (AgentConfig → Uuid) → Uuid → ℕ → W → List AuditEntry → AppState W
unfolding new_registry empty_cache new limiters counters
new_state config session_ids session_id now world log = record {
  config = config;
  agent_registry = new_registry (map (λ a. (session_ids a.1, a.1)) config.agents);
  idempotency_cache = empty_cache 10000 300000000000;
  session_id = session_id;
  start_time = now;
  domain_counters = counters config.agents [];
  agent_rate_limiters = limiters now config.agents;
  proof_store = new 10000;
  world = world;
  log = log;
}

unfoldable pub resolve_agent_id : {W : Type 0} → HeaderMap → AppState W → Result Response String
unfolding get_agent
resolve_agent_id headers s = elim (get "x-agent-id" headers) [
  | none ↦ elim s.config.default_agent_id [
    | some default ↦ ok default
    | none ↦
        err (
          ama_error_response
            (bad_request "X-Agent-Id header required (multiple agents configured)"))
  ]
  | some val ↦ elim val [
    | none ↦ err (ama_error_response (bad_request "X-Agent-Id header is not valid ASCII"))
    | some agent_id ↦ elim (get_agent agent_id s.agent_registry) [
      | none ↦ err (ama_error_response (bad_request ("unknown agent: " ++ agent_id)))
      | some a ↦ ok agent_id
    ]
  ]
]

unfoldable pub check_rate_limit : {W : Type 0} → ℕ → AppState W → String → AppState W × Bool
unfolding admit
check_rate_limit now s agent_id = elim (get agent_id s.agent_rate_limiters) [
  | none ↦ (s, false)
  | some limiter ↦
      let (rl, allowed) = admit now limiter in
      (record s { agent_rate_limiters = insert agent_id rl s.agent_rate_limiters }, allowed)
]

-- `AtomicU64::fetch_add`, which wraps.
unfoldable pub increment_domain_counter : {W : Type 0} → String → AppState W → AppState W
increment_domain_counter domain_id s = elim (get domain_id s.domain_counters) [
  | none ↦ s
  | some n ↦ record s { domain_counters = insert domain_id ((n + 1) % 2 ^ 64) s.domain_counters }
]
