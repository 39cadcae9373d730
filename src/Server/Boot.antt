-- ===== src/Server/Boot.antt =====
-- safa-daemon/src/server.rs, safa-core/src/slime.rs and config.rs: the state that the daemon starts with.
use text.Mathlib.TextEquality.{eq_iff}
use ama.Prelude.{
  ℕ, ◌≡◌, refl, ◌∙◌, String, none, some, [], ◌∷◌, arith, HashMap, get, insert, IsMap, get-insert,
  string_eq, nat_eq, map, ◌==◌, Uuid, Bool-cases, inl, inr,
}
use ama.Config.{AmaConfig, AgentConfig}
use ama.Config.Agent.Valid.{AllValid}
use ama.Config.Raw.{ConfigDir, Crates}
use ama.Config.Load.{load}
use ama.Config.Load.Valid.{load-Loaded}
use ama.Errors.{ok}
use ama.Slime.{P0Authorizer, collect, new}
use ama.Slime.Registry.{register, get_agent}
use ama.Idempotency.{run}
use ama.Idempotency.Size
use ama.Audit.Proofs
use ama.Server.{AppState, limiters, new_state}
use ama.Server.RateLimit.{RateLimitState}

abbrev authorizer_of : (AgentConfig → Uuid) → AgentConfig → P0Authorizer
authorizer_of ids a = new a.max_capacity a.domain_policies (ids a)

-- Nothing granted, the capacity of the configuration, and the policies that `collect` puts into a map.
abbrev pub untouched : (AgentConfig → Uuid) → AgentConfig → P0Authorizer
untouched ids a = record {
  capacity = 0;
  max_capacity = a.max_capacity;
  domains = collect a.domain_policies [];
  session_id = ids a;
}

abbrev limiter_of : ℕ → AgentConfig → RateLimitState
limiter_of now a = record {
  window_start = now;
  count = 0;
  max_per_window = a.rate_limit_per_window;
  window_secs = a.rate_limit_window_secs;
}

get-limiters :
    (now : ℕ) (agent_id : String) (agents : HashMap String AgentConfig) (a : AgentConfig)
    → get agent_id agents ≡ some a
    → get agent_id (limiters now agents) ≡ some (limiter_of now a)
unfolding get limiters
get-limiters now agent_id [] a h = cc
get-limiters now agent_id ((k, b) ∷ agents) a h = ground (
  arith,
  get-insert k agent_id (limiter_of now b) (limiters now agents),
  get-limiters now agent_id agents a,
  eq_iff k agent_id,
)

-- The agents that are not among the rest keep their authorizer.
get-register-none :
    (ids : AgentConfig → Uuid) (agent_id : String) (agents : HashMap String AgentConfig)
    (m : HashMap String P0Authorizer)
    → AllValid agents
    → get agent_id agents ≡ none
    → get agent_id (register (map (λ a. (ids a.1, a.1)) agents) m) ≡ get agent_id m
unfolding get register
get-register-none ids agent_id [] m v h = refl
get-register-none ids agent_id ((k, b) ∷ agents) m v h =
    get-register-none ids agent_id agents (insert b.agent_id (authorizer_of ids b) m) v.2
      (ground (arith))
    ∙ ground (arith, get-insert b.agent_id agent_id (authorizer_of ids b) m, v.0)

get-register :
    (ids : AgentConfig → Uuid) (agent_id : String) (agents : HashMap String AgentConfig)
    (m : HashMap String P0Authorizer) (a : AgentConfig)
    → AllValid agents
    → IsMap agents
    → get agent_id agents ≡ some a
    → get agent_id (register (map (λ a. (ids a.1, a.1)) agents) m) ≡ some (authorizer_of ids a)
unfolding get register
get-register ids agent_id [] m a v distinct h = cc
get-register ids agent_id ((k, b) ∷ agents) m a v distinct h = elim (Bool-cases (k == agent_id)) [
  | inr other ↦
      get-register ids agent_id agents (insert b.agent_id (authorizer_of ids b) m) a v.2 distinct.1
        (ground arith)
  | inl same ↦
      let e : k ≡ agent_id = (eq_iff k agent_id).0 same in
      let rest : get agent_id agents ≡ none = rw e at distinct.0 in
      get-register-none ids agent_id agents (insert b.agent_id (authorizer_of ids b) m) v.2 rest
      ∙ ground (arith, get-insert b.agent_id agent_id (authorizer_of ids b) m, v.0)
]

-- The agent has an authorizer that has granted nothing and a fresh limiter, both with its own limits.
pub record Ready {W : Type 0} (ids : AgentConfig → Uuid) (now : ℕ) (agent_id : String)
    (a : AgentConfig) (s : AppState W) : Type 0 where
  pub authorizer : get_agent agent_id s.agent_registry ≡ some (untouched ids a)
  pub limiter : get agent_id s.agent_rate_limiters ≡ some (limiter_of now a)
  pub cache : Size.IsValid s.idempotency_cache
  pub proofs : Proofs.IsValid s.proof_store

pub new_state-Ready :
    {W : Type 0} (config : AmaConfig) (ids : AgentConfig → Uuid) (session_id : Uuid) (now : ℕ)
    (world : W) (agent_id : String) (a : AgentConfig)
    → AllValid config.agents
    → IsMap config.agents
    → get agent_id config.agents ≡ some a
    → Ready ids now agent_id a (new_state config ids session_id now world [])
unfolding new_state get_agent run new
new_state-Ready config ids session_id now world agent_id a v distinct h = record {
  authorizer = get-register ids agent_id config.agents [] a v distinct h;
  limiter = get-limiters now agent_id config.agents a h;
  cache = Size.run-IsValid [] 10000 300000000000;
  proofs = record { map = tt; bounded = omega arith; some_room = omega arith };
}

-- Once a configuration is loaded, the daemon starts with every one of its agents ready: the agent has an
-- authorizer with its own capacity and nothing granted, and a rate limiter with its own limits; the
-- idempotency cache and the proof store are well formed.
pub load-Ready :
    {W : Type 0} (crates : Crates) (dir : ConfigDir) (config : AmaConfig) (ids : AgentConfig → Uuid)
    (session_id : Uuid) (now : ℕ) (world : W) (agent_id : String) (a : AgentConfig)
    → load crates dir ≡ ok config
    → get agent_id config.agents ≡ some a
    → Ready ids now agent_id a (new_state config ids session_id now world [])
load-Ready crates dir config ids session_id now world agent_id a loaded h =
    let l = load-Loaded crates dir config loaded in
    new_state-Ready config ids session_id now world agent_id a l.agents.valid l.agents.distinct h
