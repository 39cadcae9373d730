-- ===== src/Server/Isolation.antt =====
-- safa-daemon/src/server.rs: a request uses up only what belongs to its own agent.
use ama.Prelude.{
  ap, ℕ, ◌≡◌, refl, ◌≢◌, inl, inr, String, List, arith, get, get-insert_other, string_eq, nat_eq,
  Uuid, Option-cases, Bool-cases,
}
use ama.Errors.{Result-cases, Result, ok, err, AmaError}
use ama.Schema.{ActionRequest, ActionResponse}
use ama.Slime.{P0Authorizer}
use ama.Slime.Registry.{get_agent}
use ama.Idempotency.{check_or_insert}
use ama.Mapper.{map_action}
use ama.Server.RateLimit.{admit}
use ama.Server.{HeaderMap, AppState, check_rate_limit, increment_domain_counter}
use ama.Server.Handler.{
  Env, Reading, idempotency_key, count_action, respond, pipeline, put_back, process, start,
  deduplicate, limit, identify, handle_action,
}
use ama.Server.Gates.{status-cases}

-- The agent's authorizer and limiter are the same in both states.
pub record Spared {W : Type 0} (other : String) (s t : AppState W) : Type 0 where
  pub authorizer : get_agent other t.agent_registry ≡ get_agent other s.agent_registry
  pub limiter : get other t.agent_rate_limiters ≡ get other s.agent_rate_limiters

abbrev spared : {W : Type 0} (other : String) (s : AppState W) → Spared other s s
spared other s = record { authorizer = refl; limiter = refl }

Spared-trans :
    {W : Type 0} (other : String) (s t u : AppState W)
    → Spared other s t
    → Spared other t u
    → Spared other s u
Spared-trans other s t u a b = record { authorizer = cc; limiter = cc }

check_rate_limit-Spared :
    {W : Type 0} (now : ℕ) (other agent_id : String) (s : AppState W)
    → agent_id ≢ other
    → Spared other s (check_rate_limit now s agent_id).0
unfolding check_rate_limit
check_rate_limit-Spared now other agent_id s differ =
    elim (Option-cases (get agent_id s.agent_rate_limiters)) [
      | inl missing ↦ ground (arith, spared other s)
      | inr (rl, found) ↦
          ground
            (arith, get-insert_other agent_id other (admit now rl).0 s.agent_rate_limiters differ)
    ]

module _ {W : Type 0} (env : Env W) (r : Reading) (headers : HeaderMap) (body : List ℕ) where
  pub count_action-kept :
      (request : ActionRequest) (s : AppState W)
      → ((count_action env r headers body request s).agent_registry ≡ s.agent_registry)
        × ((count_action env r headers body request s).agent_rate_limiters ≡ s.agent_rate_limiters)
  unfolding count_action increment_domain_counter
  count_action-kept request s =
      elim (Result-cases (map_action request.action request.magnitude s.config)) [
        | inl (e, failed) ↦ ground arith
        | inr (mapping, mapped) ↦
            ground (arith, Option-cases (get mapping.domain_id s.domain_counters))
      ]

module _ {W : Type 0} (env : Env W) (r : Reading) (headers : HeaderMap) (body : List ℕ)
    (other agent_id : String) (differ : agent_id ≢ other) where
  respond-Spared :
      (key : Uuid) (request : ActionRequest) (action_id : String)
      (result : Result AmaError ActionResponse) (s : AppState W)
      → Spared other s (respond env r headers body agent_id key request action_id result s).1
  unfolding respond
  respond-Spared key request action_id (err e) s = record { authorizer = refl; limiter = refl }
  respond-Spared key request action_id (ok response) s = record {
    authorizer = ap (get_agent other) (count_action-kept env r headers body request _).0;
    limiter = ap (get other) (count_action-kept env r headers body request _).1;
  }

  process-Spared :
      (key : Uuid) (request : ActionRequest) (authorizer : P0Authorizer) (s : AppState W)
      → Spared other s (process env r headers body agent_id key request authorizer s).1
  unfolding process get_agent
  process-Spared key request authorizer s =
      let out = pipeline env r headers body agent_id request authorizer s in
      Spared-trans other s (put_back env r headers body agent_id out.1 s) _
        (record {
          authorizer =
              get-insert_other agent_id other out.1.authorizer s.agent_registry.agents differ;
          limiter = refl;
        })
        (respond-Spared key request (env.uuid_to_string r.action_uuid) out.0
          (put_back env r headers body agent_id out.1 s))

  start-Spared :
      (key : Uuid) (s : AppState W) → Spared other s (start env r headers body agent_id key s).1
  unfolding start
  start-Spared key s = elim (Result-cases (env.from_slice body)) [
    | inl (e, failed) ↦ ground (arith, spared other s)
    | inr (request, parsed) ↦ elim (Option-cases (get_agent agent_id s.agent_registry)) [
      | inl missing ↦ ground (arith, spared other s)
      | inr (a, found) ↦ ground (arith, process-Spared key request a s)
    ]
  ]

  deduplicate-Spared :
      (key : Uuid) (s : AppState W)
      → Spared other s (deduplicate env r headers body agent_id key s).1
  unfolding deduplicate
  deduplicate-Spared key s =
      let answer = check_or_insert r.cache key s.idempotency_cache in
      elim (status-cases answer.1) [
        | inl fresh ↦ ground (arith, start-Spared key (record s { idempotency_cache = answer.0 }))
        | inr (inl flying) ↦ ground (arith, spared other s)
        | inr (inr (inl (t, done))) ↦ ground (arith, spared other s)
        | inr (inr (inr over)) ↦ ground (arith, spared other s)
      ]

  -- A request of one agent leaves the capacity and the rate limiter of every other agent as they were,
  -- whatever becomes of it.
  pub handle_action-isolated :
      (s : AppState W)
      → identify env r headers body s ≡ ok agent_id
      → Spared other s (handle_action env r headers body s).1
  unfolding handle_action limit
  handle_action-isolated s identified =
      let limited = (check_rate_limit r.now s agent_id).0 in
      let kept = check_rate_limit-Spared r.now other agent_id s differ in
      elim (Bool-cases (check_rate_limit r.now s agent_id).1) [
        | inr refused ↦ ground (arith, kept)
        | inl allowed ↦ elim (Result-cases (idempotency_key env r headers body)) [
          | inl (e, failed) ↦ ground (arith, kept)
          | inr (key, keyed) ↦ ground (
            arith,
            Spared-trans other s limited (deduplicate env r headers body agent_id key limited).1
                kept (deduplicate-Spared key limited),
          )
        ]
      ]
