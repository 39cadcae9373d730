-- ===== src/Server/Sound/Kept.antt =====
-- safa-daemon/src/server.rs: a request keeps the daemon's state sound.
use text.Mathlib.TextEquality.{eq_iff}
use ama.Prelude.{
  ℕ, ◌≤◌, ◌≡◌, refl, ap, ◌∙◌, inl, inr, String, some, List, arith, get-insert, string_eq, nat_eq,
  ◌==◌, Uuid, u64_max, Option-cases, Bool-cases,
}
use ama.Errors.{Result, Result-cases, ok, err, AmaError}
use ama.Config.{AgentConfig}
use ama.Schema.{ActionRequest, ActionResponse}
use ama.Slime.{P0Authorizer}
use ama.Slime.Registry.{get_agent}
use ama.Idempotency.{IdempotencyCache, check_or_insert}
use ama.Pipeline.Process.Budget.{process_action-budget}
use ama.Server.{HeaderMap, AppState, check_rate_limit}
use ama.Server.Handler.{
  Env, Reading, context, idempotency_key, respond, pipeline, put_back, process, start, deduplicate,
  limit, identify, handle_action,
}
use ama.Server.Gates.{status-cases}
use ama.Server.Replay.{count_action-cache}
use ama.Server.Attested.{count_action-proofs}
use ama.Server.Isolation.{count_action-kept}
use ama.Server.Sound.{Stores, Sound}
use ama.Server.Sound.Stored.{
  complete-Stores, remove-Stores, check_or_insert-Stores, insert_proof-Stores,
}
use ama.Server.Sound.Limited.{Sound-kept, check_rate_limit-Sound}

module _ {W : Type 0} (env : Env W) (r : Reading) (headers : HeaderMap) (body : List ℕ)
    (id : String) (a : AgentConfig) where
  respond-Sound :
      (agent_id : String) (key : Uuid) (request : ActionRequest) (action_id : String)
      (result : Result AmaError ActionResponse) (s : AppState W)
      → Sound id a s
      → Sound id a (respond env r headers body agent_id key request action_id result s).1
  unfolding respond
  respond-Sound agent_id key request action_id (err e) s v = Sound-kept id a s _ v refl refl (
      complete-Stores s.idempotency_cache _
        (insert_proof-Stores s.idempotency_cache s.proof_store v.stores env.order _) key _)
  respond-Sound agent_id key request action_id (ok response) s v =
      Sound-kept id a s _ v (count_action-kept env r headers body request _).0
        (count_action-kept env r headers body request _).1
        (rw
          (
            count_action-cache env r headers body request _,
            count_action-proofs env r headers body request _,
          )
          (complete-Stores s.idempotency_cache _
            (insert_proof-Stores s.idempotency_cache s.proof_store v.stores env.order _) key _))

  -- What the pipeline does to the agent's authorizer.
  put_back-Sound :
      (agent_id : String) (request : ActionRequest) (authorizer : P0Authorizer) (s : AppState W)
      → a.max_capacity ≤ u64_max
      → get_agent agent_id s.agent_registry ≡ some authorizer
      → Sound id a s
      → Sound id a (
          put_back env r headers body agent_id
            (pipeline env r headers body agent_id request authorizer s).1
            s)
  unfolding pipeline get_agent
  put_back-Sound agent_id request authorizer s wide found v =
      let after = (pipeline env r headers body agent_id request authorizer s).1 in
      let kept = get-insert agent_id id after.authorizer s.agent_registry.agents in
      elim (Bool-cases (agent_id == id)) [
        | inl same ↦
            let own : authorizer ≡ v.authorizer =
              ground (arith, found, v.registered, (eq_iff agent_id id).0 same) in
            let full : authorizer.max_capacity ≡ a.max_capacity =
              ap (λ x. x.max_capacity) own ∙ v.same_max in
            let budget =
              process_action-budget (context env r headers body agent_id s) request
                (env.uuid_to_string r.action_uuid) r.pipeline
                (record { authorizer = authorizer; world = s.world; log = s.log })
                (omega (arith, wide, full))
                (omega (arith, full, v.within, ap (λ x. x.capacity) own)) in
            record {
              authorizer = after.authorizer;
              registered = ground (arith, kept, same);
              same_max = budget.0 ∙ full;
              within = omega (arith, budget.1, full);
              limiter = v.limiter;
              limited = v.limited;
              same_limit = v.same_limit;
              stores = v.stores;
            }
        | inr other ↦ record {
          authorizer = v.authorizer;
          registered = ground (arith, kept, other, v.registered);
          same_max = v.same_max;
          within = v.within;
          limiter = v.limiter;
          limited = v.limited;
          same_limit = v.same_limit;
          stores = v.stores;
        }
      ]

  process-Sound :
      (agent_id : String) (key : Uuid) (request : ActionRequest) (authorizer : P0Authorizer)
      (s : AppState W)
      → a.max_capacity ≤ u64_max
      → get_agent agent_id s.agent_registry ≡ some authorizer
      → Sound id a s
      → Sound id a (process env r headers body agent_id key request authorizer s).1
  unfolding process
  process-Sound agent_id key request authorizer s wide found v =
      respond-Sound agent_id key request (env.uuid_to_string r.action_uuid) _ _
        (put_back-Sound agent_id request authorizer s wide found v)

  -- The cache alone is replaced.
  cached-Sound :
      (s : AppState W) (c : IdempotencyCache)
      → Sound id a s
      → Stores c s.proof_store
      → Sound id a (record s { idempotency_cache = c })
  cached-Sound s c v stores = Sound-kept id a s _ v refl refl stores

  start-Sound :
      (agent_id : String) (key : Uuid) (s : AppState W)
      → a.max_capacity ≤ u64_max
      → Sound id a s
      → Sound id a (start env r headers body agent_id key s).1
  unfolding start
  start-Sound agent_id key s wide v = elim (Result-cases (env.from_slice body)) [
    | inl (e, failed) ↦
        rw (failed, start)
          (cached-Sound s _ v (complete-Stores s.idempotency_cache s.proof_store v.stores key _))
    | inr (request, parsed) ↦ elim (Option-cases (get_agent agent_id s.agent_registry)) [
      | inl missing ↦
          rw (parsed, missing, start)
            (cached-Sound s _ v (remove-Stores s.idempotency_cache s.proof_store v.stores key))
      | inr (authorizer, found) ↦
          rw (parsed, found, start) (process-Sound agent_id key request authorizer s wide found v)
    ]
  ]

  deduplicate-Sound :
      (agent_id : String) (key : Uuid) (s : AppState W)
      → a.max_capacity ≤ u64_max
      → Sound id a s
      → Sound id a (deduplicate env r headers body agent_id key s).1
  unfolding deduplicate
  deduplicate-Sound agent_id key s wide v =
      let answer = check_or_insert r.cache key s.idempotency_cache in
      let stores = check_or_insert-Stores s.idempotency_cache s.proof_store v.stores r.cache key in
      let entered = cached-Sound s answer.0 v stores in
      elim (status-cases answer.1) [
        | inl fresh ↦
            rw (fresh, deduplicate)
              (start-Sound agent_id key (record s { idempotency_cache = answer.0 }) wide entered)
        | inr (inl flying) ↦ rw (flying, deduplicate) entered
        | inr (inr (inl (t, done))) ↦ rw (done, deduplicate) entered
        | inr (inr (inr over)) ↦
            rw (over, deduplicate)
              (cached-Sound s _ v (remove-Stores answer.0 s.proof_store stores key))
      ]

  pub handle_action-Sound :
      (s : AppState W)
      → a.max_capacity ≤ u64_max
      → Sound id a s
      → Sound id a (handle_action env r headers body s).1
  unfolding handle_action limit
  handle_action-Sound s wide v = elim (Result-cases (identify env r headers body s)) [
    | inl (resp, failed) ↦ rw (failed, handle_action) v
    | inr (agent_id, known) ↦
        let limited = check_rate_limit-Sound id a r.now agent_id s v in
        rw (known, handle_action)
          (elim (Bool-cases (check_rate_limit r.now s agent_id).1) [
            | inr refused ↦ rw (refused, limit) limited
            | inl allowed ↦ elim (Result-cases (idempotency_key env r headers body)) [
              | inl (resp, failed) ↦ rw (allowed, failed, limit) limited
              | inr (key, keyed) ↦
                  rw (allowed, keyed, limit)
                    (deduplicate-Sound agent_id key (check_rate_limit r.now s agent_id).0 wide
                      limited)
            ]
          ])
  ]
