-- ===== src/Server/Replay.antt =====
-- safa-daemon/src/server.rs: the answer to a request is kept, and replayed to the same key.
use ama.Prelude.{
  ℕ, ◌-◌, ◌≤◌, ◌<◌, ◌≡◌, refl, ap, inl, inr, String, true, none, some, [], ◌∷◌, List, arith, get,
  string_eq, nat_eq, Uuid, Option-cases, IsMap, beq_refl,
}
use ama.Errors.{Result-cases, Result, ok, err, AmaError}
use ama.Schema.{ActionRequest, ActionResponse}
use ama.Slime.{P0Authorizer}
use ama.Idempotency.{IdempotencyCache, check_or_insert, complete}
use ama.Idempotency.Owner.{
  Owned, complete-Owned, check_self-Owned, check_or_insert-ttl, check_new-Owned,
}
use ama.Mapper.{map_action}
use ama.Server.{
  text, Response, HeaderMap, AppState, ama_error_response, check_rate_limit,
  increment_domain_counter,
}
use ama.Server.Handler.{
  Env, Reading, cached_json, idempotency_key, count_action, respond, pipeline, put_back, process,
  start, deduplicate, limit, identify, handle_action,
}
use ama.Server.Gates.{Gated, Quiet, check_rate_limit-kept}

complete-ttl : (key : Uuid) (t : String) (c : IdempotencyCache) → (complete key t c).ttl ≡ c.ttl
unfolding complete
complete-ttl key t c = ground (arith, Option-cases (get key c.entries))

module _ {W : Type 0} (env : Env W) (r : Reading) (headers : HeaderMap) (body : List ℕ) where
  -- What the client saw: the text itself with status 200, or the error that the text describes.
  pub data Saw (t : String) (resp : Response) : Type 0 where
    result : resp.status ≡ 200 → resp.body ≡ text t → Saw t resp
    failure :
        (e : AmaError)
        → resp ≡ ama_error_response e
        → t ≡ env.json_to_string (cached_json env r headers body e)
        → Saw t resp

  pub count_action-cache :
      (request : ActionRequest) (s : AppState W)
      → (count_action env r headers body request s).idempotency_cache ≡ s.idempotency_cache
  unfolding count_action increment_domain_counter
  count_action-cache request s =
      elim (Result-cases (map_action request.action request.magnitude s.config)) [
        | inl (e, failed) ↦ ground arith
        | inr (mapping, mapped) ↦
            ground (arith, Option-cases (get mapping.domain_id s.domain_counters))
      ]

  respond-completes :
      (agent_id : String) (key : Uuid) (request : ActionRequest) (action_id : String)
      (result : Result AmaError ActionResponse) (s : AppState W)
      → (t : String) × ((respond env r headers body agent_id key request action_id result
            s).1.idempotency_cache
          ≡ complete key t s.idempotency_cache)
        × Saw t (respond env r headers body agent_id key request action_id result s).0
  unfolding respond
  respond-completes agent_id key request action_id (err e) s =
      (env.json_to_string (cached_json env r headers body e), refl, failure e refl refl)
  respond-completes agent_id key request action_id (ok response) s = (
    env.response_to_string response,
    ap (complete key (env.response_to_string response)) (count_action-cache request _),
    Saw.result refl refl,
  )

  process-completes :
      (agent_id : String) (key : Uuid) (request : ActionRequest) (authorizer : P0Authorizer)
      (s : AppState W)
      → (t : String) × ((process env r headers body agent_id key request authorizer
            s).1.idempotency_cache
          ≡ complete key t s.idempotency_cache)
        × Saw t (process env r headers body agent_id key request authorizer s).0
  unfolding process
  process-completes agent_id key request authorizer s =
      let out = pipeline env r headers body agent_id request authorizer s in
      respond-completes agent_id key request (env.uuid_to_string r.action_uuid) out.0
        (put_back env r headers body agent_id out.1 s)

  -- A gated request is handed to `process` with the key in the cache.
  pub gated-process :
      (s : AppState W) (g : Gated env r headers body s)
      → handle_action env r headers body s
        ≡ process env r headers body g.agent_id g.key g.started.request g.started.authorizer
            (record (check_rate_limit r.now s g.agent_id).0 {
              idempotency_cache = (check_or_insert r.cache g.key s.idempotency_cache).0;
            })
  unfolding handle_action limit deduplicate start
  gated-process s g =
      let kept = check_rate_limit-kept r.now s g.agent_id in
      ground (
        arith, g.identified, g.allowed, g.keyed, g.fresh, kept.1, kept.0.agent_registry,
        g.started.parsed, g.started.registered,
      )

  pub handle_action-commits :
      (s : AppState W) (g : Gated env r headers body s)
      → IsMap s.idempotency_cache.entries
      → (t : String) × Owned g.key r.cache.stamp
          (some t)
          (handle_action env r headers body s).1.idempotency_cache
        × ((handle_action env r headers body s).1.idempotency_cache.ttl ≡ s.idempotency_cache.ttl)
        × Saw t (handle_action env r headers body s).0
  handle_action-commits s g map =
      let entered = (check_or_insert r.cache g.key s.idempotency_cache).0 in
      let done =
        process-completes g.agent_id g.key g.started.request g.started.authorizer
          (record (check_rate_limit r.now s g.agent_id).0 { idempotency_cache = entered }) in
      let same = gated-process s g in
      (
        done.0,
        rw (same, done.1)
            (simp (beq_refl) at (
              complete-Owned g.key done.0 g.key r.cache.stamp none entered
                (check_new-Owned r.cache g.key s.idempotency_cache map g.fresh))),
        rw (same, done.1, complete-ttl g.key done.0 entered)
            (check_or_insert-ttl r.cache g.key s.idempotency_cache),
        rw same done.2,
      )

  abbrev pub replayed : String → Response
  replayed t = record {
    status = 200;
    headers = ("content-type", "application/json") ∷ [];
    body = text t;
  }

  Owned-replays :
      (s : AppState W) (agent_id : String) (key : Uuid) (created : ℕ) (t : String)
      → identify env r headers body s ≡ ok agent_id
      → (check_rate_limit r.now s agent_id).1 ≡ true
      → idempotency_key env r headers body ≡ ok key
      → Owned key created (some t) s.idempotency_cache
      → r.cache.purged_at - created < s.idempotency_cache.ttl
      → r.cache.now - created ≤ s.idempotency_cache.ttl
      → ((handle_action env r headers body s).0 ≡ replayed t)
        × Quiet s (handle_action env r headers body s).1
  unfolding handle_action limit deduplicate
  Owned-replays s agent_id key created t identified allowed keyed owned purged live =
      let kept = check_rate_limit-kept r.now s agent_id in
      let answer =
        check_self-Owned r.cache key created (some t) s.idempotency_cache purged live owned in
      (
        ground (arith, identified, allowed, keyed, answer, kept.1),
        ground (arith, identified, allowed, keyed, answer, kept),
      )

-- A retry of a request that reached the pipeline, under the same key and within its time to live, is
-- answered with the kept text of the first answer and carries nothing out, whatever its own body and
-- agent are.
pub handle_action-retry :
    {W : Type 0} (env : Env W) (r r2 : Reading) (headers headers2 : HeaderMap) (body body2 : List ℕ)
    (s : AppState W) (g : Gated env r headers body s) (agent_id : String)
    → IsMap s.idempotency_cache.entries
    → identify env r2 headers2 body2 (handle_action env r headers body s).1 ≡ ok agent_id
    → (check_rate_limit r2.now (handle_action env r headers body s).1 agent_id).1 ≡ true
    → idempotency_key env r2 headers2 body2 ≡ ok g.key
    → r2.cache.purged_at - r.cache.stamp < s.idempotency_cache.ttl
    → r2.cache.now - r.cache.stamp ≤ s.idempotency_cache.ttl
    → (t : String) × Saw env r headers body t (handle_action env r headers body s).0
      × ((handle_action env r2 headers2 body2 (handle_action env r headers body s).1).0
          ≡ replayed env r headers body t)
      × Quiet
          (handle_action env r headers body s).1
          (handle_action env r2 headers2 body2 (handle_action env r headers body s).1).1
handle_action-retry env r r2 headers headers2 body body2 s g agent_id map identified allowed keyed
      purged live =
    let kept = handle_action-commits env r headers body s g map in
    let again =
      Owned-replays env r2 headers2 body2 (handle_action env r headers body s).1 agent_id g.key
        r.cache.stamp kept.0 identified allowed keyed kept.1 (rw kept.2 purged) (rw kept.2 live) in
    (kept.0, kept.3, again.0, again.1)
