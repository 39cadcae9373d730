-- ===== src/Server/Attested.antt =====
-- safa-daemon/src/server.rs: the proof record of a request can be fetched, and says what happened.
use mathlib.Core.Path.{subst}
use ama.Prelude.{
  ℕ, ◌≡◌, refl, sym, ap, ◌∙◌, ◌≢◌, ◌⊎◌, inl, inr, String, Bool, true, false, Option, none, some,
  List, [], ◌∷◌, arith, get, string_eq, Uuid, Option-cases,
}
use ama.Errors.{Result-cases, Result, ok, err, AmaError}
use ama.Schema.{ActionRequest, ActionResponse}
use ama.Idempotency.{check_or_insert}
use ama.Audit.{ProofRecord, get_proof, as_bytes}
use ama.Config.{AmaConfig, AgentConfig}
use ama.Manifest.{ManifestForHashing, is_some, capabilities, hashable, from_agent_config, hash}
use ama.Audit.Proofs.{IsValid, insert_proof-IsValid}
use ama.Mapper.{map_action}
use ama.Server.{
  Response, HeaderMap, AppState, check_rate_limit, ama_error_response, increment_domain_counter,
}
use ama.Server.Handler.{
  Env, Reading, count_action, respond, pipeline, put_back, policy_hash, process, handle_action,
}
use ama.Server.Gates.{Gated}
use ama.Server.Replay.{gated-process}

pub check_rate_limit-proofs :
    {W : Type 0} (now : ℕ) (s : AppState W) (agent_id : String)
    → ((check_rate_limit now s agent_id).0.proof_store ≡ s.proof_store)
      × ((check_rate_limit now s agent_id).0.config ≡ s.config)
unfolding check_rate_limit
check_rate_limit-proofs now s agent_id =
    ground (arith, Option-cases (get agent_id s.agent_rate_limiters))

module _ {W : Type 0} (env : Env W) (r : Reading) (headers : HeaderMap) (body : List ℕ) where
  pub count_action-proofs :
      (request : ActionRequest) (s : AppState W)
      → (count_action env r headers body request s).proof_store ≡ s.proof_store
  unfolding count_action increment_domain_counter
  count_action-proofs request s =
      elim (Result-cases (map_action request.action request.magnitude s.config)) [
        | inl (e, failed) ↦ ground arith
        | inr (mapping, mapped) ↦
            ground (arith, Option-cases (get mapping.domain_id s.domain_counters))
      ]

  -- What the agent's manifest makes public. The secret itself is not in it.
  abbrev pub public_part : AgentConfig → ManifestForHashing
  public_part a = record {
    schema_version = "safa-manifest-v1";
    agent_id = a.agent_id;
    identity_bound = is_some a.secret;
    max_capacity = a.max_capacity;
    rate_limit_per_window = a.rate_limit_per_window;
    rate_limit_window_secs = a.rate_limit_window_secs;
    domains = capabilities a.domain_policies;
  }

  -- The digest of the agent's manifest as `serde_json` writes it, or nothing for an agent without a
  -- configuration.
  pub data PolicyOf (config : AmaConfig) (agent_id : String) : String → Type 0 where
    configured :
        (a : AgentConfig)
        → get agent_id config.agents ≡ some a
        → PolicyOf config agent_id
            (env.crypto.sha256_hex (as_bytes (env.manifest_to_string (public_part a))))
    unconfigured : get agent_id config.agents ≡ none → PolicyOf config agent_id ""

  policy_hash-PolicyOf :
      (agent_id : String) (s : AppState W)
      → PolicyOf s.config agent_id (policy_hash env r headers body agent_id s)
  unfolding policy_hash hash from_agent_config hashable
  policy_hash-PolicyOf agent_id s = elim (Option-cases (get agent_id s.config.agents)) [
    | inl missing ↦ rw (missing, policy_hash) (unconfigured missing)
    | inr (a, found) ↦ rw (found, policy_hash) (configured a found)
  ]

  -- The record of a request, by what its client saw.
  pub record Attests (agent_id : String) (request : ActionRequest) (config : AmaConfig)
      (resp : Response) (p : ProofRecord) : Type 0 where
    pub about :
        (p.request_id ≡ env.uuid_to_string r.action_uuid)
        × (p.agent_id ≡ agent_id)
        × (p.action ≡ request.action)
    pub policy : PolicyOf config agent_id p.manifest_hash
    pub verdict :
        ((p.verdict ≡ "AUTHORIZED") × (resp.status ≡ 200))
        ⊎ ((e : AmaError) × (p.verdict ≡ "IMPOSSIBLE") × (resp ≡ ama_error_response e))

  respond-Attests :
      (agent_id : String) (key : Uuid) (request : ActionRequest)
      (result : Result AmaError ActionResponse) (s : AppState W)
      → IsValid s.proof_store
      → (p : ProofRecord) × (get_proof
            (env.uuid_to_string r.action_uuid)
            (respond env r headers body agent_id key request
              (env.uuid_to_string r.action_uuid)
              result
              s).1.proof_store
          ≡ some p)
        × Attests agent_id request s.config
            (respond env r headers body agent_id key request
              (env.uuid_to_string r.action_uuid)
              result
              s).0
            p
  unfolding respond
  respond-Attests agent_id key request (err e) s v =
      let p : ProofRecord = record {
        request_id = env.uuid_to_string r.action_uuid;
        agent_id = agent_id;
        action = request.action;
        verdict = "IMPOSSIBLE";
        manifest_hash = policy_hash env r headers body agent_id s;
        timestamp = ama.Prelude.to_string r.timestamp_epoch;
      } in
      (
        p,
        (insert_proof-IsValid env.order p s.proof_store v).1,
        record {
          about = (refl, refl, refl);
          policy = policy_hash-PolicyOf agent_id s;
          verdict = inr (e, refl, refl);
        },
      )
  respond-Attests agent_id key request (ok response) s v =
      let p : ProofRecord = record {
        request_id = env.uuid_to_string r.action_uuid;
        agent_id = agent_id;
        action = request.action;
        verdict = "AUTHORIZED";
        manifest_hash = policy_hash env r headers body agent_id s;
        timestamp = ama.Prelude.to_string r.timestamp_epoch;
      } in
      (
        p,
        rw (count_action-proofs request _) (insert_proof-IsValid env.order p s.proof_store v).1,
        record {
          about = (refl, refl, refl);
          policy = policy_hash-PolicyOf agent_id s;
          verdict = inl (refl, refl);
        },
      )

  -- After a request that reached the pipeline, the proof store has its record under the id of the
  -- action: it names the agent, the action and the SHA-256 digest of the agent's manifest, and its verdict is
  -- `AUTHORIZED` with status 200, and `IMPOSSIBLE` with an error.
  pub handle_action-attested :
      (s : AppState W) (g : Gated env r headers body s)
      → IsValid s.proof_store
      → (p : ProofRecord) × (get_proof
            (env.uuid_to_string r.action_uuid)
            (handle_action env r headers body s).1.proof_store
          ≡ some p)
        × Attests g.agent_id g.started.request s.config (handle_action env r headers body s).0 p
  unfolding process
  handle_action-attested s g v =
      let limited = check_rate_limit-proofs r.now s g.agent_id in
      let entered : AppState W = record (check_rate_limit r.now s g.agent_id).0 {
        idempotency_cache = (check_or_insert r.cache g.key s.idempotency_cache).0;
      } in
      let out =
        pipeline env r headers body g.agent_id g.started.request g.started.authorizer entered in
      let done =
        respond-Attests g.agent_id g.key g.started.request out.0
          (put_back env r headers body g.agent_id out.1 entered) (rw limited.0 v) in
      (
        done.0,
        rw (gated-process env r headers body s g) done.1,
        rw (gated-process env r headers body s g) (
            subst
              (λ c.
                Attests g.agent_id g.started.request c
                  (respond env r headers body g.agent_id g.key g.started.request
                    (env.uuid_to_string r.action_uuid) out.0
                    (put_back env r headers body g.agent_id out.1 entered)).0
                  done.0)
              limited.1 done.2),
      )
