-- ===== src/Server/Gates.antt =====
-- safa-daemon/src/server.rs: what a request must pass before `handle_action` acts for it.
use ama.Prelude.{
  ℕ, ◌≡◌, refl, ◌⊎◌, inl, inr, String, true, none, some, List, arith, get, string_eq, Uuid,
  Option-cases, Bool-cases,
}
use mathlib.Core.Path.{subst}
use ama.Errors.{Result-cases, ok, >>=-eq-ok, ok_injective}
use ama.Config.{AgentConfig}
use ama.Schema.{ActionRequest}
use ama.Slime.{P0Authorizer}
use ama.Slime.Registry.{get_agent}
use ama.Idempotency.{IdempotencyStatus, new, in_flight, cached, full, check_or_insert}
use ama.Identity.Verify.{IsAuthentic, verify_identity_iff}
use ama.Server.{HeaderMap, header_text, AppState, resolve_agent_id, check_rate_limit}
use ama.Server.Handler.{
  Env, Reading, verify_agent, idempotency_key, start, deduplicate, limit, identify, handle_action,
}

pub status-cases :
    (v : IdempotencyStatus)
    → (v ≡ new) ⊎ (v ≡ in_flight) ⊎ ((text : String) × (v ≡ cached text)) ⊎ (v ≡ full)
status-cases new = inl refl
status-cases in_flight = inr (inl refl)
status-cases (cached text) = inr (inr (inl (text, refl)))
status-cases full = inr (inr (inr refl))

-- Nothing but the rate limiters and the idempotency cache differs.
pub record Quiet {W : Type 0} (s t : AppState W) : Type 0 where
  pub world : t.world ≡ s.world
  pub agent_registry : t.agent_registry ≡ s.agent_registry
  pub log : t.log ≡ s.log
  pub proof_store : t.proof_store ≡ s.proof_store
  pub domain_counters : t.domain_counters ≡ s.domain_counters

abbrev quiet : {W : Type 0} (s : AppState W) → Quiet s s
quiet s = record {
  world = refl;
  agent_registry = refl;
  log = refl;
  proof_store = refl;
  domain_counters = refl;
}

pub check_rate_limit-kept :
    {W : Type 0} (now : ℕ) (s : AppState W) (agent_id : String)
    → Quiet s (check_rate_limit now s agent_id).0
      × ((check_rate_limit now s agent_id).0.idempotency_cache ≡ s.idempotency_cache)
unfolding check_rate_limit
check_rate_limit-kept now s agent_id = elim (Option-cases (get agent_id s.agent_rate_limiters)) [
  | inl missing ↦ ground (arith, quiet s)
  | inr (rl, found) ↦ ground arith
]

module _ {W : Type 0} (env : Env W) (r : Reading) (headers : HeaderMap) (body : List ℕ) where
  -- The agent has no secret, or the request is signed with it.
  pub data Trusted (agent_id : String) (s : AppState W) : Type 0 where
    unconfigured : get agent_id s.config.agents ≡ none → Trusted agent_id s
    no_secret :
        (a : AgentConfig)
        → get agent_id s.config.agents ≡ some a
        → a.secret ≡ none
        → Trusted agent_id s
    signed :
        (a : AgentConfig) (secret : String)
        → get agent_id s.config.agents ≡ some a
        → a.secret ≡ some secret
        → IsAuthentic env.crypto secret agent_id
            (header_text "x-agent-timestamp" headers)
            (header_text "x-agent-signature" headers)
            body
            r.now_secs
        → Trusted agent_id s

  -- The request has a body that parses, and its agent an authorizer.
  pub record Started (agent_id : String) (s : AppState W) : Type 0 where
    pub request : ActionRequest
    pub authorizer : P0Authorizer
    pub parsed : env.from_slice body ≡ ok request
    pub registered : get_agent agent_id s.agent_registry ≡ some authorizer

  -- The request reached the pipeline, in a state with these limiters and this cache.
  pub record Gated (s : AppState W) : Type 0 where
    pub agent_id : String
    pub key : Uuid
    pub identified : identify env r headers body s ≡ ok agent_id
    pub resolved : resolve_agent_id headers s ≡ ok agent_id
    pub trusted : Trusted agent_id s
    pub allowed : (check_rate_limit r.now s agent_id).1 ≡ true
    pub keyed : idempotency_key env r headers body ≡ ok key
    pub fresh : (check_or_insert r.cache key s.idempotency_cache).1 ≡ new
    pub started : Started agent_id s

  start-Started :
      (agent_id : String) (key : Uuid) (s : AppState W)
      → Started agent_id s ⊎ Quiet s (start env r headers body agent_id key s).1
  unfolding start
  start-Started agent_id key s = elim (Result-cases (env.from_slice body)) [
    | inl (e, failed) ↦ inr (ground (arith, quiet s))
    | inr (request, parsed) ↦ elim (Option-cases (get_agent agent_id s.agent_registry)) [
      | inl missing ↦ inr (ground (arith, quiet s))
      | inr (authorizer, found) ↦ inl (record {
        request = request;
        authorizer = authorizer;
        parsed = parsed;
        registered = found;
      })
    ]
  ]

  deduplicate-Started :
      (agent_id : String) (key : Uuid) (s : AppState W)
      → (((check_or_insert r.cache key s.idempotency_cache).1 ≡ new) × Started agent_id s)
        ⊎ Quiet s (deduplicate env r headers body agent_id key s).1
  unfolding deduplicate
  deduplicate-Started agent_id key s =
      let answer = check_or_insert r.cache key s.idempotency_cache in
      elim (status-cases answer.1) [
        | inl fresh ↦
            elim (start-Started agent_id key (record s { idempotency_cache = answer.0 })) [
              | inl st ↦ inl (
                fresh,
                record {
                  request = st.request;
                  authorizer = st.authorizer;
                  parsed = st.parsed;
                  registered = st.registered;
                },
              )
              | inr q ↦ inr (ground (arith, q))
            ]
        | inr (inl flying) ↦ inr (ground (arith, quiet s))
        | inr (inr (inl (t, done))) ↦ inr (ground (arith, quiet s))
        | inr (inr (inr over)) ↦ inr (ground (arith, quiet s))
      ]

  verify_agent-Trusted :
      (agent_id : String) (s : AppState W)
      → verify_agent env r headers body agent_id s ≡ ok tt
      → Trusted agent_id s
  unfolding verify_agent
  verify_agent-Trusted agent_id s h = elim (Option-cases (get agent_id s.config.agents)) [
    | inl missing ↦ unconfigured missing
    | inr (a, found) ↦ elim (Option-cases a.secret) [
      | inl bare ↦ no_secret a found bare
      | inr (secret, bound) ↦ signed a secret found bound (
          (verify_identity_iff env.crypto secret agent_id body r.now_secs
              (header_text "x-agent-timestamp" headers) (header_text "x-agent-signature" headers)).0
            (ground arith))
    ]
  ]

  identify-Trusted :
      (agent_id : String) (s : AppState W)
      → identify env r headers body s ≡ ok agent_id
      → (resolve_agent_id headers s ≡ ok agent_id) × Trusted agent_id s
  unfolding identify
  identify-Trusted agent_id s h =
      let resolved = >>=-eq-ok (resolve_agent_id headers s) _ agent_id h in
      let verified =
        >>=-eq-ok (verify_agent env r headers body resolved.0 s) _ agent_id resolved.2 in
      let same = ok_injective verified.2 in
      (
        rw same at resolved.1,
        subst (λ a. Trusted a s) same (verify_agent-Trusted resolved.0 s verified.1),
      )

  limit-Gated :
      (agent_id : String) (s : AppState W)
      → identify env r headers body s ≡ ok agent_id
      → Gated s ⊎ Quiet s (limit env r headers body agent_id s).1
  unfolding limit
  limit-Gated agent_id s identified =
      let known = identify-Trusted agent_id s identified in
      let kept = check_rate_limit-kept r.now s agent_id in
      let limited = (check_rate_limit r.now s agent_id).0 in
      elim (Bool-cases (check_rate_limit r.now s agent_id).1) [
        | inr refused ↦ inr (ground (arith, kept.0))
        | inl allowed ↦ elim (Result-cases (idempotency_key env r headers body)) [
          | inl (e, failed) ↦ inr (ground (arith, kept.0))
          | inr (key, keyed) ↦ elim (deduplicate-Started agent_id key limited) [
            | inl (fresh, st) ↦ inl (record {
              agent_id = agent_id;
              key = key;
              identified = identified;
              resolved = known.0;
              trusted = known.1;
              allowed = allowed;
              keyed = keyed;
              fresh = rw kept.1 at fresh;
              started = record {
                request = st.request;
                authorizer = st.authorizer;
                parsed = st.parsed;
                registered = rw kept.0.agent_registry at st.registered;
              };
            })
            | inr q ↦ inr (ground (arith, q, kept.0))
          ]
        ]
      ]

  -- Whatever a request changes beyond the rate limiters and the idempotency cache, it changes only
  -- after every gate: its agent is known, the request is signed if the agent has a secret, the rate limit
  -- lets it through, its idempotency key is valid and was never seen or has expired, and its body parses.
  pub handle_action-gates :
      (s : AppState W) → Gated s ⊎ Quiet s (handle_action env r headers body s).1
  unfolding handle_action
  handle_action-gates s = elim (Result-cases (identify env r headers body s)) [
    | inl (resp, failed) ↦ inr (ground (arith, quiet s))
    | inr (agent_id, identified) ↦ elim (limit-Gated agent_id s identified) [
      | inl g ↦ inl g
      | inr q ↦ inr (ground (arith, q))
    ]
  ]
