-- ===== src/Server/Handler.antt =====
-- safa-daemon/src/server.rs: `handle_action`, one request from its headers to its response.
use Prim.Native.String.{◌++◌}
use mathlib.Core.Option.{none, some}
use ama.Prelude.{
  ℕ, String, not, List, [], ◌∷◌, get, insert, string_eq, if◌then◌else◌, Uuid, to_string, is_empty,
}
use ama.Errors.{
  Result, ok, err, AmaError, bad_request, conflict, validation, service_unavailable, Json, object,
  texts, error_body, display, ◌>>=◌, ◌>>◌,
}
use ama.Schema.{ActionRequest, ActionResponse}
use ama.Newtypes.{Unicode}
use ama.Idempotency.{
  UuidCrate, validate_idempotency_key, new, in_flight, cached, full, Clock, check_or_insert,
  complete, remove_key,
}
use ama.Identity.{Crypto, IdentityError, verify_identity}
use ama.Identity
use ama.Audit.{Order, ProofRecord, insert_proof}
use ama.Mapper.{map_action}
use ama.Manifest.{ManifestForHashing, from_agent_config, hash}
use ama.Slime.{P0Authorizer}
use ama.Slime.Registry.{get_agent}
use ama.Pipeline.{Actuators}
use ama.Pipeline.Process.{State, Context, process_action}
use ama.Pipeline.Process
use ama.Pipeline.Process.Budget.{p0_authorizer}
use ama.Server.{
  json, text, Response, HeaderMap, header_text, AppState, ama_error_response, resolve_agent_id,
  check_rate_limit, increment_domain_counter,
}

-- What the handler calls and the repository does not define: the crates, and the actuators.
pub record Env (W : Type 0) : Type 0 where
  pub unicode : Unicode
  pub uuids : UuidCrate
  pub uuid_to_string : Uuid → String
  pub crypto : Crypto
  pub io : Actuators W
  pub order : Order
  -- `serde_json`: `from_slice` of a body, with the text of its error, and `to_string` of a response, of
  -- a manifest and of a value.
  pub from_slice : List ℕ → Result String ActionRequest
  pub response_to_string : ActionResponse → String
  pub manifest_to_string : ManifestForHashing → String
  pub json_to_string : Json → String

-- What the handler reads of the clocks and draws at random.
pub record Reading : Type 0 where
  pub now_secs : ℕ
  pub now : ℕ
  pub cache : Clock
  pub action_uuid : Uuid
  pub pipeline : Process.Clock
  pub timestamp_epoch : ℕ

module _ {W : Type 0} (env : Env W) (r : Reading) (headers : HeaderMap) (body : List ℕ) where
  -- Step 0.5.
  unfoldable pub verify_agent : String → AppState W → Result Response (Unit {0})
  unfolding verify_identity
  verify_agent agent_id s = elim (get agent_id s.config.agents) [
    | none ↦ ok tt
    | some agent_config ↦ elim agent_config.secret [
      | none ↦ ok tt
      | some secret ↦
          elim (verify_identity env.crypto secret agent_id (header_text "x-agent-timestamp" headers)
            (header_text "x-agent-signature" headers) body r.now_secs) [
              | ok u ↦ ok tt
              | err e ↦ err (record {
                status = 403;
                headers = [];
                body = json (error_body "identity_verification_failed" (Identity.display e));
              })
            ]
    ]
  ]

  -- Steps 2 and 3.
  unfoldable pub idempotency_key : Result Response Uuid
  unfolding validate_idempotency_key
  idempotency_key = elim (get "idempotency-key" headers) [
    | none ↦ err (ama_error_response (bad_request "missing Idempotency-Key header"))
    | some val ↦ elim val [
      | none ↦ err (ama_error_response (bad_request "Idempotency-Key header is not valid ASCII"))
      | some key ↦ elim (validate_idempotency_key env.uuids key) [
        | ok k ↦ ok k
        | err e ↦ err (ama_error_response e)
      ]
    ]
  ]

  unfoldable pub policy_hash : String → AppState W → String
  unfolding from_agent_config hash
  policy_hash agent_id s = elim (get agent_id s.config.agents) [
    | none ↦ ""
    | some ac ↦ hash (from_agent_config env.manifest_to_string env.crypto.sha256_hex ac)
  ]

  -- `json!({"status": "error", "message": other.to_string()})` is the last case.
  unfoldable pub cached_json : AmaError → Json
  unfolding display
  cached_json AmaError.impossible = object (texts (("status", "impossible") ∷ []))
  cached_json (bad_request message) = error_body "bad_request" message
  cached_json (validation error_class message) = error_body error_class message
  cached_json (service_unavailable message) = error_body "service_unavailable" message
  cached_json other = object (texts (("status", "error") ∷ ("message", display other) ∷ []))

  abbrev verdict_text : Result AmaError ActionResponse → String
  verdict_text (ok x) = "AUTHORIZED"
  verdict_text (err e) = "IMPOSSIBLE"

  abbrev policy_headers : String → List (String × String)
  policy_headers h = if is_empty h then [] else ("x-safa-policy-hash", h) ∷ []

  -- The counter of the action's domain, after a success.
  unfoldable pub count_action : ActionRequest → AppState W → AppState W
  unfolding map_action increment_domain_counter
  count_action request s = elim (map_action request.action request.magnitude s.config) [
    | ok mapping ↦ increment_domain_counter mapping.domain_id s
    | err e ↦ s
  ]

  -- Step 7, after the pipeline.
  unfoldable pub respond :
      String
      → Uuid
      → ActionRequest
      → String
      → Result AmaError ActionResponse
      → AppState W
      → Response × AppState W
  unfolding policy_hash cached_json insert_proof complete count_action
  respond agent_id idem_key request action_id result s =
      let manifest_hash = policy_hash agent_id s in
      let proof : ProofRecord = record {
        request_id = action_id;
        agent_id = agent_id;
        action = request.action;
        verdict = verdict_text result;
        manifest_hash = manifest_hash;
        timestamp = to_string r.timestamp_epoch;
      } in
      let proved : AppState W = record s {
        proof_store = insert_proof env.order proof s.proof_store;
      } in
      elim result [
        | ok response ↦
            let response_json = env.response_to_string response in
            let counted = count_action request proved in
            (
              record {
                status = 200;
                headers = ("content-type", "application/json") ∷ policy_headers manifest_hash;
                body = text response_json;
              },
              record counted {
                idempotency_cache = complete idem_key response_json counted.idempotency_cache;
              },
            )
        | err e ↦ (
          ama_error_response e,
          record proved {
            idempotency_cache =
                complete idem_key (env.json_to_string (cached_json e)) proved.idempotency_cache;
          },
        )
      ]

  abbrev pub context : String → AppState W → Context P0Authorizer W
  context agent_id s = record {
    unicode = env.unicode;
    sha256_hex = env.crypto.sha256_hex;
    slime = p0_authorizer;
    io = env.io;
    config = s.config;
    session_id = env.uuid_to_string s.session_id;
    agent_id = some agent_id;
  }

  abbrev pub put_back : String → State P0Authorizer W → AppState W → AppState W
  put_back agent_id p s = record s {
    agent_registry = record { agents = insert agent_id p.authorizer s.agent_registry.agents };
    world = p.world;
    log = p.log;
  }

  -- The call of the pipeline with the agent's authorizer.
  unfoldable pub pipeline :
      String
      → ActionRequest
      → P0Authorizer
      → AppState W
      → Result AmaError ActionResponse × State P0Authorizer W
  unfolding process_action p0_authorizer
  pipeline agent_id request authorizer s =
      process_action (context agent_id s) request (env.uuid_to_string r.action_uuid) r.pipeline
        (record { authorizer = authorizer; world = s.world; log = s.log })

  -- Steps 6 and 7.
  unfoldable pub process :
      String → Uuid → ActionRequest → P0Authorizer → AppState W → Response × AppState W
  unfolding pipeline respond
  process agent_id idem_key request authorizer s =
      let (result, after) = pipeline agent_id request authorizer s in
      respond agent_id idem_key request (env.uuid_to_string r.action_uuid) result
        (put_back agent_id after s)

  abbrev pub invalid_json : String → Json
  invalid_json e = error_body "bad_request" ("invalid JSON: " ++ e)

  -- Steps 5 and 6, for a new key.
  unfoldable pub start : String → Uuid → AppState W → Response × AppState W
  unfolding process complete remove_key get_agent
  start agent_id idem_key s = elim (env.from_slice body) [
    | err e ↦ (
      record { status = 400; headers = []; body = json (invalid_json e) },
      record s {
        idempotency_cache =
            complete idem_key (env.json_to_string (invalid_json e)) s.idempotency_cache;
      },
    )
    | ok request ↦ elim (get_agent agent_id s.agent_registry) [
      | none ↦ (
        ama_error_response (bad_request ("unknown agent: " ++ agent_id)),
        record s { idempotency_cache = remove_key idem_key s.idempotency_cache },
      )
      | some authorizer ↦ process agent_id idem_key request authorizer s
    ]
  ]

  -- Step 4.
  unfoldable pub deduplicate : String → Uuid → AppState W → Response × AppState W
  unfolding start check_or_insert remove_key
  deduplicate agent_id idem_key s =
      let (cache, status) = check_or_insert r.cache idem_key s.idempotency_cache in
      let entered : AppState W = record s { idempotency_cache = cache } in
      elim status [
        | new ↦ start agent_id idem_key entered
        | in_flight ↦ (
          ama_error_response (conflict "duplicate Idempotency-Key with in-flight request"),
          entered,
        )
        | cached response ↦ (
          record {
            status = 200;
            headers = ("content-type", "application/json") ∷ [];
            body = text response;
          },
          entered,
        )
        | full ↦ (
          record {
            status = 503;
            headers = [];
            body = json (error_body "service_unavailable" "idempotency cache full — fail-closed");
          },
          record s { idempotency_cache = remove_key idem_key cache },
        )
      ]

  -- Steps 1 to 3.
  unfoldable pub limit : String → AppState W → Response × AppState W
  unfolding check_rate_limit idempotency_key deduplicate
  limit agent_id s =
      let (limited, allowed) = check_rate_limit r.now s agent_id in
      if not allowed
      then (
        record {
          status = 429;
          headers = [];
          body = json (error_body "rate_limited" "rate limit exceeded");
        },
        limited,
      )
      else elim idempotency_key [
        | err resp ↦ (resp, limited)
        | ok key ↦ deduplicate agent_id key limited
      ]

  -- Steps 0 and 0.5.
  unfoldable pub identify : AppState W → Result Response String
  unfolding resolve_agent_id verify_agent
  identify s = do agent_id ← resolve_agent_id headers s; verify_agent agent_id s; ok agent_id

  unfoldable pub handle_action : AppState W → Response × AppState W
  unfolding identify limit
  handle_action s = elim (identify s) [ err resp ↦ (resp, s) | ok agent_id ↦ limit agent_id s ]
