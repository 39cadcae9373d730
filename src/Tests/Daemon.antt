-- ===== src/Tests/Daemon.antt =====
-- safa-daemon/src/server.rs: requests of the two agents.
use ama.Prelude.{
  ◌≡◌, refl, ◌≢◌, ◌⊎◌, String, some, [], ◌∷◌, get, insert, retain, string_eq, nat_eq, arith,
}
use text.Mathlib.TextEquality.{eq_iff}
use ama.Idempotency.{check_or_insert}
use ama.Slime.Registry.{get_agent, new_registry}
use ama.Server.{new_state, check_rate_limit}
use ama.Server.Handler.{handle_action, identify, idempotency_key}
use ama.Server.Gates.{Gated, no_secret, Quiet, handle_action-gates}
use ama.Server.Replay.{Saw, replayed, handle_action-retry}
use ama.Server.Attested.{Attests, handle_action-attested}
use ama.Audit.{ProofRecord, get_proof}
use ama.Server.Isolation.{Spared, handle_action-isolated}
use ama.Pipeline.Process.{check}
use ama.Schema.{validate_magnitude}
use ama.Pipeline.{validate_field_exclusivity, actuate}
use ama.Pipeline.Canonicalize.{canonicalize, canonical_file_write, workspace_path, max_payload}
use ama.Newtypes.Path.{
  new_with_agent, check_relative, resolve, effective_root, components, confine, canonical_root,
  path_starts_with,
}
use ama.Prelude.{starts_with, contains_char, split, contains}
use ama.Newtypes.{bounded_bytes}
use ama.Mapper.{map_action}
use ama.Slime.Reserve.{reserve}
use ama.Slime.{check_only, check_policy, next_capacity}
use ama.Tests.Fixtures.{config, env, reading, later, headers, state, ann, policy, write_request}

handle_action-gates_example :
    Gated env reading headers (1 ∷ []) state
    ⊎ Quiet state (handle_action env reading headers (1 ∷ []) state).1
handle_action-gates_example = handle_action-gates env reading headers (1 ∷ []) state

ann_not_bob : ◌≢◌ {A = String} "ann" "bob"
ann_not_bob h = ground (arith, (eq_iff "ann" "bob").1 h)

handle_action-isolated_example :
    Spared "bob" state (handle_action env reading headers (1 ∷ []) state).1
unfolding new_state identify get
handle_action-isolated_example =
    handle_action-isolated env reading headers (1 ∷ []) "bob" "ann" ann_not_bob state refl

abbrev gated : Gated env reading headers (1 ∷ []) state
unfolding new_state identify check_rate_limit idempotency_key check_or_insert get_agent get insert
    new_registry retain
gated = record {
  agent_id = "ann";
  key = 7;
  identified = refl;
  resolved = refl;
  trusted = no_secret ann refl refl;
  allowed = refl;
  keyed = refl;
  fresh = refl;
  started = record {
    request = write_request;
    authorizer = record {
      capacity = 0;
      max_capacity = 12;
      domains = ("fs", policy) ∷ [];
      session_id = 1;
    };
    parsed = refl;
    registered = refl;
  };
}

handle_action-attested_example :
    (p : ProofRecord) × (get_proof "aaaaaaaaa."
        (handle_action env reading headers (1 ∷ []) state).1.proof_store
      ≡ some p)
    × Attests env reading headers
        (1 ∷ [])
        "ann"
        write_request
        config
        (handle_action env reading headers (1 ∷ []) state).0
        p
unfolding new_state gated
handle_action-attested_example =
    handle_action-attested env reading headers (1 ∷ []) state gated
      (record { map = tt; bounded = omega arith; some_room = omega arith })

handle_action-retry_example :
    (t : String) × Saw env reading headers
      (1 ∷ [])
      t
      (handle_action env reading headers (1 ∷ []) state).0
    × ((handle_action env later headers [] (handle_action env reading headers (1 ∷ []) state).1).0
        ≡ replayed env reading headers (1 ∷ []) t)
    × Quiet
        (handle_action env reading headers (1 ∷ []) state).1
        (handle_action env later headers [] (handle_action env reading headers (1 ∷ []) state).1).1
unfolding new_state gated handle_action identify check_rate_limit idempotency_key check
    validate_magnitude validate_field_exclusivity canonicalize canonical_file_write workspace_path
    new_with_agent check_relative starts_with contains_char split resolve effective_root components
    bounded_bytes max_payload actuate map_action confine canonical_root path_starts_with reserve
    check_only contains check_policy next_capacity
handle_action-retry_example =
    handle_action-retry env reading later headers headers (1 ∷ []) [] state gated "ann" tt refl refl
      refl (omega arith) (omega arith)
