-- ===== src/Pipeline/Process.antt =====
-- safa-core/src/pipeline.rs: `process_action`. The state is the authorizer's, the world that the
-- actuators act on, and the audit log. The readings of the clock are arguments.
pub mod Outcome
pub mod Budget
pub mod DryRun
use ama.Prelude.{
  ℕ, ◌%◌, ◌^◌, String, Bool, true, false, Option, none, some, List, ◌≡◌, if◌then◌else◌, to_string,
}
use ama.Errors.{Result, ok, err, AmaError, ◌>>=◌, ◌>>◌}
use ama.Config.{AmaConfig}
use ama.Schema.{ActionRequest, ActionResponse, validate_magnitude}
use ama.Newtypes.{Unicode}
use ama.Canonical.{CanonicalAction, ActionResult, is_truncated, to_value}
use ama.Slime.{SlimeVerdict, authorized, impossible}
use ama.Mapper.{DomainMapping, map_action}
use ama.Audit.{AuditEntry, compute_request_hash, log_audit}
use ama.Pipeline.{SlimeAuthorizer, Actuators, validate_field_exclusivity, actuate}
use ama.Pipeline.Canonicalize.{canonicalize}

pub record State (A W : Type 0) : Type 0 where
  pub authorizer : A
  pub world : W
  pub log : List AuditEntry

-- The two readings of the clock at the time of the audit entry: the time of day, and the milliseconds
-- since the start.
pub record Clock : Type 0 where
  pub epoch_secs : ℕ
  pub elapsed_ms : ℕ

-- What steps 1 to 4 find out.
pub record Checked : Type 0 where
  pub canonical : CanonicalAction
  pub mapping : DomainMapping

-- The arguments of a call, and the parts of the program that it is given.
pub record Context (A W : Type 0) : Type 0 where
  pub unicode : Unicode
  pub sha256_hex : List ℕ → String
  pub slime : SlimeAuthorizer A
  pub io : Actuators W
  pub config : AmaConfig
  pub session_id : String
  pub agent_id : Option String

module _ {A W : Type 0} (c : Context A W) where
  -- Steps 1 to 4, which change nothing.
  unfoldable pub check : ActionRequest → W → Result AmaError Checked
  check request w = do
    validate_magnitude request.magnitude
    validate_field_exclusivity request
    canonical ← canonicalize c.unicode (c.io.file_system w) c.config c.agent_id request
    mapping ← map_action request.action request.magnitude c.config
    ok (record { canonical = canonical; mapping = mapping })

  unfoldable pub audit_entry :
      ActionRequest → String → DomainMapping → Clock → String → Bool → AuditEntry
  audit_entry request action_id mapping clock status truncated = record {
    timestamp = to_string clock.epoch_secs;
    session_id = c.session_id;
    action_id = action_id;
    adapter = request.adapter;
    action = request.action;
    domain_id = mapping.domain_id;
    magnitude_effective = mapping.magnitude;
    duration_ms = clock.elapsed_ms % 2 ^ 64;
    status = status;
    request_hash =
        compute_request_hash c.sha256_hex request.action request.target request.magnitude;
    truncated = truncated;
  }

  abbrev status_text : SlimeVerdict → String
  status_text authorized = "authorized"
  status_text impossible = "impossible"

  -- Step 5.
  unfoldable pub dry_run :
      ActionRequest
      → String
      → Clock
      → DomainMapping
      → State A W
      → Result AmaError ActionResponse × State A W
  unfolding audit_entry log_audit
  dry_run request action_id clock mapping s =
      let verdict = c.slime.check_only s.authorizer mapping.domain_id mapping.magnitude in
      let entry = audit_entry request action_id mapping clock (status_text verdict) false in
      (
        elim verdict [
          | authorized ↦ ok (record {
            status = "authorized";
            action_id = action_id;
            dry_run = true;
            result = none;
          })
          | impossible ↦ err AmaError.impossible
        ],
        record s { log = log_audit entry s.log },
      )

  abbrev outcome_status : Result AmaError ActionResult → String
  outcome_status (ok r) = "authorized"
  outcome_status (err e) = "error"

  abbrev outcome_truncated : Result AmaError ActionResult → Bool
  outcome_truncated (ok r) = is_truncated r
  outcome_truncated (err e) = false

  abbrev response : String → Result AmaError ActionResult → Result AmaError ActionResponse
  response action_id (err e) = err e
  response action_id (ok r) = ok (record {
    status = "authorized";
    action_id = action_id;
    dry_run = false;
    result = some (to_value r);
  })

  -- Step 7, with the authorizer after the reservation.
  unfoldable pub execute :
      ActionRequest
      → String
      → Clock
      → Checked
      → State A W
      → Result AmaError ActionResponse × State A W
  unfolding audit_entry log_audit
  execute request action_id clock checked s =
      let (result, w) = actuate c.io checked.canonical action_id c.config s.world in
      let entry =
        audit_entry request action_id checked.mapping clock (outcome_status result)
          (outcome_truncated result) in
      (response action_id result, record s { world = w; log = log_audit entry s.log })

  -- Steps 6 and 7.
  unfoldable pub reserve_and_execute :
      ActionRequest
      → String
      → Clock
      → Checked
      → State A W
      → Result AmaError ActionResponse × State A W
  unfolding execute
  reserve_and_execute request action_id clock checked s =
      let mapping = checked.mapping in
      let (a, verdict) = c.slime.try_reserve s.authorizer mapping.domain_id mapping.magnitude in
      elim verdict [
        | authorized ↦ execute request action_id clock checked (record s { authorizer = a })
        | impossible ↦ (
          err AmaError.impossible,
          record s {
            authorizer = a;
            log = log_audit (audit_entry request action_id mapping clock "impossible" false) s.log;
          },
        )
      ]

  unfoldable pub process_action :
      ActionRequest → String → Clock → State A W → Result AmaError ActionResponse × State A W
  unfolding dry_run reserve_and_execute
  process_action request action_id clock s = elim (check request s.world) [
    | err e ↦ (err e, s)
    | ok checked ↦
        if request.dry_run
        then dry_run request action_id clock checked.mapping s
        else reserve_and_execute request action_id clock checked s
  ]
