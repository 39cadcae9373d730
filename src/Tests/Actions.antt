-- ===== src/Tests/Actions.antt =====
-- safa-core/src/pipeline.rs: actions through the pipeline.
use ama.Prelude.{
  true, ℕ, ◌≤◌, ◌≡◌, ◌⊎◌, ◌↔◌, refl, false, none, some, [], ◌∷◌, arith, get, string_eq, starts_with,
  contains_char, split, contains, all_chars,
}
use ama.Errors.{ok, err, AmaError}
use ama.Schema.{ActionRequest, ActionResponse}
use ama.Newtypes.{intent_id, safe_arg}
use ama.Canonical.{CanonicalAction, shell_exec}
use ama.Slime.{P0Authorizer}
use ama.Newtypes.Path.{new_with_agent, check_relative, resolve, effective_root, components}
use ama.Pipeline.Canonicalize.{
  canonicalize, canonical_shell_exec, placeholder_count, validate_arg, get_elem?, workspace_path,
}
use ama.Pipeline.Canonicalize.WellFormed.{WellFormed, canonicalize-WellFormed}
use ama.Pipeline.Process.{State, Context, check, process_action}
use ama.Pipeline.Process.Outcome.{
  Executed, Untouched, Logged, process_action-effects, process_action-log,
}
use ama.Pipeline.Process.Budget.{p0_authorizer, Spent, Free, process_action-budget}
use ama.Pipeline.Process.DryRun.{dry_run_iff}
use ama.Tests.Fixtures.{unicode, files, config, io, crypto, policy, write_request, reading}

abbrev list_request : ActionRequest
list_request = record {
  adapter = "t";
  action = "shell_exec";
  target = "ls";
  magnitude = 1;
  dry_run = false;
  method = none;
  payload = none;
  args = some ("sub/dir" ∷ []);
}

abbrev listing : CanonicalAction
listing = shell_exec (record { text = "ls" }) (record { text = "sub/dir" } ∷ [])

canonicalize-WellFormed_example : WellFormed unicode files config (some "ann") list_request listing
unfolding canonicalize canonical_shell_exec intent_id all_chars get placeholder_count contains
    safe_arg contains_char validate_arg get_elem? workspace_path new_with_agent check_relative split
    resolve effective_root components starts_with
canonicalize-WellFormed_example =
    canonicalize-WellFormed unicode files config (some "ann") list_request listing refl

abbrev pub context : Context P0Authorizer ℕ
context = record {
  unicode = unicode;
  sha256_hex = crypto.sha256_hex;
  slime = p0_authorizer;
  io = io;
  config = config;
  session_id = "s";
  agent_id = some "ann";
}

abbrev pub before : State P0Authorizer ℕ
before = record {
  authorizer = record {
    capacity = 4;
    max_capacity = 12;
    domains = ("fs", policy) ∷ [];
    session_id = 1;
  };
  world = 0;
  log = [];
}

process_action-effects_example :
    Executed context write_request "a" reading.pipeline before
    ⊎ Untouched context write_request "a" reading.pipeline before
process_action-effects_example =
    process_action-effects context write_request "a" reading.pipeline before

process_action-log_example :
    ((e : AmaError) × (check context list_request 0 ≡ err e)
      × ((process_action context list_request "a" reading.pipeline before).0 ≡ err e)
      × ((process_action context list_request "a" reading.pipeline before).1.log ≡ []))
    ⊎ Logged context list_request "a" reading.pipeline before
process_action-log_example = process_action-log context list_request "a" reading.pipeline before

process_action-budget_example :
    ((process_action context write_request "a" reading.pipeline before).1.authorizer.max_capacity
      ≡ 12)
    × ((process_action context write_request "a" reading.pipeline before).1.authorizer.capacity
        ≤ 12)
    × (Spent context write_request "a" reading.pipeline before
        ⊎ Free context write_request "a" reading.pipeline before)
process_action-budget_example =
    process_action-budget context write_request "a" reading.pipeline before (omega arith)
      (omega arith)

dry_run_iff_example :
    ((x : ActionResponse) × ((process_action context
          (record write_request { dry_run = true })
          "a"
          reading.pipeline
          before).0
        ≡ ok x))
    ↔ Executed context write_request "a" reading.pipeline before
dry_run_iff_example = dry_run_iff context write_request "a" reading.pipeline before
