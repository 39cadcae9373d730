-- ===== src/Tests/Writes.antt =====
-- safa-core/src/pipeline.rs: a write through the pipeline to a disk that maps paths to texts.
use ama.Prelude.{
  ℕ, refl, false, none, some, [], ◌∷◌, get, string_eq, starts_with, contains_char, split, contains,
}
use ama.Errors.{ok}
use ama.Schema.{ActionResponse, validate_magnitude}
use ama.Newtypes.Path.{
  parent, file_name, new_with_agent, check_relative, resolve, effective_root, components,
}
use ama.Pipeline.Process.{State, Context, process_action, check, reserve_and_execute, execute}
use ama.Pipeline.Process.Budget.{p0_authorizer}
use ama.Slime.{P0Authorizer}
use ama.Pipeline.{validate_field_exclusivity, actuate}
use ama.Pipeline.Canonicalize.{canonicalize, canonical_file_write, workspace_path, max_payload}
use ama.Newtypes.{bounded_bytes}
use ama.Canonical.{to_value, file_written}
use ama.Slime.Reserve.{reserve}
use ama.Slime.{check_policy, next_capacity}
use ama.Mapper.{map_action}
use ama.Actuator.File.{
  with_file_name, tmp_name, check_components, verify_no_symlinks, check_regular, check_target,
  make_parent, replace, file_write,
}
use ama.Pipeline.Outside.{Outside, actuators}
use ama.Pipeline.Outside.Writes.{Written, process_action-Written}
use ama.Tests.Fixtures.{config, write_request, reading}
use ama.Tests.Files.{Store, disk, behaves, old}
use ama.Tests.Network.{network}
use ama.Tests.Processes.{no_process}
use ama.Tests.Actions.{context, before}

abbrev outside : Outside Store ℕ
outside = record {
  disk = disk;
  canonicalize = λ f p. ok p;
  network = network;
  interrupted = λ timeout method url n. none;
  os = no_process;
}

abbrev outer : Context P0Authorizer (Store × ℕ)
outer = record {
  unicode = context.unicode;
  sha256_hex = context.sha256_hex;
  slime = p0_authorizer;
  io = actuators outside;
  config = config;
  session_id = "s";
  agent_id = some "ann";
}

abbrev start : State P0Authorizer (Store × ℕ)
start = record { authorizer = before.authorizer; world = (old, 0); log = [] }

abbrev written : ActionResponse
written = record {
  status = "authorized";
  action_id = "1";
  dry_run = false;
  result = some (to_value (file_written 2));
}

process_action-Written_example :
    Written outside behaves
      ("w" ∷ "ann" ∷ [])
      "a/b"
      "hi"
      (old, 0)
      (process_action outer write_request "1" reading.pipeline start).1.world
unfolding process_action check reserve_and_execute execute validate_magnitude
    validate_field_exclusivity canonicalize canonical_file_write workspace_path new_with_agent
    check_relative starts_with contains_char split resolve effective_root components bounded_bytes
    max_payload actuate map_action contains actuators file_write check_target make_parent replace
    with_file_name tmp_name verify_no_symlinks check_components check_regular get reserve
    check_policy next_capacity parent file_name p0_authorizer
process_action-Written_example =
    process_action-Written outside behaves outer write_request "1" reading.pipeline start written
      refl refl refl
