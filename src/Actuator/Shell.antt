-- ===== src/Actuator/Shell.antt =====
-- safa-core/src/actuator/shell.rs: a process in a group of its own. The operating system is a parameter;
-- a time is in seconds.
pub mod Bounded
pub mod Lifecycle
use Prim.Native.String.{◌++◌}
use ama.Prelude.{
  ℕ, zero, suc, ◌-◌, ◌^◌, ℤ, pos, negsuc, String, Bool, true, false, Option, none, some, List, [],
  ◌∷◌, ◌||◌, leb, ltb, if◌then◌else◌, length,
}
use ama.Errors.{Result, ok, err, AmaError, service_unavailable, ◌>>=◌, ok_or, map_err}

pub record ShellExecResult : Type 0 where
  pub stdout : String
  pub stderr : String
  pub exit_code : ℤ
  pub truncated : Bool

-- A `tokio::process::Command`: its whole environment, and whether `setpgid(0, 0)` runs before it.
pub record Command : Type 0 where
  pub program : String
  pub args : List String
  pub current_dir : String
  pub env : List (String × String)
  pub own_group : Bool

pub data Signal : Type 0 where
  sigterm : Signal
  sigkill : Signal

-- `spawn` gives the id of the child. `read` is one read from each of the two pipes, joined, into buffers
-- of the given size. `interrupted` is the state in which the timeout leaves the reading and the waiting,
-- if its time elapses. The code of a status is absent if a signal ended the process.
pub record Os (W : Type 0) : Type 0 where
  pub spawn : Command → W → Result String (Option ℕ) × W
  pub read : ℕ → W → (Result String (List ℕ) × Result String (List ℕ)) × W
  pub wait : W → Result String (Option ℤ) × W
  pub interrupted : ℕ → ℕ → W → Option W
  pub kill : ℤ → Signal → W → W
  pub sleep : ℕ → W → W
  pub from_utf8 : List ℕ → Option String

unfoldable pub command : String → List String → String → String → Command
command binary args working_dir action_id = record {
  program = binary;
  args = args;
  current_dir = working_dir;
  env =
      ("PATH", "/usr/bin:/bin")
      ∷ ("HOME", working_dir)
      ∷ ("LANG", "en_US.UTF-8")
      ∷ ("SAFA_ACTION_ID", action_id)
      ∷ [];
  own_group = true;
}

-- `id.unwrap_or(0) as i32`
unfoldable pub as_pid : Option ℕ → ℤ
as_pid none = pos 0
as_pid (some id) = if ltb id (2 ^ 31) then pos id else negsuc (2 ^ 32 - 1 - id)

-- What `unwrap_or(0)` leaves of the buffer.
abbrev pub filled : Result String (List ℕ) → List ℕ
filled (ok bytes) = bytes
filled (err e) = []

abbrev pub code_or : Option ℤ → ℤ
code_or none = negsuc 0
code_or (some code) = code

-- From the bytes of the two streams and the status.
unfoldable pub finish :
    (List ℕ → Option String)
    → ℕ
    → List ℕ
    → List ℕ
    → Result String (Option ℤ)
    → Result AmaError ShellExecResult
finish from_utf8 max_output_bytes stdout_buf stderr_buf status = do
  stdout ← ok_or (from_utf8 stdout_buf) (service_unavailable "stdout contains non-UTF-8 data")
  stderr ← ok_or (from_utf8 stderr_buf) (service_unavailable "stderr contains non-UTF-8 data")
  code ← map_err (λ e. service_unavailable ("wait failed: " ++ e)) status
  ok (record {
    stdout = stdout;
    stderr = stderr;
    exit_code = code_or code;
    truncated =
        leb max_output_bytes (length stdout_buf) || leb max_output_bytes (length stderr_buf);
  })

module _ {W : Type 0} (os : Os W) where
  -- `if pid > 0 { kill(-pid, signal) }`
  unfoldable pub kill_group : ℤ → Signal → W → W
  kill_group (pos zero) signal w = w
  kill_group (pos (suc n)) signal w = os.kill (negsuc n) signal w
  kill_group (negsuc n) signal w = w

  -- The body of the timeout, when it is done in time.
  unfoldable pub capture : ℕ → W → Result AmaError ShellExecResult × W
  unfolding finish
  capture max_output_bytes w =
      let (outputs, w1) = os.read max_output_bytes w in
      let (status, w2) = os.wait w1 in
      (finish os.from_utf8 max_output_bytes (filled outputs.0) (filled outputs.1) status, w2)

  unfoldable pub kill_sequence : ℤ → W → Result AmaError ShellExecResult × W
  unfolding kill_group
  kill_sequence pid w =
      let w1 = kill_group pid sigterm w in
      let w2 = os.sleep 2 w1 in
      let w3 = kill_group pid sigkill w2 in
      let (status, w4) = os.wait w3 in
      (
        ok (record {
          stdout = "";
          stderr = "process killed: timeout exceeded";
          exit_code = negsuc 0;
          truncated = false;
        }),
        w4,
      )

  unfoldable pub shell_exec :
      String → List String → String → String → ℕ → ℕ → W → Result AmaError ShellExecResult × W
  unfolding command as_pid capture kill_sequence
  shell_exec binary args working_dir action_id timeout max_output_bytes w =
      let (spawned, w1) = os.spawn (command binary args working_dir action_id) w in
      elim spawned [
        | err e ↦ (err (service_unavailable ("failed to spawn process: " ++ e)), w1)
        | ok id ↦ elim (os.interrupted timeout max_output_bytes w1) [
          | some w2 ↦ kill_sequence (as_pid id) w2
          | none ↦ capture max_output_bytes w1
        ]
      ]
