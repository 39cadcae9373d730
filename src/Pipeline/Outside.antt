-- ===== src/Pipeline/Outside.antt =====
-- safa-core/src/pipeline.rs: the actuators that `actuate` calls. The world is the state of the file
-- system beside that of everything else.
pub mod Writes
use ama.Prelude.{ℕ, ℤ, String, Bool, Option, none, some, List}
use ama.Errors.{Result, ok, err, AmaError}
use ama.Config.{AllowlistEntry}
use ama.Newtypes.{BoundedBytes, HttpMethod}
use ama.Newtypes.Url.{AllowlistedUrl}
use ama.Newtypes.Path.{FilePath, FileSystem}
use ama.Actuator.File.{Disk, FileWriteResult, FileReadResult, file_write, file_read}
use ama.Actuator.Http.{Network, HttpResult, http_request}
use ama.Actuator.Shell.{Os, ShellExecResult, shell_exec}
use ama.Pipeline.{Actuators}

-- The file system, the network and the processes. `interrupted` is the state in which a timeout leaves
-- an HTTP request, if its time elapses.
pub record Outside (F N : Type 0) : Type 0 where
  pub disk : Disk F
  pub canonicalize : F → FilePath → Result String FilePath
  pub network : Network N
  pub interrupted : ℕ → HttpMethod → AllowlistedUrl → N → Option N
  pub os : Os (F × N)

abbrev written : Result AmaError FileWriteResult → Result AmaError ℕ
written (ok r) = ok r.bytes_written
written (err e) = err e

abbrev contents : Result AmaError FileReadResult → Result AmaError (String × ℕ × ℕ × Bool)
contents (ok r) = ok (r.content, r.bytes_returned, r.total_bytes, r.truncated)
contents (err e) = err e

abbrev answer : Result AmaError HttpResult → Result AmaError (ℕ × String × Bool)
answer (ok r) = ok (r.status_code, r.body, r.truncated)
answer (err e) = err e

abbrev output : Result AmaError ShellExecResult → Result AmaError (String × String × ℤ × Bool)
output (ok r) = ok (r.stdout, r.stderr, r.exit_code, r.truncated)
output (err e) = err e

module _ {F N : Type 0} (o : Outside F N) where
  -- The file actuators run to their end before the runtime can look at the timeout around them.
  unfoldable pub actuators : Actuators (F × N)
  unfolding file_write file_read http_request shell_exec
  actuators = record {
    file_system = λ w. record { exists = o.disk.exists w.0; canonicalize = o.canonicalize w.0 };
    file_write = λ timeout path content action_id w.
        let (r, f) = file_write o.disk path content action_id w.0 in (some (written r), (f, w.1));
    file_read = λ timeout path limit w. (some (contents (file_read o.disk path limit w.0)), w);
    shell_exec = λ binary args dir action_id timeout limit w.
        let (r, w') = shell_exec o.os binary args dir action_id timeout limit w in (output r, w');
    http_request = λ timeout method url body allowlist w.
        elim (o.interrupted timeout method url w.1) [
          | some n ↦ (none, (w.0, n))
          | none ↦
              let (r, n) = http_request o.network method url body allowlist w.1 in
              (some (answer r), (w.0, n))
        ];
  }
