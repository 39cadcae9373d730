-- ===== src/Tests/Processes.antt =====
-- safa-core/src/actuator/shell.rs: operating systems on which no process starts, one ends in time, and one
-- does not end.
use ama.Prelude.{ℕ, refl, String, true, Option, none, some, List, [], ◌∷◌, arith, length, pos}
use ama.Errors.{ok, err}
use ama.Actuator.Shell.{Os, ShellExecResult, command, shell_exec}
use ama.Actuator.Shell.Lifecycle.{Lifecycle, answer, calls, started, shell_exec-Lifecycle}
use ama.Actuator.Shell.Bounded.{Reads, Output, shell_exec-Output}
use ama.Tests.Fixtures.{tally}
use ama.Tests.Files.{letters, length-letters, len-tally}

-- The text of so many bytes is that many letters.
abbrev read_text : List ℕ → Option String
read_text bytes = some (tally (length bytes) "")

abbrev pub no_process : {W : Type 0} → Os W
no_process = record {
  spawn = λ c w. (err "no processes", w);
  read = λ n w. ((ok [], ok []), w);
  wait = λ w. (err "no child", w);
  interrupted = λ t n w. none;
  kill = λ pid s w. w;
  sleep = λ n w. w;
  from_utf8 = read_text;
}

-- A process with the id 7 that fills standard output. The world says whether it is too late.
abbrev system : Os (Option ℕ)
system = record {
  spawn = λ c w. (ok (some 7), w);
  read = λ n w. ((ok (letters n), err "broken pipe"), w);
  wait = λ w. (ok (some (pos 0)), w);
  interrupted = λ t n w. elim w [ none ↦ none | some k ↦ some (some k) ];
  kill = λ pid s w. w;
  sleep = λ n w. w;
  from_utf8 = read_text;
}

shell_exec-Lifecycle_example :
    Lifecycle system
      (started system "/bin/ls" ("-l" ∷ []) "/w" "1" 15 65536 (some 0))
      15
      65536
      (some 0)
      (answer system "/bin/ls" ("-l" ∷ []) "/w" "1" 15 65536 (some 0))
      (calls system "/bin/ls" ("-l" ∷ []) "/w" "1" 15 65536 (some 0))
shell_exec-Lifecycle_example =
    shell_exec-Lifecycle system "/bin/ls" ("-l" ∷ []) "/w" "1" 15 65536 (some 0)

reads : Reads system
reads = record {
  stdout_fits = λ n w. omega (arith, length-letters n);
  stderr_fits = λ n w. omega arith;
  from_utf8-len = λ bytes s h. ground (arith, len-tally (length bytes));
}

abbrev letters_read : ShellExecResult
letters_read = record { stdout = "aaa"; stderr = ""; exit_code = pos 0; truncated = true }

shell_exec-Output_example : Output system 3 (command "/bin/ls" [] "/w" "1") 15 none letters_read
unfolding shell_exec
shell_exec-Output_example =
    shell_exec-Output system 3 reads "/bin/ls" [] "/w" "1" 15 none letters_read refl
