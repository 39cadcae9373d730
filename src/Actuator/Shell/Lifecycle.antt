-- ===== src/Actuator/Shell/Lifecycle.antt =====
-- safa-core/src/actuator/shell.rs: what happens to the process, and in which order.
use Prim.Native.String.{◌++◌}
use mathlib.Core.List.{◌++◌ as list_append}
use ama.Prelude.{
  ℕ, zero, suc, ◌^◌, ◌<◌, ℤ, negsuc, ◌≡◌, refl, String, Option, none, some, true, List, [], ◌∷◌,
  arith, ltb, Bool-cases, ◌≤◌, false, inl, inr, ◌⊎◌, Option-cases,
}
use ama.Errors.{Result, ok, err, AmaError, service_unavailable, Result-cases}
use ama.Actuator.Shell.{
  ShellExecResult, Command, Signal, sigterm, sigkill, Os, command, as_pid, kill_sequence,
  shell_exec,
}

-- A call of the operating system.
pub data Call : Type 0 where
  spawns : Command → Call
  reads : ℕ → Call
  waits : Call
  kills : ℤ → Signal → Call
  sleeps : ℕ → Call

-- The same operating system, with a record of the calls.
abbrev pub observed : {W : Type 0} → Os W → Os (W × List Call)
observed os = record {
  spawn = λ c w. let r = os.spawn c w.0 in (r.0, (r.1, list_append w.1 (spawns c ∷ [])));
  read = λ n w. let r = os.read n w.0 in (r.0, (r.1, list_append w.1 (reads n ∷ [])));
  wait = λ w. let r = os.wait w.0 in (r.0, (r.1, list_append w.1 (waits ∷ [])));
  interrupted = λ t n w. elim (os.interrupted t n w.0) [ none ↦ none | some v ↦ some (v, w.1) ];
  kill = λ pid s w. (os.kill pid s w.0, list_append w.1 (kills pid s ∷ []));
  sleep = λ n w. (os.sleep n w.0, list_append w.1 (sleeps n ∷ []));
  from_utf8 = os.from_utf8;
}

abbrev pub timed_out : ShellExecResult
timed_out = record {
  stdout = "";
  stderr = "process killed: timeout exceeded";
  exit_code = negsuc 0;
  truncated = false;
}

-- No process id that a signal can be sent to.
abbrev pub Unusable : Option ℕ → Type 0
Unusable none = Unit {0}
Unusable (some id) = (id ≡ 0) ⊎ (2 ^ 31 ≤ id)

-- The answer of a run, and its calls in their order. The child is spawned once. A signal goes only to the
-- group that the child leads.
pub data Lifecycle {W : Type 0} (os : Os W) (c : Command) (timeout max_output_bytes : ℕ) (w : W)
    : Result AmaError ShellExecResult → List Call → Type 0 where
  failed :
      (e : String)
      → (os.spawn c w).0 ≡ err e
      → Lifecycle os c timeout max_output_bytes w
          (err (service_unavailable ("failed to spawn process: " ++ e)))
          (spawns c ∷ [])
  in_time :
      (id : Option ℕ) (r : Result AmaError ShellExecResult)
      → (os.spawn c w).0 ≡ ok id
      → os.interrupted timeout max_output_bytes (os.spawn c w).1 ≡ none
      → Lifecycle os c timeout max_output_bytes w r (spawns c ∷ reads max_output_bytes ∷ waits ∷ [])
  killed :
      (n : ℕ) (v : W)
      → (os.spawn c w).0 ≡ ok (some (suc n))
      → suc n < 2 ^ 31
      → os.interrupted timeout max_output_bytes (os.spawn c w).1 ≡ some v
      → Lifecycle os c timeout max_output_bytes w
          (ok timed_out)
          (spawns c ∷ kills (negsuc n) sigterm ∷ sleeps 2 ∷ kills (negsuc n) sigkill ∷ waits ∷ [])
  unknown :
      (id : Option ℕ) (v : W)
      → (os.spawn c w).0 ≡ ok id
      → Unusable id
      → os.interrupted timeout max_output_bytes (os.spawn c w).1 ≡ some v
      → Lifecycle os c timeout max_output_bytes w (ok timed_out) (spawns c ∷ sleeps 2 ∷ waits ∷ [])

module _ {W : Type 0} (os : Os W) (binary : String) (args : List String)
    (working_dir action_id : String) (timeout max_output_bytes : ℕ) (w : W) where
  abbrev pub answer : Result AmaError ShellExecResult
  answer = (shell_exec os binary args working_dir action_id timeout max_output_bytes w).0

  abbrev pub calls : List Call
  calls =
      (shell_exec (observed os) binary args working_dir action_id timeout max_output_bytes
        (w, [])).1.1

  -- The program with its arguments in its directory, with four variables and none of the gateway's own, and
  -- made the leader of a group of its own before it runs, so that the signals to the group reach what it starts.
  abbrev pub started : Command
  started = record {
    program = binary;
    args = args;
    current_dir = working_dir;
    env =
        ("PATH", "/usr/bin:/bin")
        ∷ ("HOME", working_dir)
        ∷ ("LANG", "en_US.UTF-8")
        ∷ ("SAFA_ACTION_ID", action_id)
        ∷ [];
    own_group = true;
  }

  -- After the timeout.
  sequence-Lifecycle :
      (id : Option ℕ) (v : W)
      → (os.spawn started w).0 ≡ ok id
      → os.interrupted timeout max_output_bytes (os.spawn started w).1 ≡ some v
      → Lifecycle os started timeout max_output_bytes w
          (kill_sequence os (as_pid id) v).0
          (kill_sequence (observed os) (as_pid id) (v, spawns started ∷ [])).1.1
  unfolding kill_sequence as_pid
  sequence-Lifecycle none v h k = unknown none v h tt k
  sequence-Lifecycle (some zero) v h k = unknown (some 0) v h (inl refl) k
  sequence-Lifecycle (some (suc n)) v h k = elim (Bool-cases (ltb (suc n) (2 ^ 31))) [
    | inl small ↦ rw (small, as_pid, kill_sequence) (killed n v h (ground arith) k)
    | inr large ↦
        rw (large, as_pid, kill_sequence) (unknown (some (suc n)) v h (inr (ground arith)) k)
  ]

  -- Whatever the operating system answers: the process is started in a group of its own, with four
  -- environment variables; one that cannot be started is reported; one that ends
  -- in time has been waited for; and one that does not is asked to stop, with the whole group that it leads, is
  -- made to stop two seconds later, is waited for, and is reported as killed. No signal is sent to any
  -- other process, and none if the id of the child is not a positive machine integer.
  pub shell_exec-Lifecycle : Lifecycle os started timeout max_output_bytes w answer calls
  unfolding shell_exec command
  shell_exec-Lifecycle = elim (Result-cases (os.spawn started w).0) [
    | inl (e, h) ↦ rw (h, answer, calls, shell_exec) (failed e h)
    | inr (id, h) ↦
        elim (Option-cases (os.interrupted timeout max_output_bytes (os.spawn started w).1)) [
          | inl k ↦ rw (h, k, answer, calls, shell_exec) (in_time id _ h k)
          | inr (v, k) ↦ rw (h, k, answer, calls, shell_exec) (sequence-Lifecycle id v h k)
        ]
  ]
