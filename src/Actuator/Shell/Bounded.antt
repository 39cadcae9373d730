-- ===== src/Actuator/Shell/Bounded.antt =====
-- safa-core/src/actuator/shell.rs: the size of what a process returns.
use Prim.Native.String.{len}
use ama.Prelude.{
  ℕ, ℤ, ◌≤◌, ◌≡◌, refl, ◌↔◌, ◌⊎◌, inl, inr, String, true, Option, none, some, List, arith, length,
  leb, ◌||◌, Option-cases,
}
use mathlib.Core.Path.{subst}
use ama.Errors.{ok, Result-cases, >>=-eq-ok, ok_or, ok_or-some, map_err, map_err-ok, ok_injective}
use ama.Actuator.Shell.Lifecycle.{timed_out}
use ama.Actuator.Shell.{
  ShellExecResult, Command, Os, command, filled, code_or, finish, capture, kill_sequence,
  shell_exec,
}

-- A read does not fill more than its buffer, and a text is as long as its bytes.
pub record Reads {W : Type 0} (os : Os W) : Type 0 where
  pub stdout_fits : (n : ℕ) (w : W) → length (filled (os.read n w).0.0) ≤ n
  pub stderr_fits : (n : ℕ) (w : W) → length (filled (os.read n w).0.1) ≤ n
  pub from_utf8-len :
      (bytes : List ℕ) (s : String) → os.from_utf8 bytes ≡ some s → len s ≡ length bytes

-- Both texts fit, and the result is marked truncated exactly if one of them has filled its buffer.
pub record Bounded (max_output_bytes : ℕ) (r : ShellExecResult) : Type 0 where
  pub stdout : len r.stdout ≤ max_output_bytes
  pub stderr : len r.stderr ≤ max_output_bytes
  pub truncated :
      (r.truncated ≡ true) ↔ ((len r.stdout ≡ max_output_bytes) ⊎ (len r.stderr ≡ max_output_bytes))

-- A buffer is full exactly if its text has the length of the buffer.
full_iff :
    (m a b c d : ℕ)
    → a ≤ m
    → b ≤ m
    → c ≡ a
    → d ≡ b
    → (leb m a || leb m b ≡ true) ↔ ((c ≡ m) ⊎ (d ≡ m))
full_iff m a b c d fits_a fits_b h k = ground arith

module _ {W : Type 0} (os : Os W) (max_output_bytes : ℕ) where
  -- The result is that of one read from each stream and of the wait after it.
  pub record Captured (w : W) (r : ShellExecResult) : Type 0 where
    pub code : Option ℤ
    pub stdout : os.from_utf8 (filled (os.read max_output_bytes w).0.0) ≡ some r.stdout
    pub stderr : os.from_utf8 (filled (os.read max_output_bytes w).0.1) ≡ some r.stderr
    pub waited : (os.wait (os.read max_output_bytes w).1).0 ≡ ok code
    pub exit_code : r.exit_code ≡ code_or code
    pub bounded : Bounded max_output_bytes r

  -- What a run returns, by whether it ends in time.
  pub data Output (c : Command) (timeout : ℕ) (w : W) : ShellExecResult → Type 0 where
    in_time :
        (id : Option ℕ) (r : ShellExecResult)
        → (os.spawn c w).0 ≡ ok id
        → os.interrupted timeout max_output_bytes (os.spawn c w).1 ≡ none
        → Captured (os.spawn c w).1 r
        → Output c timeout w r
    killed :
        (id : Option ℕ) (v : W)
        → (os.spawn c w).0 ≡ ok id
        → os.interrupted timeout max_output_bytes (os.spawn c w).1 ≡ some v
        → Output c timeout w timed_out

  module _ (reads : Reads os) where
    capture-Captured :
        (w : W) (r : ShellExecResult) → (capture os max_output_bytes w).0 ≡ ok r → Captured w r
    unfolding capture finish
    capture-Captured w r h =
        let out_bytes = filled (os.read max_output_bytes w).0.0 in
        let err_bytes = filled (os.read max_output_bytes w).0.1 in
        let status = (os.wait (os.read max_output_bytes w).1).0 in
        let out = >>=-eq-ok (ok_or (os.from_utf8 out_bytes) _) _ r h in
        let error = >>=-eq-ok (ok_or (os.from_utf8 err_bytes) _) _ r out.2 in
        let code = >>=-eq-ok (map_err _ status) _ r error.2 in
        let out_text = ok_or-some (os.from_utf8 out_bytes) _ out.0 out.1 in
        let err_text = ok_or-some (os.from_utf8 err_bytes) _ error.0 error.1 in
        let out_len = reads.from_utf8-len out_bytes out.0 out_text in
        let err_len = reads.from_utf8-len err_bytes error.0 err_text in
        let fits_out = reads.stdout_fits max_output_bytes w in
        let fits_err = reads.stderr_fits max_output_bytes w in
        subst (Captured w) (ok_injective code.2) (record {
          code = code.0;
          stdout = out_text;
          stderr = err_text;
          waited = map_err-ok _ status code.0 code.1;
          exit_code = refl;
          bounded = record {
            stdout = omega (arith, out_len, fits_out);
            stderr = omega (arith, err_len, fits_err);
            truncated =
                full_iff max_output_bytes (length out_bytes) (length err_bytes) (len out.0)
                  (len error.0) fits_out fits_err out_len err_len;
          };
        })

    -- A process that ends in time returns what one read of each of its streams gave, at most the given
    -- number of bytes of each, with its exit code, and is marked truncated exactly if it has filled one
    -- of the buffers; what it writes after that read is neither returned nor marked. One that does not
    -- end in time returns no output of its own.
    pub shell_exec-Output :
        (binary : String) (args : List String) (working_dir action_id : String) (timeout : ℕ)
        (w : W) (r : ShellExecResult)
        → (shell_exec os binary args working_dir action_id timeout max_output_bytes w).0 ≡ ok r
        → Output (command binary args working_dir action_id) timeout w r
    unfolding shell_exec kill_sequence
    shell_exec-Output binary args working_dir action_id timeout w r h =
        let c = command binary args working_dir action_id in
        elim (Result-cases (os.spawn c w).0) [
          | inl (e, failed) ↦ absurd (ground arith)
          | inr (id, started) ↦
              elim (Option-cases (os.interrupted timeout max_output_bytes (os.spawn c w).1)) [
                | inl done ↦
                    in_time id r started done (capture-Captured (os.spawn c w).1 r (ground arith))
                | inr (v, late) ↦
                    let same : timed_out ≡ r = ground arith in
                    subst (Output c timeout w) same (killed id v started late)
              ]
        ]
