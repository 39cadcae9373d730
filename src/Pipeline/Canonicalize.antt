-- ===== src/Pipeline/Canonicalize.antt =====
-- safa-core/src/pipeline.rs: `canonicalize`, from the request to the checked action.
pub mod WellFormed
use Prim.Native.String.{◌++◌}
use ama.Prelude.{
  ℕ, zero, suc, ◌+◌, String, Bool, true, false, not, Option, none, some, List, [], ◌∷◌, length, get,
  ◌==◌, string_eq, nat_beq, if◌then◌else◌, to_string, contains,
}
use ama.Errors.{Result, ok, err, AmaError, validation, ◌>>=◌, ◌>>◌, fail_if, ok_or}
use ama.Config.{AmaConfig, IntentMapping}
use ama.Schema.{ActionRequest}
use ama.Newtypes.{
  Unicode, BoundedBytes, bounded_bytes, SafeArg, safe_arg, IntentId, intent_id, HttpMethod,
  parse_method,
}
use ama.Newtypes.Url.{allowlisted_url}
use ama.Newtypes.Path.{FileSystem, FilePath, components, WorkspacePath, new_with_agent}
use ama.Canonical.{CanonicalAction, file_write, file_read, shell_exec, http_request}

-- `unwrap_or`
abbrev pub unwrap_or {ℓ} : {A : Type ℓ} → Option A → A → A
unwrap_or none d = d
unwrap_or (some a) d = a

-- The payload limit of an action.
unfoldable pub max_payload : AmaConfig → String → ℕ → ℕ
max_payload config action default = elim (get action config.domain_mappings) [
  | none ↦ default
  | some m ↦ unwrap_or m.max_payload_bytes default
]

-- The template elements that hold a placeholder.
unfoldable pub placeholder_count : List String → ℕ
placeholder_count [] = 0
placeholder_count (t ∷ ts) = (if contains t "{{" then 1 else 0) + placeholder_count ts

unfoldable pub get_elem? : List String → ℕ → Option String
get_elem? [] i = none
get_elem? (x ∷ xs) zero = some x
get_elem? (x ∷ xs) (suc i) = get_elem? xs i

module _ (u : Unicode) (fs : FileSystem) (config : AmaConfig) (agent_id : Option String) where
  unfoldable pub workspace_path : String → Result AmaError WorkspacePath
  workspace_path relative = new_with_agent fs relative (components config.workspace_root) agent_id

  -- The validator at a position, if there is one.
  unfoldable pub validate_arg : Option String → String → Result AmaError (Unit {0})
  validate_arg none raw_arg = ok tt
  validate_arg (some validator) raw_arg =
      if validator == "relative_workspace_path"
      then (do p ← workspace_path raw_arg; ok tt)
      else ok tt

  -- The loop over the arguments, from position `i` on.
  unfoldable pub check_args : List String → ℕ → List String → Result AmaError (List SafeArg)
  check_args validators i [] = ok []
  check_args validators i (raw_arg ∷ raw_args) = do
    safe ← safe_arg raw_arg
    validate_arg (get_elem? validators i) raw_arg
    rest ← check_args validators (i + 1) raw_args
    ok (safe ∷ rest)

  unfoldable pub canonical_file_write : ActionRequest → Result AmaError CanonicalAction
  canonical_file_write request = do
    path ← workspace_path request.target
    content ← bounded_bytes (unwrap_or request.payload "") (max_payload config "file_write" 1048576)
    ok (file_write path content)

  unfoldable pub canonical_file_read : ActionRequest → Result AmaError CanonicalAction
  canonical_file_read request = do path ← workspace_path request.target; ok (file_read path)

  unfoldable pub canonical_shell_exec : ActionRequest → Result AmaError CanonicalAction
  unfolding check_args
  canonical_shell_exec request = do
    intent ← intent_id u request.target
    intent_config ←
        ok_or (get intent.text config.intents)
          (validation "unknown_intent" ("intent '" ++ (intent.text ++ "' not in intents.toml")))
    let raw_args = unwrap_or request.args []
    let expected = placeholder_count intent_config.args_template
    fail_if (not (nat_beq (length raw_args) expected)) (
        validation "invalid_args" (
          "intent '"
          ++ (intent.text
              ++ ("' expects "
                  ++ (to_string expected ++ (" args, got " ++ to_string (length raw_args)))))))
    args ← check_args intent_config.validators 0 raw_args
    ok (shell_exec intent args)

  unfoldable pub canonical_body : Option String → Result AmaError (Option BoundedBytes)
  canonical_body none = ok none
  canonical_body (some text) = do
    body ← bounded_bytes text (max_payload config "http_request" 262144)
    ok (some body)

  unfoldable pub canonical_http_request : ActionRequest → Result AmaError CanonicalAction
  unfolding canonical_body
  canonical_http_request request = do
    method ← parse_method u (unwrap_or request.method "")
    url ← allowlisted_url request.target config.allowlist
    body ← canonical_body request.payload
    ok (http_request method url body)

  unfoldable pub canonicalize : ActionRequest → Result AmaError CanonicalAction
  canonicalize request =
      if request.action == "file_write"
      then canonical_file_write request
      else if request.action == "file_read"
      then canonical_file_read request
      else if request.action == "shell_exec"
      then canonical_shell_exec request
      else if request.action == "http_request"
      then canonical_http_request request
      else err (validation "unknown_action" ("unknown action: " ++ request.action))
