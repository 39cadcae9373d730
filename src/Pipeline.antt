-- ===== src/Pipeline.antt =====
-- safa-core/src/pipeline.rs: an action from its request to its result. The authorizer is an argument,
-- as the trait object is; so are the actuators, which act on a world that the model does not open.
pub mod Canonicalize
pub mod Process
pub mod Outside
use Prim.Native.Char.{code}
use ama.Prelude.{
  ℕ, ◌+◌, ◌%◌, ◌^◌, ℤ, String, Bool, true, false, Option, none, some, List, [], ◌∷◌, ◌++◌, HashMap,
  get, ◌==◌, string_eq, if◌then◌else◌, to_string, strip_prefix, parse_u64, Uuid,
}
use ama.Errors.{
  Result, ok, err, AmaError, validation, service_unavailable, ◌>>=◌, ◌>>◌, fail_if, ok_or,
}
use ama.Config.{AmaConfig, IntentMapping, AllowlistEntry}
use ama.Schema.{ActionRequest}
use ama.Newtypes.{BoundedBytes, SafeArg, IntentId, HttpMethod}
use ama.Newtypes.Url.{AllowlistedUrl}
use ama.Newtypes.Path.{WorkspacePath, FileSystem}
use ama.Canonical.{CanonicalAction, ActionResult}
use ama.Slime.{SlimeVerdict}

-- The trait `SlimeAuthorizer`, over the authorizer's state.
pub record SlimeAuthorizer (A : Type 0) : Type 0 where
  pub try_reserve : A → String → ℕ → A × SlimeVerdict
  pub check_only : A → String → ℕ → SlimeVerdict
  pub capacity_used : A → ℕ
  pub capacity_max : A → ℕ
  pub session_id : A → Uuid

-- The actuators. `none` is an elapsed `tokio::time::timeout` of the given seconds around the call.
pub record Actuators (W : Type 0) : Type 0 where
  pub file_system : W → FileSystem
  pub file_write : ℕ → WorkspacePath → BoundedBytes → String → W → Option (Result AmaError ℕ) × W
  pub file_read : ℕ → WorkspacePath → ℕ → W → Option (Result AmaError (String × ℕ × ℕ × Bool)) × W
  pub shell_exec :
      String
      → List String
      → String
      → String
      → ℕ
      → ℕ
      → W
      → Result AmaError (String × String × ℤ × Bool) × W
  pub http_request :
      ℕ
      → HttpMethod
      → AllowlistedUrl
      → Option BoundedBytes
      → List AllowlistEntry
      → W
      → Option (Result AmaError (ℕ × String × Bool)) × W

-- Seconds.
unfoldable pub action_timeout : String → ℕ
action_timeout action =
    if action == "file_write"
    then 5
    else if action == "file_read"
    then 5
    else if action == "shell_exec"
    then 15
    else if action == "http_request"
    then 15
    else 5

is_none {ℓ} : {A : Type ℓ} → Option A → Bool
is_none none = true
is_none (some a) = false

is_some {ℓ} : {A : Type ℓ} → Option A → Bool
is_some none = false
is_some (some a) = true

unfoldable pub validate_field_exclusivity : ActionRequest → Result AmaError (Unit {0})
unfolding is_none is_some
validate_field_exclusivity request =
    if request.action == "file_write"
    then (do
      fail_if (is_none request.payload) (validation "missing_field" "file_write requires 'payload'")
      fail_if (is_some request.args)
          (validation "invalid_field" "file_write does not accept 'args'"))
    else if request.action == "file_read"
    then (do
      fail_if (is_some request.payload)
          (validation "invalid_field" "file_read does not accept 'payload'")
      fail_if (is_some request.args)
          (validation "invalid_field" "file_read does not accept 'args'"))
    else if request.action == "shell_exec"
    then (do
      fail_if (is_none request.args) (validation "missing_field" "shell_exec requires 'args'")
      fail_if (is_some request.payload)
          (validation "invalid_field" "shell_exec does not accept 'payload'"))
    else if request.action == "http_request"
    then (do
      fail_if (is_some request.args)
          (validation "invalid_field" "http_request does not accept 'args'")
      fail_if (is_none request.method)
          (validation "missing_field" "http_request requires 'method'"))
    else ok tt

abbrev onto_some : Prim.Native.Char.Char → Option String → Option String
onto_some c none = none
onto_some c (some s) = some (String.◌∷◌ c s)

-- `str::strip_suffix`
unfoldable pub strip_suffix : String → String → Option String
strip_suffix String.[] p = if p == "" then some "" else none
strip_suffix (String.◌∷◌ c s) p =
    if String.◌∷◌ c s == p then some "" else onto_some c (strip_suffix s p)

get_arg : ℕ → List SafeArg → Option SafeArg
get_arg i [] = none
get_arg ℕ.zero (a ∷ args) = some a
get_arg (ℕ.suc i) (a ∷ args) = get_arg i args

-- The argument that a template element stands for, if it is `{{n}}` with an argument `n`.
unfoldable pub placeholder : String → List SafeArg → Option SafeArg
unfolding strip_suffix get_arg
placeholder tmpl args = elim (strip_prefix tmpl "{{") [
  | none ↦ none
  | some s ↦ elim (strip_suffix s "}}") [
    | none ↦ none
    | some idx_str ↦ elim (parse_u64 idx_str) [ none ↦ none | some idx ↦ get_arg idx args ]
  ]
]

-- The loop that fills the argument template.
unfoldable pub fill_template : List String → List SafeArg → List String
unfolding placeholder
fill_template [] args = []
fill_template (tmpl ∷ tmpls) args =
    (elim (placeholder tmpl args) [ some arg ↦ arg.text | none ↦ tmpl ]) ∷ fill_template tmpls args

module _ {W : Type 0} (io : Actuators W) where
  -- `.map_err(timed out)??` and the constructor of the result.
  abbrev finish {ℓ} :
      {B : Type ℓ}
      → String
      → (B → ActionResult)
      → Option (Result AmaError B) × W
      → Result AmaError ActionResult × W
  finish message wrap (none, w) = (err (service_unavailable message), w)
  finish message wrap (some (err e), w) = (err e, w)
  finish message wrap (some (ok b), w) = (ok (wrap b), w)

  unfoldable pub actuate :
      CanonicalAction → String → AmaConfig → W → Result AmaError ActionResult × W
  unfolding action_timeout fill_template
  actuate (CanonicalAction.file_write path content) action_id config w =
      finish "file_write timed out" ActionResult.file_written
        (io.file_write (action_timeout "file_write") path content action_id w)
  actuate (CanonicalAction.file_read path) action_id config w =
      finish "file_read timed out"
        (λ (c, returned, total, truncated). ActionResult.file_content c returned total truncated)
        (io.file_read (action_timeout "file_read") path 524288 w)
  actuate (CanonicalAction.shell_exec intent args) action_id config w =
      elim (get intent.text config.intents) [
        | none ↦ (err (service_unavailable "intent config not found at actuation"), w)
        | some intent_config ↦
            finish ""
              (λ (out, er, code, truncated). ActionResult.shell_output out er code truncated)
              (let (r, w') =
                  io.shell_exec intent_config.binary
                    (fill_template intent_config.args_template args)
                    (elim intent_config.working_dir [
                      | some dir ↦ dir
                      | none ↦ config.workspace_root
                    ])
                    action_id (action_timeout "shell_exec") 65536 w in
                (some r, w'))
      ]
  actuate (CanonicalAction.http_request method url body) action_id config w =
      finish "http_request timed out"
        (λ (status, body, truncated). ActionResult.http_response status body truncated)
        (io.http_request (action_timeout "http_request") method url body config.allowlist w)
