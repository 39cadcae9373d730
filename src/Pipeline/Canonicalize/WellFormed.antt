-- ===== src/Pipeline/Canonicalize/WellFormed.antt =====
-- safa-core/src/pipeline.rs: what a checked action promises to the actuators.
use Prim.Native.String.{len}
use text.Mathlib.TextEquality.{eq_iff}
use mathlib.Core.Path.{subst}
use ama.Prelude.{
  ◌≢◌, ◌⊎◌, not, ◌==◌, Bool-cases, ℕ, ◌+◌, ◌≤◌, ◌≡◌, String, false, Option, none, some, List, [],
  ◌∷◌, arith, length, get, string_eq, is_empty, inl, inr, nat_beq,
}
use ama.Errors.{ok_or-some, ok_injective, ok, AmaError, >>=-eq-ok, ok_or, fail_if}
use ama.Config.{AmaConfig, AllowlistEntry, IntentMapping}
use ama.Schema.{ActionRequest}
use ama.Newtypes.{
  Unicode, BoundedBytes, bounded_bytes, SafeArg, safe_arg, intent_id, to_uppercase, parse_method,
}
use ama.Newtypes.Url.{AllowlistedUrl, allowlisted_url}
use ama.Newtypes.Url.Glob.{IsAllowed, allowlisted_url_iff}
use ama.Newtypes.Path.{FileSystem, components, effective_root, WorkspacePath}
use ama.Newtypes.Path.Confined.{IsConfined, new_with_agent-IsConfined}
use ama.Canonical.{CanonicalAction, file_write, file_read, shell_exec, http_request}
use ama.Pipeline.Canonicalize.{
  unwrap_or, max_payload, placeholder_count, get_elem?, workspace_path, validate_arg, check_args,
  canonical_file_write, canonical_file_read, canonical_shell_exec, canonical_body,
  canonical_http_request, canonicalize,
}
use ama.Newtypes.Checked.{
  IsSafe, safe_arg-IsSafe, bounded_bytes-le, intent_id-text, AllWordChars, intent_id-AllWordChars,
  codes, method_name, parse_method-name,
}

counts_of_fail_if : (m n : ℕ) (e : AmaError) → fail_if (not (nat_beq m n)) e ≡ ok tt → m ≡ n
counts_of_fail_if m n e h = ground arith

allowlisted_url-url :
    (url : String) (allowlist : List AllowlistEntry) (a : AllowlistedUrl)
    → allowlisted_url url allowlist ≡ ok a
    → (a.url ≡ url) × (allowlisted_url url allowlist ≡ ok (record { url = url }))
unfolding allowlisted_url
allowlisted_url-url url allowlist a h = (ground arith, ground arith)

module _ (u : Unicode) (fs : FileSystem) (config : AmaConfig) (agent_id : Option String) where
  abbrev pub Confined : String → WorkspacePath → Type 0
  Confined = IsConfined fs (effective_root (components config.workspace_root) agent_id)

  -- The arguments are the request's, in order; each is safe, and one whose validator asks for it is a
  -- path that `WorkspacePath` accepts.
  abbrev pub ArgsFit : List String → ℕ → List String → List SafeArg → Type 0
  ArgsFit validators i [] [] = Unit {0}
  ArgsFit validators i (raw ∷ raws) (a ∷ args) =
      ((a.text ≡ raw) × IsSafe raw)
      × ((get_elem? validators i ≢ some "relative_workspace_path")
          ⊎ ((p : WorkspacePath) × Confined raw p))
      × ArgsFit validators (i + 1) raws args
  ArgsFit validators i raws args = ⊥

  abbrev pub BodyFits : Option String → Option BoundedBytes → Type 0
  BodyFits none none = Unit {0}
  BodyFits (some text) (some body) =
      (body.text ≡ text) × (len text ≤ max_payload config "http_request" 262144)
  BodyFits payload body = ⊥

  abbrev pub WellFormed : ActionRequest → CanonicalAction → Type 0
  WellFormed request (file_write path content) =
      (request.action ≡ "file_write")
      × Confined request.target path
      × (content.text ≡ unwrap_or request.payload "")
      × (len content.text ≤ max_payload config "file_write" 1048576)
  WellFormed request (file_read path) =
      (request.action ≡ "file_read") × Confined request.target path
  WellFormed request (shell_exec intent args) =
      (request.action ≡ "shell_exec")
      × (intent.text ≡ request.target)
      × (is_empty request.target ≡ false)
      × AllWordChars u request.target
      × ((entry : IntentMapping) × (get request.target config.intents ≡ some entry)
          × (length (unwrap_or request.args []) ≡ placeholder_count entry.args_template)
          × ArgsFit entry.validators 0 (unwrap_or request.args []) args)
  WellFormed request (http_request method url body) =
      (request.action ≡ "http_request")
      × (to_uppercase u (unwrap_or request.method "") ≡ codes (method_name method))
      × (url.url ≡ request.target)
      × IsAllowed request.target config.allowlist
      × BodyFits request.payload body

  path-Confined :
      (relative : String) (p : WorkspacePath)
      → workspace_path u fs config agent_id relative ≡ ok p
      → Confined relative p
  unfolding workspace_path
  path-Confined relative p h =
      new_with_agent-IsConfined fs relative (components config.workspace_root) agent_id p h

  validate_arg-Confined :
      (validator : Option String) (raw : String)
      → validate_arg u fs config agent_id validator raw ≡ ok tt
      → (validator ≢ some "relative_workspace_path") ⊎ ((p : WorkspacePath) × Confined raw p)
  unfolding validate_arg
  validate_arg-Confined none raw h = inl (λ e. ground arith)
  validate_arg-Confined (some validator) raw h =
      elim (Bool-cases (validator == "relative_workspace_path")) [
        | inl asked ↦
            let w = >>=-eq-ok (workspace_path u fs config agent_id raw) _ _ (rw asked at h) in
            inr (w.0, path-Confined raw w.0 w.1)
        | inr other ↦ inl (λ e. ground (arith, eq_iff validator "relative_workspace_path"))
      ]

  check_args-ArgsFit :
      (validators : List String) (i : ℕ) (raws : List String) (args : List SafeArg)
      → check_args u fs config agent_id validators i raws ≡ ok args
      → ArgsFit validators i raws args
  unfolding check_args
  check_args-ArgsFit validators i [] [] h = tt
  check_args-ArgsFit validators i [] (a ∷ args) h = cc
  check_args-ArgsFit validators i (raw ∷ raws) args h =
      let safe = >>=-eq-ok (safe_arg raw) _ args h in
      let valid =
        >>=-eq-ok (validate_arg u fs config agent_id (get_elem? validators i) raw) _ args safe.2 in
      let rest =
        >>=-eq-ok (check_args u fs config agent_id validators (i + 1) raws) _ args valid.2 in
      subst (ArgsFit validators i (raw ∷ raws)) (ok_injective rest.2) (
        safe_arg-IsSafe raw safe.0 safe.1,
        validate_arg-Confined (get_elem? validators i) raw valid.1,
        check_args-ArgsFit validators (i + 1) raws rest.0 rest.1,
      )

  write-WellFormed :
      (request : ActionRequest) (a : CanonicalAction)
      → request.action ≡ "file_write"
      → canonical_file_write u fs config agent_id request ≡ ok a
      → WellFormed request a
  unfolding canonical_file_write
  write-WellFormed request a e h =
      let path = >>=-eq-ok (workspace_path u fs config agent_id request.target) _ a h in
      let limit = max_payload config "file_write" 1048576 in
      let content = >>=-eq-ok (bounded_bytes (unwrap_or request.payload "") limit) _ a path.2 in
      let fits = bounded_bytes-le (unwrap_or request.payload "") limit content.0 content.1 in
      subst (WellFormed request) (ok_injective content.2)
        (e, path-Confined request.target path.0 path.1, fits.0, rw fits.0 fits.1)

  read-WellFormed :
      (request : ActionRequest) (a : CanonicalAction)
      → request.action ≡ "file_read"
      → canonical_file_read u fs config agent_id request ≡ ok a
      → WellFormed request a
  unfolding canonical_file_read
  read-WellFormed request a e h =
      let path = >>=-eq-ok (workspace_path u fs config agent_id request.target) _ a h in
      subst (WellFormed request) (ok_injective path.2)
        (e, path-Confined request.target path.0 path.1)

  shell-WellFormed :
      (request : ActionRequest) (a : CanonicalAction)
      → request.action ≡ "shell_exec"
      → canonical_shell_exec u fs config agent_id request ≡ ok a
      → WellFormed request a
  unfolding canonical_shell_exec
  shell-WellFormed request a e h =
      let intent = >>=-eq-ok (intent_id u request.target) _ a h in
      let named = intent_id-text u request.target intent.0 intent.1 in
      let word = intent_id-AllWordChars u request.target intent.0 intent.1 in
      let found = >>=-eq-ok (ok_or (get intent.0.text config.intents) _) _ a intent.2 in
      let counted = >>=-eq-ok (fail_if _ _) _ a found.2 in
      let args =
        >>=-eq-ok (check_args u fs config agent_id found.0.validators 0 (unwrap_or request.args []))
          _ a counted.2 in
      subst (WellFormed request) {x = shell_exec intent.0 args.0} (ok_injective args.2) (
        e,
        named,
        word.0,
        word.1,
        (
          found.0,
          subst (λ t. get t config.intents ≡ some found.0) named (ok_or-some _ _ found.0 found.1),
          counts_of_fail_if _ _ _ counted.1,
          check_args-ArgsFit found.0.validators 0 (unwrap_or request.args []) args.0 args.1,
        ),
      )

  canonical_body-BodyFits :
      (payload : Option String) (body : Option BoundedBytes)
      → canonical_body u fs config agent_id payload ≡ ok body
      → BodyFits payload body
  unfolding canonical_body
  canonical_body-BodyFits none body h = subst (BodyFits none) (ok_injective h) tt
  canonical_body-BodyFits (some text) body h =
      let b = >>=-eq-ok (bounded_bytes text (max_payload config "http_request" 262144)) _ body h in
      subst (BodyFits (some text)) (ok_injective b.2)
        (bounded_bytes-le text (max_payload config "http_request" 262144) b.0 b.1)

  http-WellFormed :
      (request : ActionRequest) (a : CanonicalAction)
      → request.action ≡ "http_request"
      → canonical_http_request u fs config agent_id request ≡ ok a
      → WellFormed request a
  unfolding canonical_http_request
  http-WellFormed request a e h =
      let method = >>=-eq-ok (parse_method u (unwrap_or request.method "")) _ a h in
      let url = >>=-eq-ok (allowlisted_url request.target config.allowlist) _ a method.2 in
      let kept = allowlisted_url-url request.target config.allowlist url.0 url.1 in
      let body = >>=-eq-ok (canonical_body u fs config agent_id request.payload) _ a url.2 in
      subst (WellFormed request) (ok_injective body.2) (
        e,
        parse_method-name u (unwrap_or request.method "") method.0 method.1,
        kept.0,
        (allowlisted_url_iff request.target config.allowlist).0 kept.1,
        canonical_body-BodyFits request.payload body.0 body.1,
      )

  -- Whatever is handed to an actuator belongs to the action that was asked for, and has passed every check
  -- of its kind: a path confined to the agent's directory; content within the limit; a configured
  -- intent, named by letters, digits and underscores, with as many arguments as its template has
  -- placeholders, each safe and each path argument confined; the method GET or POST that the request
  -- names, in any case, an allowlisted HTTPS URL and a bounded body.
  pub canonicalize-WellFormed :
      (request : ActionRequest) (a : CanonicalAction)
      → canonicalize u fs config agent_id request ≡ ok a
      → WellFormed request a
  unfolding canonicalize
  canonicalize-WellFormed request a h = elim (Bool-cases (request.action == "file_write")) [
    | inl w ↦ write-WellFormed request a ((eq_iff _ _).0 w) (rw w at h)
    | inr w ↦ elim (Bool-cases (request.action == "file_read")) [
      | inl r ↦ read-WellFormed request a ((eq_iff _ _).0 r) (rw (w, r) at h)
      | inr r ↦ elim (Bool-cases (request.action == "shell_exec")) [
        | inl x ↦ shell-WellFormed request a ((eq_iff _ _).0 x) (rw (w, r, x) at h)
        | inr x ↦ elim (Bool-cases (request.action == "http_request")) [
          | inl p ↦ http-WellFormed request a ((eq_iff _ _).0 p) (rw (w, r, x, p) at h)
          | inr p ↦ absurd (ground arith)
        ]
      ]
    ]
  ]
