-- ===== src/Pipeline/Outside/Writes.antt =====
-- safa-core/src/pipeline.rs: a successful `file_write`, from its request to the disk.
use text.Mathlib.TextEquality.{eq_iff}
use ama.Prelude.{◌≡◌, ◌≢◌, sym, ap, ◌∙◌, inl, inr, String, false, some, arith}
use ama.Errors.{Result-cases, ok, >>=-eq-ok, ok_injective}
use ama.Schema.{ActionRequest, ActionResponse, validate_magnitude}
use ama.Config.{AmaConfig}
use ama.Newtypes.{BoundedBytes}
use ama.Newtypes.Path.{FilePath, components, effective_root, WorkspacePath}
use ama.Newtypes.Path.Confined.{IsConfined}
use ama.Canonical.{CanonicalAction, ActionResult}
use ama.Mapper.{map_action}
use ama.Actuator.File.Atomic.{Behaves, file_write-AllOrNothing}
use ama.Pipeline.{actuate, validate_field_exclusivity}
use ama.Pipeline.Canonicalize.{canonicalize, unwrap_or}
use ama.Pipeline.Canonicalize.WellFormed.{WellFormed, canonicalize-WellFormed}
use ama.Pipeline.Process.{State, Clock, Checked, Context, check, process_action}
use ama.Pipeline.Process.Outcome.{Verdict-cases}
use ama.Pipeline.Outside.{Outside, actuators}

check-canonicalize :
    {A W : Type 0} (c : Context A W) (request : ActionRequest) (w : W) (k : Checked)
    → check c request w ≡ ok k
    → canonicalize c.unicode (c.io.file_system w) c.config c.agent_id request ≡ ok k.canonical
unfolding check
check-canonicalize c request w k h =
    let sized = >>=-eq-ok (validate_magnitude request.magnitude) _ k h in
    let exclusive = >>=-eq-ok (validate_field_exclusivity request) _ k sized.2 in
    let canonical =
      >>=-eq-ok (canonicalize c.unicode (c.io.file_system w) c.config c.agent_id request) _ k
        exclusive.2 in
    let mapped = >>=-eq-ok (map_action request.action request.magnitude c.config) _ k canonical.2 in
    canonical.1 ∙ ap (λ x. ok x.canonical) (ok_injective mapped.2)

-- A call that succeeds for real has carried out its checked action with success.
process_action-acted :
    {A W : Type 0} (c : Context A W) (request : ActionRequest) (action_id : String) (clock : Clock)
    (s : State A W) (response : ActionResponse)
    → request.dry_run ≡ false
    → (process_action c request action_id clock s).0 ≡ ok response
    → (k : Checked) × (check c request s.world ≡ ok k)
      × ((r : ActionResult) × ((actuate c.io k.canonical action_id c.config s.world).0 ≡ ok r))
      × ((process_action c request action_id clock s).1.world
          ≡ (actuate c.io k.canonical action_id c.config s.world).1)
unfolding process_action
process_action-acted c request action_id clock s response real h =
    elim (Result-cases (check c request s.world)) [
      | inl (e, failed) ↦ absurd (ground arith)
      | inr (k, passed) ↦
          elim (Verdict-cases
            (c.slime.try_reserve s.authorizer k.mapping.domain_id k.mapping.magnitude).1) [
              | inr no_ ↦ absurd (ground arith)
              | inl yes_ ↦
                  elim (Result-cases (actuate c.io k.canonical action_id c.config s.world).0) [
                    | inl (e, failed) ↦ absurd (ground arith)
                    | inr (r, done) ↦ (k, passed, (r, done), ground arith)
                  ]
            ]
    ]

read_ne : ◌≢◌ {A = String} "file_read" "file_write"
read_ne h = ground (arith, (eq_iff "file_read" "file_write").1 h)

shell_ne : ◌≢◌ {A = String} "shell_exec" "file_write"
shell_ne h = ground (arith, (eq_iff "shell_exec" "file_write").1 h)

http_ne : ◌≢◌ {A = String} "http_request" "file_write"
http_ne h = ground (arith, (eq_iff "http_request" "file_write").1 h)

module _ {F N : Type 0} (o : Outside F N) (b : Behaves o.disk) where
  actuate-writes :
      (path : WorkspacePath) (content : BoundedBytes) (action_id : String) (config : AmaConfig)
      (w : F × N) (r : ActionResult)
      → (actuate (actuators o) (CanonicalAction.file_write path content) action_id config w).0
        ≡ ok r
      → b.content
          (actuate (actuators o) (CanonicalAction.file_write path content) action_id config w).1.0
          path.canonical
        ≡ some content.text
  unfolding actuate actuators
  actuate-writes path content action_id config w r h =
      elim (file_write-AllOrNothing o.disk b path content action_id w.0) [
        | inl (new_, said) ↦ ground (arith, new_, said)
        | inr (old, e, said) ↦ absurd (ground (arith, said))
      ]

  -- The request has been done: a path that is confined to the agent's directory holds the payload.
  pub record Written (root : FilePath) (relative text : String) (before after : F × N)
      : Type 0 where
    pub path : WorkspacePath
    pub confined :
        IsConfined
          (record { exists = o.disk.exists before.0; canonicalize = o.canonicalize before.0 })
          root
          relative
          path
    pub holds : b.content after.0 path.canonical ≡ some text

  module _ {A : Type 0} (c : Context A (F × N)) (request : ActionRequest) (action_id : String)
      (clock : Clock) (s : State A (F × N)) where
    -- The call over these actuators.
    abbrev over : Context A (F × N)
    over = record c { io = actuators o }

    abbrev WrittenFor : State A (F × N) → Type 0
    WrittenFor t =
        Written (effective_root (components c.config.workspace_root) c.agent_id) request.target
          (unwrap_or request.payload "") s.world t.world

    written_as :
        (action : CanonicalAction) (r : ActionResult) (t : State A (F × N))
        → request.action ≡ "file_write"
        → WellFormed c.unicode
            ((actuators o).file_system s.world)
            c.config
            c.agent_id
            request
            action
        → (actuate (actuators o) action action_id c.config s.world).0 ≡ ok r
        → t.world ≡ (actuate (actuators o) action action_id c.config s.world).1
        → WrittenFor t
    unfolding actuators
    written_as (CanonicalAction.file_write path content) r t e f done same = record {
      path = path;
      confined = f.1;
      holds =
          ap (λ w. b.content w.0 path.canonical) same
          ∙ actuate-writes path content action_id c.config s.world r done
          ∙ ap (λ x. some x) f.2;
    }
    written_as (CanonicalAction.file_read path) r t e f done same = absurd (read_ne (sym f.0 ∙ e))
    written_as (CanonicalAction.shell_exec intent args) r t e f done same =
        absurd (shell_ne (sym f.0 ∙ e))
    written_as (CanonicalAction.http_request method url body) r t e f done same =
        absurd (http_ne (sym f.0 ∙ e))

    -- A `file_write` that succeeds for real leaves exactly its payload on the disk, at a path that is
    -- confined to the directory of its agent.
    pub process_action-Written :
        (response : ActionResponse)
        → request.action ≡ "file_write"
        → request.dry_run ≡ false
        → (process_action over request action_id clock s).0 ≡ ok response
        → WrittenFor (process_action over request action_id clock s).1
    process_action-Written response e real h =
        let acted = process_action-acted over request action_id clock s response real h in
        written_as acted.0.canonical acted.2.0 (process_action over request action_id clock s).1 e
          (canonicalize-WellFormed c.unicode ((actuators o).file_system s.world) c.config c.agent_id
            request acted.0.canonical (check-canonicalize over request s.world acted.0 acted.1))
          acted.2.1 acted.3
