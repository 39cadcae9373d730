-- ===== src/Pipeline/Process/DryRun.antt =====
-- safa-core/src/pipeline.rs: a dry run tells what the action itself would do.
use ama.Prelude.{none, ℕ, ◌≡◌, ◌↔◌, refl, sym, ◌∙◌, inl, inr, String, Bool, true, false, arith}
use ama.Errors.{Result-cases, ok}
use ama.Schema.{ActionRequest, ActionResponse}
use ama.Slime.{authorized, P0Authorizer, check_only}
use ama.Slime.Reserve.{reserve}
use ama.Pipeline.{validate_field_exclusivity}
use ama.Pipeline.Canonicalize.{
  canonicalize, canonical_file_write, canonical_file_read, canonical_shell_exec,
  canonical_http_request,
}
use ama.Pipeline.Process.{State, Clock, Checked, Context, check, process_action}
use ama.Pipeline.Process.Outcome.{Verdict-cases, Executed}
use ama.Pipeline.Process.Budget.{p0_authorizer}

module _ {W : Type 0} (c : Context P0Authorizer W) where
  check-dry_run :
      (request : ActionRequest) (dry : Bool) (w : W)
      → check c (record request { dry_run = dry }) w ≡ check c request w
  unfolding check validate_field_exclusivity canonicalize canonical_file_write canonical_file_read
      canonical_shell_exec canonical_http_request
  check-dry_run request dry w = refl

reserve-verdict :
    (a : P0Authorizer) (domain_id : String) (magnitude : ℕ)
    → (reserve a domain_id magnitude).1 ≡ check_only a domain_id magnitude
unfolding reserve
reserve-verdict a domain_id magnitude = elim (Verdict-cases (check_only a domain_id magnitude)) [
  | inl yes_ ↦ ground arith
  | inr no_ ↦ ground arith
]

module _ {W : Type 0} (c : Context P0Authorizer W) (request : ActionRequest) (action_id : String)
    (clock : Clock) (s : State P0Authorizer W) where
  -- The call over the capacity authorizer.
  abbrev over : Context P0Authorizer W
  over = record c { slime = p0_authorizer }

  abbrev real : ActionRequest
  real = record request { dry_run = false }

  abbrev rehearsal : ActionRequest
  rehearsal = record request { dry_run = true }

  predicted :
      (k : Checked)
      → check over real s.world ≡ ok k
      → check_only s.authorizer k.mapping.domain_id k.mapping.magnitude ≡ authorized
      → Executed over real action_id clock s
  unfolding process_action p0_authorizer
  predicted k passed yes_ =
      let granted : (reserve s.authorizer k.mapping.domain_id k.mapping.magnitude).1 ≡ authorized =
        reserve-verdict s.authorizer k.mapping.domain_id k.mapping.magnitude ∙ yes_ in
      record {
        checked = k;
        passed = passed;
        real = refl;
        granted = granted;
        charged = ground arith;
        acted = ground arith;
      }

  rehearsed :
      (k : Checked)
      → check over rehearsal s.world ≡ ok k
      → check_only s.authorizer k.mapping.domain_id k.mapping.magnitude ≡ authorized
      → (process_action over rehearsal action_id clock s).0
        ≡ ok
            (record { status = "authorized"; action_id = action_id; dry_run = true; result = none })
  unfolding process_action p0_authorizer
  rehearsed k passed yes_ = ground arith

  refused :
      (k : Checked) (x : ActionResponse)
      → check over rehearsal s.world ≡ ok k
      → (process_action over rehearsal action_id clock s).0 ≡ ok x
      → check_only s.authorizer k.mapping.domain_id k.mapping.magnitude ≡ authorized
  unfolding process_action p0_authorizer
  refused k x passed h =
      elim (Verdict-cases (check_only s.authorizer k.mapping.domain_id k.mapping.magnitude)) [
        | inl yes_ ↦ yes_
        | inr no_ ↦ absurd (ground arith)
      ]

  checked_rehearsal :
      (x : ActionResponse)
      → (process_action over rehearsal action_id clock s).0 ≡ ok x
      → (k : Checked) × (check over rehearsal s.world ≡ ok k)
  unfolding process_action
  checked_rehearsal x h = elim (Result-cases (check over rehearsal s.world)) [
    | inl (e, failed) ↦ absurd (ground arith)
    | inr passed ↦ passed
  ]

  -- A dry run succeeds exactly if the same request, made for real in the same state, passes its checks, gets
  -- its reservation and is handed to its actuator.
  pub dry_run_iff :
      ((x : ActionResponse) × ((process_action over rehearsal action_id clock s).0 ≡ ok x))
      ↔ Executed over real action_id clock s
  unfolding p0_authorizer
  dry_run_iff = (
    λ (x, h).
        let k = checked_rehearsal x h in
        predicted k.0
          (sym (
              check-dry_run over request true s.world
              ∙ sym (check-dry_run over request false s.world))
            ∙ k.1)
          (refused k.0 x k.1 h),
    λ e.
        let k = e.checked in
        (
          record { status = "authorized"; action_id = action_id; dry_run = true; result = none },
          rehearsed k
              (check-dry_run over request true s.world
                ∙ sym (check-dry_run over request false s.world)
                ∙ e.passed)
              (sym (reserve-verdict s.authorizer k.mapping.domain_id k.mapping.magnitude)
                ∙ e.granted),
        ),
  )
