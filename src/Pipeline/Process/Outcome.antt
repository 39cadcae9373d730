-- ===== src/Pipeline/Process/Outcome.antt =====
-- safa-core/src/pipeline.rs: what `process_action` does to the authorizer, the world and the audit log.
use ama.Prelude.{
  sym, ◌∙◌, ◌↔◌, ◌≡◌, refl, ◌≢◌, ◌⊎◌, inl, inr, String, Bool, true, false, none, some, [], ◌∷◌,
  ◌++◌, arith, Bool-cases,
}
use text.Mathlib.TextEquality.{eq_iff}
use ama.Errors.{Result-cases, Result, ok, err, AmaError}
use ama.Schema.{ActionRequest, ActionResponse}
use ama.Canonical.{is_truncated, to_value}
use ama.Slime.{SlimeVerdict, authorized, impossible}
use ama.Audit.{AuditEntry}
use ama.Pipeline.{actuate}
use ama.Pipeline.Process.{State, Clock, Checked, Context, check, audit_entry, process_action}

err-ne-ok : {A : Type 0} (e : AmaError) (a : A) → err e ≢ ok a
err-ne-ok e a h = ground arith

pub Verdict-cases : (v : SlimeVerdict) → (v ≡ authorized) ⊎ (v ≡ impossible)
Verdict-cases authorized = inl refl
Verdict-cases impossible = inr refl

module _ {A W : Type 0} (c : Context A W) (request : ActionRequest) (action_id : String)
    (clock : Clock) (s : State A W) where
  abbrev after : State A W
  after = (process_action c request action_id clock s).1

  abbrev reply : Result AmaError ActionResponse
  reply = (process_action c request action_id clock s).0

  -- The reservation that the checked request makes.
  abbrev reservation : Checked → A × SlimeVerdict
  reservation k = c.slime.try_reserve s.authorizer k.mapping.domain_id k.mapping.magnitude

  -- The action was carried out, after its checks and a granted reservation.
  pub record Executed : Type 0 where
    pub checked : Checked
    pub passed : check c request s.world ≡ ok checked
    pub real : request.dry_run ≡ false
    pub granted : (reservation checked).1 ≡ authorized
    pub charged : after.authorizer ≡ (reservation checked).0
    pub acted : after.world ≡ (actuate c.io checked.canonical action_id c.config s.world).1

  -- Nothing was done; the authorizer changes at most by a reservation that it denied.
  pub record Untouched : Type 0 where
    pub same_world : after.world ≡ s.world
    pub same_authorizer :
        (after.authorizer ≡ s.authorizer)
        ⊎ ((k : Checked) × ((reservation k).1 ≡ impossible)
            × (after.authorizer ≡ (reservation k).0))

  -- Every call either carries out its checked action once, after a granted reservation and not in a dry
  -- run, or leaves the world as it was and takes nothing from the authorizer.
  pub process_action-effects : Executed ⊎ Untouched
  unfolding process_action
  process_action-effects = elim (Result-cases (check c request s.world)) [
    | inl (e, failed) ↦ inr (ground arith)
    | inr (k, passed) ↦ elim (Bool-cases request.dry_run) [
      | inl dry ↦ inr (ground arith)
      | inr real ↦ elim (Verdict-cases (reservation k).1) [
        | inl yes_ ↦ inl (record {
          checked = k;
          passed = passed;
          real = real;
          granted = yes_;
          charged = ground arith;
          acted = ground arith;
        })
        | inr no_ ↦
            inr (record { same_world = ground arith; same_authorizer = inr (k, no_, ground arith) })
      ]
    ]
  ]

  -- What is written down about a call that reached the authorizer.
  pub record Logged : Type 0 where
    pub checked : Checked
    pub passed : check c request s.world ≡ ok checked
    pub entry : AuditEntry
    pub appended : after.log ≡ s.log ++ entry ∷ []
    pub about_action : (entry.action_id ≡ action_id) × (entry.action ≡ request.action)
    pub about_domain :
        (entry.domain_id ≡ checked.mapping.domain_id)
        × (entry.magnitude_effective ≡ checked.mapping.magnitude)
    pub authorized_iff : (entry.status ≡ "authorized") ↔ ((r : ActionResponse) × (reply ≡ ok r))

  written :
      (k : Checked) (status : String) (truncated : Bool)
      → check c request s.world ≡ ok k
      → after.log ≡ s.log ++ audit_entry c request action_id k.mapping clock status truncated ∷ []
      → (status ≡ "authorized") ↔ ((r : ActionResponse) × (reply ≡ ok r))
      → Logged
  unfolding audit_entry
  written k status truncated passed appended said = record {
    checked = k;
    passed = passed;
    entry = audit_entry c request action_id k.mapping clock status truncated;
    appended = appended;
    about_action = (refl, refl);
    about_domain = (refl, refl);
    authorized_iff = said;
  }

  said_ok :
      (r : ActionResponse)
      → reply ≡ ok r
      → (◌≡◌ {A = String} "authorized" "authorized") ↔ ((r : ActionResponse) × (reply ≡ ok r))
  said_ok r h = (λ x. (r, h), λ x. refl)

  said_err :
      (status : String) (e : AmaError)
      → status ≢ "authorized"
      → reply ≡ err e
      → (status ≡ "authorized") ↔ ((r : ActionResponse) × (reply ≡ ok r))
  said_err status e other h =
      (λ x. absurd (other x), λ (r, h2). absurd (err-ne-ok e r (sym h ∙ h2)))

  impossible-ne : ◌≢◌ {A = String} "impossible" "authorized"
  impossible-ne h = ground (arith, (eq_iff "impossible" "authorized").1 h)

  error-ne : ◌≢◌ {A = String} "error" "authorized"
  error-ne h = ground (arith, (eq_iff "error" "authorized").1 h)

  dry_log : (k : Checked) → check c request s.world ≡ ok k → request.dry_run ≡ true → Logged
  unfolding process_action
  dry_log k passed dry =
      elim (Verdict-cases
        (c.slime.check_only s.authorizer k.mapping.domain_id k.mapping.magnitude)) [
          | inl yes_ ↦ written k "authorized" false passed (ground arith) (
              said_ok
                (record {
                  status = "authorized";
                  action_id = action_id;
                  dry_run = true;
                  result = none;
                })
                (ground arith))
          | inr no_ ↦
              written k "impossible" false passed (ground arith)
                (said_err "impossible" AmaError.impossible impossible-ne (ground arith))
        ]

  real_log : (k : Checked) → check c request s.world ≡ ok k → request.dry_run ≡ false → Logged
  unfolding process_action
  real_log k passed real = elim (Verdict-cases (reservation k).1) [
    | inr no_ ↦
        written k "impossible" false passed (ground arith)
          (said_err "impossible" AmaError.impossible impossible-ne (ground arith))
    | inl yes_ ↦ elim (Result-cases (actuate c.io k.canonical action_id c.config s.world).0) [
      | inl (e, failed) ↦
          written k "error" false passed (ground arith) (said_err "error" e error-ne (ground arith))
      | inr (r, done) ↦ written k "authorized" (is_truncated r) passed (ground arith) (
          said_ok
            (record {
              status = "authorized";
              action_id = action_id;
              dry_run = false;
              result = some (to_value r);
            })
            (ground arith))
    ]
  ]

  -- A call that fails its checks reports the failure and writes nothing; any other writes exactly one
  -- entry, whose status is `authorized` exactly if the call succeeds.
  pub process_action-log :
      ((e : AmaError) × (check c request s.world ≡ err e) × (reply ≡ err e) × (after.log ≡ s.log))
      ⊎ Logged
  unfolding process_action
  process_action-log = elim (Result-cases (check c request s.world)) [
    | inl (e, failed) ↦ inl (e, failed, ground arith, ground arith)
    | inr (k, passed) ↦ elim (Bool-cases request.dry_run) [
      | inl dry ↦ inr (dry_log k passed dry)
      | inr real ↦ inr (real_log k passed real)
    ]
  ]
