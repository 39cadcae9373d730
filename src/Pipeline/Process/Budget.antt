-- ===== src/Pipeline/Process/Budget.antt =====
-- safa-core/src/pipeline.rs and slime.rs: the pipeline over the capacity authorizer of an agent.
use mathlib.Core.Path.{subst}
use ama.Prelude.{ap, ◌∙◌, ℕ, ◌+◌, ◌≤◌, ◌≡◌, ◌⊎◌, inl, inr, String, arith, u64_max}
use ama.Errors.{ok, >>=-eq-ok, ok_injective}
use ama.Config.{AmaConfig}
use ama.Schema.{ActionRequest, validate_magnitude, validate_magnitude_iff}
use ama.Slime.{authorized, impossible, P0Authorizer, check_only, capacity_used, capacity_max}
use ama.Slime.Reserve.{reserve, check_only-May}
use ama.Mapper.{DomainMapping, map_action}
use ama.Pipeline.{SlimeAuthorizer, validate_field_exclusivity}
use ama.Pipeline.Canonicalize.{canonicalize}
use ama.Pipeline.Process.{State, Clock, Checked, Context, check, process_action}
use ama.Pipeline.Process.Outcome.{Verdict-cases, Executed, process_action-effects}

-- The capacity authorizer as the trait object, its reservation atomic as `Slime.Race` justifies.
unfoldable pub p0_authorizer : SlimeAuthorizer P0Authorizer
unfolding reserve check_only capacity_used capacity_max
p0_authorizer = record {
  try_reserve = reserve;
  check_only = check_only;
  capacity_used = capacity_used;
  capacity_max = capacity_max;
  session_id = λ a. a.session_id;
}

map_action-magnitude :
    (action : String) (magnitude : ℕ) (config : AmaConfig) (m : DomainMapping)
    → map_action action magnitude config ≡ ok m
    → m.magnitude ≡ magnitude
unfolding map_action
map_action-magnitude action magnitude config m h = ground arith

-- What the reservation does to the counter, by its verdict.
reserve_lem :
    (a : P0Authorizer) (domain_id : String) (magnitude : ℕ)
    → a.max_capacity ≤ u64_max
    → (((reserve a domain_id magnitude).1 ≡ authorized)
        × ((reserve a domain_id magnitude).0 ≡ record a { capacity = a.capacity + magnitude })
        × (a.capacity + magnitude ≤ a.max_capacity))
      ⊎ (((reserve a domain_id magnitude).1 ≡ impossible) × ((reserve a domain_id magnitude).0 ≡ a))
unfolding reserve
reserve_lem a domain_id magnitude wide = elim (Verdict-cases (check_only a domain_id magnitude)) [
  | inl yes_ ↦
      inl (ground arith, ground arith, ((check_only-May a domain_id magnitude wide).0 yes_).covered)
  | inr no_ ↦ inr (ground arith, ground arith)
]

module _ {W : Type 0} (c : Context P0Authorizer W) where
  check-magnitude :
      (request : ActionRequest) (w : W) (k : Checked)
      → check c request w ≡ ok k
      → (1 ≤ request.magnitude)
        × (request.magnitude ≤ 1000)
        × (k.mapping.magnitude ≡ request.magnitude)
  unfolding check map_action
  check-magnitude request w k h =
      let sized = >>=-eq-ok (validate_magnitude request.magnitude) _ k h in
      let exclusive = >>=-eq-ok (validate_field_exclusivity request) _ k sized.2 in
      let canonical =
        >>=-eq-ok (canonicalize c.unicode (c.io.file_system w) c.config c.agent_id request) _ k
          exclusive.2 in
      let mapped =
        >>=-eq-ok (map_action request.action request.magnitude c.config) _ k canonical.2 in
      let range = (validate_magnitude_iff request.magnitude).0 sized.1 in
      (
        range.0,
        range.1,
        subst (λ x. x.mapping.magnitude ≡ request.magnitude) (ok_injective mapped.2)
            (map_action-magnitude request.action request.magnitude c.config mapped.0 mapped.1),
      )

module _ {W : Type 0} (c : Context P0Authorizer W) (request : ActionRequest) (action_id : String)
    (clock : Clock) (s : State P0Authorizer W) where
  -- The call over the capacity authorizer.
  abbrev over : Context P0Authorizer W
  over = record c { slime = p0_authorizer }

  abbrev after : State P0Authorizer W
  after = (process_action over request action_id clock s).1

  -- Capacity is spent exactly as the action was asked for, and only by an action that was carried out.
  pub record Spent : Type 0 where
    pub amount : after.authorizer.capacity ≡ s.authorizer.capacity + request.magnitude
    pub in_range : (1 ≤ request.magnitude) × (request.magnitude ≤ 1000)
    pub executed : Executed over request action_id clock s

  -- Nothing was spent, nothing was done.
  pub record Free : Type 0 where
    pub same_capacity : after.authorizer ≡ s.authorizer
    pub same_world : after.world ≡ s.world

  -- A call spends exactly its magnitude, between 1 and 1000, if it carries out its action, and otherwise
  -- leaves authorizer and world as they were; the capacity stays within its fixed maximum.
  pub process_action-budget :
      s.authorizer.max_capacity ≤ u64_max
      → s.authorizer.capacity ≤ s.authorizer.max_capacity
      → (after.authorizer.max_capacity ≡ s.authorizer.max_capacity)
        × (after.authorizer.capacity ≤ s.authorizer.max_capacity)
        × (Spent ⊎ Free)
  unfolding p0_authorizer reserve
  process_action-budget wide fits = elim (process_action-effects over request action_id clock s) [
    | inl x ↦
        let k = x.checked in
        let m = check-magnitude over request s.world k x.passed in
        elim (reserve_lem s.authorizer k.mapping.domain_id k.mapping.magnitude wide) [
          | inl g ↦ (
            ap (λ a. a.max_capacity) (x.charged ∙ g.1),
            omega (arith, ap (λ a. a.capacity) (x.charged ∙ g.1), g.2),
            inl (record {
              amount = omega (arith, ap (λ a. a.capacity) (x.charged ∙ g.1), m.2);
              in_range = (m.0, m.1);
              executed = x;
            }),
          )
          | inr g ↦ absurd (ground (arith, x.granted, g.0))
        ]
    | inr u ↦
        let same = untouched u.same_authorizer in
        (
          ap (λ a. a.max_capacity) same,
          omega (arith, ap (λ a. a.capacity) same),
          inr (record { same_capacity = same; same_world = u.same_world }),
        )
  ]
    where
      untouched :
          (after.authorizer ≡ s.authorizer)
            ⊎ ((k : Checked) × ((reserve s.authorizer k.mapping.domain_id k.mapping.magnitude).1
                  ≡ impossible)
                × (after.authorizer
                    ≡ (reserve s.authorizer k.mapping.domain_id k.mapping.magnitude).0))
          → after.authorizer ≡ s.authorizer
      untouched (inl same) = same
      untouched (inr (k, no_, same)) =
          elim (reserve_lem s.authorizer k.mapping.domain_id k.mapping.magnitude wide) [
            | inl g ↦ absurd (ground (arith, no_, g.0))
            | inr g ↦ same ∙ g.1
          ]
