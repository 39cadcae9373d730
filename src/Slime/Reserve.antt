-- ===== src/Slime/Reserve.antt =====
-- safa-core/src/slime.rs: what a reservation promises, against a description of it that has no loop.
use ama.Errors.{ok, err}
use ama.Prelude.{
  ◌⊎◌, inl, inr, Option-cases, ℕ, ◌+◌, ◌≤◌, String, ◌≡◌, ◌↔◌, Bool, true, false, none, some, List,
  [], ◌∷◌, arith, get, u64_max, string_eq,
}
use ama.Config.{DomainPolicy}
use ama.Slime.{
  check_policy, SlimeVerdict, authorized, impossible, P0Authorizer, next_capacity, reserve_loop,
  try_reserve, check_only,
}

-- The agent may take `magnitude` in the domain: the domain has an enabled policy that allows this
-- much in one action, and the rest of the capacity covers it.
pub record May (a : P0Authorizer) (domain_id : String) (magnitude : ℕ) : Type 0 where
  pub policy : DomainPolicy
  pub known : get domain_id a.domains ≡ some policy
  pub on : policy.enabled ≡ true
  pub small : magnitude ≤ policy.max_magnitude_per_action
  pub covered : a.capacity + magnitude ≤ a.max_capacity

-- The reservation as one atomic action.
unfoldable pub reserve : P0Authorizer → String → ℕ → P0Authorizer × SlimeVerdict
unfolding check_only
reserve a domain_id magnitude = elim (check_only a domain_id magnitude) [
  | authorized ↦ (record a { capacity = a.capacity + magnitude }, authorized)
  | impossible ↦ (a, impossible)
]

-- The dry-run check answers `authorized` exactly when the agent may take the amount.
pub check_only-May :
    (a : P0Authorizer) (domain_id : String) (magnitude : ℕ)
    → a.max_capacity ≤ u64_max
    → (check_only a domain_id magnitude ≡ authorized) ↔ May a domain_id magnitude
unfolding check_only
check_only-May a domain_id magnitude wide = (
  λ h. elim (Option-cases (get domain_id a.domains)) [
    | inl missing ↦ ground arith
    | inr (policy, found) ↦ record {
      policy = policy;
      known = found;
      on = ground arith;
      small = ground arith;
      covered = ground arith;
    }
  ],
  λ m. ground arith,
)

-- Some round of the loop does not fail spuriously.
abbrev pub Succeeds : List Bool → Type 0
Succeeds [] = ⊥
Succeeds (true ∷ rounds) = Succeeds rounds
Succeeds (false ∷ rounds) = Unit

reserve_loop_lem :
    (rounds : List Bool) (a : P0Authorizer) (magnitude : ℕ)
    → Succeeds rounds
    → reserve_loop rounds a magnitude
      ≡ some (elim (next_capacity a a.capacity magnitude) [
        | none ↦ (a, impossible)
        | some next ↦ (record a { capacity = next }, authorized)
      ])
unfolding reserve_loop
reserve_loop_lem [] a magnitude h = absurd h
reserve_loop_lem (true ∷ rounds) a magnitude h =
    ground (arith, reserve_loop_lem rounds a magnitude h)
reserve_loop_lem (false ∷ rounds) a magnitude h = ground arith

-- Alone on the counter, the compare-exchange loop ends as soon as one round does not fail
-- spuriously, with the verdict of the dry-run check; it takes the amount if that is `authorized`, and
-- changes nothing otherwise.
pub try_reserve-reserve :
    (rounds : List Bool) (a : P0Authorizer) (domain_id : String) (magnitude : ℕ)
    → Succeeds rounds
    → try_reserve rounds a domain_id magnitude ≡ some (reserve a domain_id magnitude)
unfolding try_reserve reserve
try_reserve-reserve rounds a domain_id magnitude h =
    ground (arith, reserve_loop_lem rounds a magnitude h)

-- A refusal by the policy is always `impossible`.
pub check_policy-cases :
    (a : P0Authorizer) (domain_id : String) (magnitude : ℕ)
    → (check_policy a domain_id magnitude ≡ err impossible)
      ⊎ ((policy : DomainPolicy) × (check_policy a domain_id magnitude ≡ ok policy))
unfolding check_policy
check_policy-cases a domain_id magnitude = ground arith
