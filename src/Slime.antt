-- ===== src/Slime.antt =====
-- safa-core/src/slime.rs: the capacity authorizer of an agent. A method that changes the atomic
-- counter returns the new authorizer beside its verdict; `Race` splits `try_reserve` at its atomic
-- accesses.
pub mod Reserve
pub mod Race
pub mod Registry
use ama.Prelude.{
  ℕ, ◌+◌, String, Bool, true, false, Option, none, some, List, [], ◌∷◌, not, HashMap, get, insert,
  leb, ltb, string_eq, if◌then◌else◌, u64_max, string_eq, Uuid,
}
use ama.Errors.{Result, ok, err}
use ama.Config.{DomainPolicy}

pub data SlimeVerdict : Type 0 where
  authorized impossible : SlimeVerdict

pub record P0Authorizer : Type 0 where
  pub capacity : ℕ
  pub max_capacity : ℕ
  pub domains : HashMap String DomainPolicy
  pub session_id : Uuid

-- `into_iter().collect()` into a map: a later entry of the same key wins.
unfoldable pub collect : {V : Type 0} → List (String × V) → HashMap String V → HashMap String V
collect [] m = m
collect ((k, v) ∷ kvs) m = collect kvs (insert k v m)

-- The fresh session id is an argument.
unfoldable pub new : ℕ → List (String × DomainPolicy) → Uuid → P0Authorizer
unfolding collect
new max_capacity domains session_id = record {
  capacity = 0;
  max_capacity = max_capacity;
  domains = collect domains [];
  session_id = session_id;
}

unfoldable pub check_policy : P0Authorizer → String → ℕ → Result SlimeVerdict DomainPolicy
check_policy a domain_id magnitude = elim (get domain_id a.domains) [
  | none ↦ err impossible
  | some policy ↦
      if not policy.enabled
      then err impossible
      else if ltb policy.max_magnitude_per_action magnitude
      then err impossible
      else ok policy
]

-- `u64::checked_add`.
unfoldable pub checked_add : ℕ → ℕ → Option ℕ
checked_add a b = if leb (a + b) u64_max then some (a + b) else none

-- `Some(new) if new <= self.max_capacity`, of the value `current` that was loaded.
unfoldable pub next_capacity : P0Authorizer → ℕ → ℕ → Option ℕ
unfolding checked_add
next_capacity a current magnitude = elim (checked_add current magnitude) [
  | none ↦ none
  | some next ↦ if leb next a.max_capacity then some next else none
]

-- The loop, alone on the counter. Each round has a flag: whether its `compare_exchange_weak` fails
-- spuriously. `none` means that the flags ran out before the loop ended.
unfoldable pub reserve_loop : List Bool → P0Authorizer → ℕ → Option (P0Authorizer × SlimeVerdict)
unfolding next_capacity
reserve_loop [] a magnitude = none
reserve_loop (spurious ∷ rest) a magnitude =
    let retry = reserve_loop rest a magnitude in
    elim (next_capacity a a.capacity magnitude) [
      | none ↦ some (a, impossible)
      | some next ↦ if spurious then retry else some (record a { capacity = next }, authorized)
    ]

unfoldable pub try_reserve :
    List Bool → P0Authorizer → String → ℕ → Option (P0Authorizer × SlimeVerdict)
unfolding check_policy reserve_loop
try_reserve rounds a domain_id magnitude = elim (check_policy a domain_id magnitude) [
  | err v ↦ some (a, v)
  | ok policy ↦ reserve_loop rounds a magnitude
]

unfoldable pub check_only : P0Authorizer → String → ℕ → SlimeVerdict
unfolding check_policy next_capacity
check_only a domain_id magnitude = elim (check_policy a domain_id magnitude) [
  | err v ↦ v
  | ok policy ↦ elim (next_capacity a a.capacity magnitude) [
    | none ↦ impossible
    | some next ↦ authorized
  ]
]

unfoldable pub capacity_used : P0Authorizer → ℕ
capacity_used a = a.capacity

unfoldable pub capacity_max : P0Authorizer → ℕ
capacity_max a = a.max_capacity
