-- ===== src/Config/AgentSet/Gathered.antt =====
-- safa-core/src/config.rs: the largest capacity and the union of the policies of the agents.
use ama.Prelude.{
  ℕ, ◌≤◌, ◌≡◌, String, some, [], ◌∷◌, arith, HashMap, get, string_eq, ltb, if◌then◌else◌,
  Option-cases, inl, inr, get-insert, get-insert_self,
}
use ama.Config.{AgentConfig, DomainPolicy}
use ama.Config.Agent.Valid.{Affordable, AllValid, insert-Affordable}
use ama.Config.AgentSet.{or_insert, union_policies, gather}

-- No agent has more than the capacity.
abbrev pub AllFit : ℕ → HashMap String AgentConfig → Type 0
AllFit max_capacity [] = Unit {0}
AllFit max_capacity ((agent_id, a) ∷ agents) =
    (a.max_capacity ≤ max_capacity) × AllFit max_capacity agents

-- Every domain of the second map has a policy in the first.
abbrev pub Covers : HashMap String DomainPolicy → HashMap String DomainPolicy → Type 0
Covers all [] = Unit {0}
Covers all ((d, p) ∷ policies) = ((q : DomainPolicy) × (get d all ≡ some q)) × Covers all policies

abbrev pub AllCovered : HashMap String DomainPolicy → HashMap String AgentConfig → Type 0
AllCovered all [] = Unit {0}
AllCovered all ((agent_id, a) ∷ agents) = Covers all a.domain_policies × AllCovered all agents

Affordable-le :
    (c d : ℕ) (m : HashMap String DomainPolicy) → c ≤ d → Affordable c m → Affordable d m
Affordable-le c d [] h a = tt
Affordable-le c d ((k, p) ∷ m) h a = (a.0, omega (arith, a.1), Affordable-le c d m h a.2)

or_insert-Affordable :
    (c : ℕ) (k : String) (p : DomainPolicy) (m : HashMap String DomainPolicy)
    → (1 ≤ p.max_magnitude_per_action) × (p.max_magnitude_per_action ≤ c)
    → Affordable c m
    → Affordable c (or_insert k p m)
unfolding or_insert
or_insert-Affordable c k p m fits a = elim (Option-cases (get k m)) [
  | inl free ↦ rw (free, or_insert) (insert-Affordable c k p m fits a)
  | inr (q, taken) ↦ rw (taken, or_insert) a
]

union-Affordable :
    (c : ℕ) (policies all : HashMap String DomainPolicy)
    → Affordable c policies
    → Affordable c all
    → Affordable c (union_policies policies all)
unfolding union_policies
union-Affordable c [] all h a = a
union-Affordable c ((k, p) ∷ policies) all h a =
    union-Affordable c policies (or_insert k p all) h.2
      (or_insert-Affordable c k p all (h.0, h.1) a)

or_insert-kept :
    (k d : String) (p q : DomainPolicy) (m : HashMap String DomainPolicy)
    → get d m ≡ some q
    → get d (or_insert k p m) ≡ some q
unfolding or_insert
or_insert-kept k d p q m h = ground (arith, string_eq.equal_iff k d, get-insert k d p m)

or_insert-present :
    (k : String) (p : DomainPolicy) (m : HashMap String DomainPolicy)
    → (q : DomainPolicy) × (get k (or_insert k p m) ≡ some q)
unfolding or_insert
or_insert-present k p m = elim (Option-cases (get k m)) [
  | inl free ↦ (p, rw (free, or_insert) (get-insert_self k p m))
  | inr (q, taken) ↦ (q, rw (taken, or_insert) taken)
]

union-kept :
    (d : String) (q : DomainPolicy) (policies all : HashMap String DomainPolicy)
    → get d all ≡ some q
    → get d (union_policies policies all) ≡ some q
unfolding union_policies
union-kept d q [] all h = h
union-kept d q ((k, p) ∷ policies) all h =
    union-kept d q policies (or_insert k p all) (or_insert-kept k d p q all h)

union-Covers :
    (policies all : HashMap String DomainPolicy) → Covers (union_policies policies all) policies
unfolding union_policies
union-Covers [] all = tt
union-Covers ((k, p) ∷ policies) all =
    let w = or_insert-present k p all in
    (
      (w.0, union-kept k w.0 policies (or_insert k p all) w.1),
      union-Covers policies (or_insert k p all),
    )

gather-kept :
    (d : String) (q : DomainPolicy) (agents : HashMap String AgentConfig) (c : ℕ)
    (all : HashMap String DomainPolicy)
    → get d all ≡ some q
    → get d (gather agents c all).1 ≡ some q
unfolding gather
gather-kept d q [] c all h = h
gather-kept d q ((k, a) ∷ agents) c all h =
    gather-kept d q agents _ (union_policies a.domain_policies all)
      (union-kept d q a.domain_policies all h)

Covers-gather :
    (agents : HashMap String AgentConfig) (c : ℕ) (all policies : HashMap String DomainPolicy)
    → Covers all policies
    → Covers (gather agents c all).1 policies
Covers-gather agents c all [] h = tt
Covers-gather agents c all ((d, p) ∷ policies) h =
    ((h.0.0, gather-kept d h.0.0 agents c all h.0.1), Covers-gather agents c all policies h.1)

-- What the loop has gathered: all agents fit, the policies are affordable, and no domain is missing.
pub record Gathered (agents : HashMap String AgentConfig) (c : ℕ)
    (out : ℕ × HashMap String DomainPolicy) : Type 0 where
  pub grown : c ≤ out.0
  pub fit : AllFit out.0 agents
  pub affordable : Affordable out.0 out.1
  pub covered : AllCovered out.1 agents

abbrev raised : ℕ → AgentConfig → ℕ
raised c a = if ltb c a.max_capacity then a.max_capacity else c

pub gather-Gathered :
    (agents : HashMap String AgentConfig) (c : ℕ) (all : HashMap String DomainPolicy)
    → AllValid agents
    → Affordable c all
    → Gathered agents c (gather agents c all)
unfolding gather
gather-Gathered [] c all v h = record {
  grown = omega arith;
  fit = tt;
  affordable = h;
  covered = tt;
}
gather-Gathered ((k, a) ∷ agents) c all v h =
    let larger : c ≤ raised c a = ground arith in
    let own : a.max_capacity ≤ raised c a = ground arith in
    let policies = union_policies a.domain_policies all in
    let rest = gather-Gathered agents (raised c a) policies v.2 (
      union-Affordable (raised c a) a.domain_policies all
        (Affordable-le a.max_capacity (raised c a) a.domain_policies own v.1.affordable)
        (Affordable-le c (raised c a) all larger h)) in
    record {
      grown = omega (arith, larger, rest.grown);
      fit = (omega (arith, own, rest.grown), rest.fit);
      affordable = rest.affordable;
      covered = (
        Covers-gather agents (raised c a) policies a.domain_policies
            (union-Covers a.domain_policies all),
        rest.covered,
      );
    }
