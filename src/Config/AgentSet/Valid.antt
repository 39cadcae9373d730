-- ===== src/Config/AgentSet/Valid.antt =====
-- safa-core/src/config.rs: what the agents of a loaded configuration promise.
use mathlib.Core.Path.{subst}
use ama.Prelude.{
  ◌↔◌, ap, ℕ, ◌≤◌, ◌≡◌, refl, String, true, false, Option, none, some, List, [], ◌∷◌, arith,
  HashMap, get, insert, string_eq, nat_beq, ◌==◌, Option-cases, Bool-cases, inl, inr, IsMap,
  insert-IsMap, beq_refl, not, contains_char,
}
use ama.Errors.{Result, ok, err, >>=-eq-ok, ok_injective, fail_if, ok_or}
use ama.Newtypes.{Unicode}
use ama.Config.{AgentConfig, DomainPolicy}
use ama.Config.Raw.{RawSlime, RawDomainEntry, ConfigDir, Crates}
use ama.Config.Agent.{RawAgent, domain_policies, from_toml_str, load_agents, load_agent_configs}
use ama.Config.Agent.Valid
use ama.Config.Agent.Valid.{
  Affordable, AllValid, domain_policies-Affordable, load_agent_configs-AllValid,
}
use ama.Config.AgentSet.{
  AgentSet, agents_hash, defines, check_domains, cross_validate, sole_agent, none_given,
  slime_domain, from_directory, from_slime,
}
use ama.Config.AgentSet.Gathered.{AllFit, Covers, AllCovered, gather-Gathered}

load_agents-IsMap :
    (u : Unicode) (toml_from_str : String → Result String RawAgent)
    (entries : List (Result String String)) (agents loaded : HashMap String AgentConfig)
    → load_agents u toml_from_str entries agents ≡ ok loaded
    → IsMap agents
    → IsMap loaded
unfolding load_agents
load_agents-IsMap u toml_from_str [] agents loaded h m = subst IsMap (ok_injective h) m
load_agents-IsMap u toml_from_str (err e ∷ entries) agents loaded h m = cc
load_agents-IsMap u toml_from_str (ok contents ∷ entries) agents loaded h m =
    let parsed = >>=-eq-ok (from_toml_str u toml_from_str contents) _ loaded h in
    elim (Option-cases (get parsed.0.agent_id agents)) [
      | inr (b, taken) ↦ absurd (ground (arith, parsed.2))
      | inl free ↦
          load_agents-IsMap u toml_from_str entries (insert parsed.0.agent_id parsed.0 agents)
            loaded (ground (arith, parsed.2)) (insert-IsMap parsed.0.agent_id parsed.0 agents m)
    ]

insert_given :
    (k : String) (a : AgentConfig) (m : HashMap String AgentConfig)
    → none_given (insert k a m) ≡ false
unfolding insert
insert_given k a [] = refl
insert_given k a ((j, b) ∷ m) = ground arith

load_agents_given :
    (u : Unicode) (toml_from_str : String → Result String RawAgent)
    (entries : List (Result String String)) (agents loaded : HashMap String AgentConfig)
    → load_agents u toml_from_str entries agents ≡ ok loaded
    → none_given agents ≡ false
    → none_given loaded ≡ false
unfolding load_agents
load_agents_given u toml_from_str [] agents loaded h g = ground arith
load_agents_given u toml_from_str (err e ∷ entries) agents loaded h g = cc
load_agents_given u toml_from_str (ok contents ∷ entries) agents loaded h g =
    let parsed = >>=-eq-ok (from_toml_str u toml_from_str contents) _ loaded h in
    elim (Option-cases (get parsed.0.agent_id agents)) [
      | inr (b, taken) ↦ absurd (ground (arith, parsed.2))
      | inl free ↦
          load_agents_given u toml_from_str entries (insert parsed.0.agent_id parsed.0 agents)
            loaded (ground (arith, parsed.2)) (insert_given parsed.0.agent_id parsed.0 agents)
    ]

-- The first entry is not lost.
load_agents_some :
    (u : Unicode) (toml_from_str : String → Result String RawAgent) (entry : Result String String)
    (entries : List (Result String String)) (loaded : HashMap String AgentConfig)
    → load_agents u toml_from_str (entry ∷ entries) [] ≡ ok loaded
    → none_given loaded ≡ false
unfolding load_agents get
load_agents_some u toml_from_str (err e) entries loaded h = cc
load_agents_some u toml_from_str (ok contents) entries loaded h =
    let parsed = >>=-eq-ok (from_toml_str u toml_from_str contents) _ loaded h in
    load_agents_given u toml_from_str entries (insert parsed.0.agent_id parsed.0 []) loaded parsed.2
      (insert_given parsed.0.agent_id parsed.0 [])

-- Every domain of the policies is one that `domains.toml` defines.
abbrev pub Defined : HashMap String RawDomainEntry → HashMap String DomainPolicy → Type 0
Defined domains [] = Unit {0}
Defined domains ((d, p) ∷ policies) = (defines domains d ≡ true) × Defined domains policies

abbrev pub AllDefined : HashMap String RawDomainEntry → HashMap String AgentConfig → Type 0
AllDefined domains [] = Unit {0}
AllDefined domains ((agent_id, a) ∷ agents) =
    Defined domains a.domain_policies × AllDefined domains agents

check_domains-Defined :
    (domains : HashMap String RawDomainEntry) (agent_id : String)
    (policies : HashMap String DomainPolicy)
    → check_domains domains agent_id policies ≡ ok tt
    → Defined domains policies
unfolding check_domains
check_domains-Defined domains agent_id [] h = tt
check_domains-Defined domains agent_id ((d, p) ∷ policies) h =
    let known = >>=-eq-ok (fail_if (not (defines domains d)) _) _ tt h in
    (ground (arith, known.1), check_domains-Defined domains agent_id policies known.2)

cross_validate-AllDefined :
    (domains : HashMap String RawDomainEntry) (agents : HashMap String AgentConfig)
    → cross_validate domains agents ≡ ok tt
    → AllDefined domains agents
unfolding cross_validate
cross_validate-AllDefined domains [] h = tt
cross_validate-AllDefined domains ((k, a) ∷ agents) h =
    let own = >>=-eq-ok (check_domains domains a.agent_id a.domain_policies) _ tt h in
    (
      check_domains-Defined domains a.agent_id a.domain_policies own.1,
      cross_validate-AllDefined domains agents own.2,
    )

-- The default agent is the agent that is alone.
abbrev pub Sole : HashMap String AgentConfig → Option String → Type 0
Sole agents default_agent_id =
    (agent_id : String)
    → (default_agent_id ≡ some agent_id) ↔ ((a : AgentConfig) × (agents ≡ (agent_id, a) ∷ []))

sole_agent-Sole : (agents : HashMap String AgentConfig) → Sole agents (sole_agent agents)
sole_agent-Sole [] agent_id = (λ h. absurd (ground arith), λ w. absurd (ground (arith, w.1)))
sole_agent-Sole ((k, a) ∷ []) agent_id = (
  λ h. let same : k ≡ agent_id = ground arith in (a, ap (λ i. (i, a) ∷ []) same),
  λ w. ground (arith, w.1),
)
sole_agent-Sole ((k, a) ∷ b ∷ agents) agent_id =
    (λ h. absurd (ground arith), λ w. absurd (ground (arith, w.1)))

-- There is an agent; each stands under its own id with a valid configuration; the set's capacity bounds
-- theirs, and bounds the policies of the set, which has one for every domain of every agent.
pub record IsValid (s : AgentSet) : Type 0 where
  pub valid : AllValid s.agents
  pub distinct : IsMap s.agents
  pub given : none_given s.agents ≡ false
  pub default : Sole s.agents s.default_agent_id
  pub fit : AllFit s.max_capacity s.agents
  pub affordable : Affordable s.max_capacity s.domain_policies
  pub covered : AllCovered s.domain_policies s.agents

loaded_agents :
    (u : Unicode) (toml_from_str : String → Result String RawAgent)
    (listing : Result String (List (Result String String))) (agents : HashMap String AgentConfig)
    → load_agent_configs u toml_from_str listing ≡ ok agents
    → IsMap agents × (none_given agents ≡ false)
unfolding load_agent_configs
loaded_agents u toml_from_str (err e) agents h = cc
loaded_agents u toml_from_str (ok []) agents h = cc
loaded_agents u toml_from_str (ok (entry ∷ entries)) agents h = (
  load_agents-IsMap u toml_from_str (entry ∷ entries) [] agents h tt,
  load_agents_some u toml_from_str entry entries agents h,
)

pub from_directory-IsValid :
    (crates : Crates) (dir : ConfigDir) (domains : HashMap String RawDomainEntry) (s : AgentSet)
    → from_directory crates dir domains ≡ ok s
    → IsValid s
      × AllDefined domains s.agents
      × (agents_hash crates.sha256_hex dir.agents_bytes ≡ ok s.agents_hash)
unfolding from_directory
from_directory-IsValid crates dir domains s h =
    let loaded =
      >>=-eq-ok (load_agent_configs crates.unicode crates.agent_from_str dir.agents_texts) _ s h in
    let agents = loaded.0 in
    let hashed = >>=-eq-ok (agents_hash crates.sha256_hex dir.agents_bytes) _ s loaded.2 in
    let crossed = >>=-eq-ok (cross_validate domains agents) _ s hashed.2 in
    let valid =
      load_agent_configs-AllValid crates.unicode crates.agent_from_str dir.agents_texts agents
        loaded.1 in
    let shape =
      loaded_agents crates.unicode crates.agent_from_str dir.agents_texts agents loaded.1 in
    let g = gather-Gathered agents 0 [] valid tt in
    subst
      (λ s.
        IsValid s
        × AllDefined domains s.agents
        × (agents_hash crates.sha256_hex dir.agents_bytes ≡ ok s.agents_hash))
      (ok_injective crossed.2)
      (
        record {
          valid = valid;
          distinct = shape.0;
          given = shape.1;
          default = sole_agent-Sole agents;
          fit = g.fit;
          affordable = g.affordable;
          covered = g.covered;
        },
        cross_validate-AllDefined domains agents crossed.1,
        hashed.1,
      )

Covers-cons :
    (k : String) (p : DomainPolicy) (all policies : HashMap String DomainPolicy)
    → Covers all policies
    → Covers ((k, p) ∷ all) policies
unfolding get
Covers-cons k p all [] h = tt
Covers-cons k p all ((d, q) ∷ policies) h = elim (Bool-cases (k == d)) [
  | inl same ↦ ((p, rw same refl), Covers-cons k p all policies h.1)
  | inr other ↦ ((h.0.0, rw other h.0.1), Covers-cons k p all policies h.1)
]

Covers-refl : (m : HashMap String DomainPolicy) → Covers m m
unfolding get
Covers-refl [] = tt
Covers-refl ((k, p) ∷ m) = ((p, rw (beq_refl k) refl), Covers-cons k p m m (Covers-refl m))

abbrev default_agent : ℕ → HashMap String DomainPolicy → AgentConfig
default_agent c policies = record {
  agent_id = "default";
  max_capacity = c;
  rate_limit_per_window = 60;
  rate_limit_window_secs = 60;
  domain_policies = policies;
  secret = none;
}

default_agent-IsValid :
    (c : ℕ) (policies : HashMap String DomainPolicy)
    → 1 ≤ c
    → Affordable c policies
    → Valid.IsValid (default_agent c policies)
unfolding contains_char
default_agent-IsValid c policies h a = record {
  named = refl;
  no_dot = refl;
  no_slash = refl;
  capacity = h;
  rate = omega arith;
  window = omega arith;
  affordable = a;
  secret = tt;
}

pub from_slime-IsValid : (slime : RawSlime) (s : AgentSet) → from_slime slime ≡ ok s → IsValid s
unfolding from_slime get
from_slime-IsValid slime s h =
    let given = >>=-eq-ok (ok_or slime.max_capacity _) _ s h in
    let c = given.0 in
    let positive = >>=-eq-ok (fail_if (nat_beq c 0) _) _ s given.2 in
    let named = >>=-eq-ok (fail_if (none_given slime.domains) _) _ s positive.2 in
    let policies = >>=-eq-ok (domain_policies slime_domain c slime.domains []) _ s named.2 in
    let affordable =
      domain_policies-Affordable slime_domain c slime.domains [] policies.0 policies.1 tt in
    let capacity : 1 ≤ c = ground (arith, positive.1) in
    subst IsValid (ok_injective policies.2) (record {
      valid = (refl, default_agent-IsValid c policies.0 capacity affordable, tt);
      distinct = (refl, tt);
      given = refl;
      default = sole_agent-Sole (("default", default_agent c policies.0) ∷ []);
      fit = (omega arith, tt);
      affordable = affordable;
      covered = (Covers-refl policies.0, tt);
    })
