-- ===== src/Config/Agent/Valid.antt =====
-- safa-core/src/config.rs: what a loaded agent configuration promises to the rest of the program.
use Prim.Native.Char.{code}
use Prim.Native.String.{len}
use mathlib.Core.Path.{subst}
use ama.Prelude.{
  not, ℕ, ◌≤◌, ◌≡◌, refl, inl, inr, String, Bool, true, false, Option, none, some, List, [], ◌∷◌,
  arith, HashMap, get, insert, string_eq, is_empty, all_chars, contains_char, nat_beq, ltb,
  Option-cases, Bool-cases, ◌==◌, ap,
}
use ama.Errors.{Result-cases, Result, ok, err, >>=-eq-ok, ok_injective, fail_if}
use ama.Config.{AgentConfig, DomainPolicy}
use ama.Newtypes.{Unicode, is_alphanumeric}
use ama.Config.Agent.{
  RawDomainPolicy, RawAgent, replace_underscores, id_char, agent_domain, domain_policies,
  check_secret, validate_agent, from_toml_str, load_agents, load_agent_configs,
}

-- Every action that a domain allows is at least 1 and within the capacity.
abbrev pub Affordable : ℕ → HashMap String DomainPolicy → Type 0
Affordable max_capacity [] = Unit {0}
Affordable max_capacity ((domain_id, p) ∷ policies) =
    (1 ≤ p.max_magnitude_per_action)
    × (p.max_magnitude_per_action ≤ max_capacity)
    × Affordable max_capacity policies

abbrev pub StrongSecret : Option String → Type 0
StrongSecret none = Unit {0}
StrongSecret (some s) = 32 ≤ len s

pub record IsValid (a : AgentConfig) : Type 0 where
  pub named : is_empty a.agent_id ≡ false
  pub no_dot : contains_char b'.' a.agent_id ≡ false
  pub no_slash : contains_char b'/' a.agent_id ≡ false
  pub capacity : 1 ≤ a.max_capacity
  pub rate : 1 ≤ a.rate_limit_per_window
  pub window : 1 ≤ a.rate_limit_window_secs
  pub affordable : Affordable a.max_capacity a.domain_policies
  pub secret : StrongSecret a.secret

excluded :
    (test : ℕ → Bool) (c : ℕ) (s : String)
    → test c ≡ false
    → all_chars test s ≡ true
    → contains_char c s ≡ false
unfolding all_chars contains_char
excluded test c String.[] h k = refl
excluded test c (String.◌∷◌ d s) h k = elim (Bool-cases (nat_beq (code d) c)) [
  | inl same ↦ let e : code d ≡ c = ground arith in absurd (ground (arith, ap test e))
  | inr other ↦ ground (arith, excluded test c s h)
]

pub insert-Affordable :
    (max_capacity : ℕ) (k : String) (p : DomainPolicy) (m : HashMap String DomainPolicy)
    → (1 ≤ p.max_magnitude_per_action) × (p.max_magnitude_per_action ≤ max_capacity)
    → Affordable max_capacity m
    → Affordable max_capacity (insert k p m)
unfolding insert
insert-Affordable max_capacity k p [] fits h = (fits.0, fits.1, tt)
insert-Affordable max_capacity k p ((j, q) ∷ m) fits h = elim (Bool-cases (j == k)) [
  | inl same ↦ ground (arith)
  | inr other ↦ ground (arith, insert-Affordable max_capacity k p m fits h.2)
]

pub domain_policies-Affordable :
    (named : String → String) (max_capacity : ℕ) (domains : List (String × RawDomainPolicy))
    (m policies : HashMap String DomainPolicy)
    → domain_policies named max_capacity domains m ≡ ok policies
    → Affordable max_capacity m
    → Affordable max_capacity policies
unfolding domain_policies
domain_policies-Affordable named max_capacity [] m policies h a =
    subst (Affordable max_capacity) (ok_injective h) a
domain_policies-Affordable named max_capacity ((key, raw) ∷ domains) m policies h a =
    let positive = >>=-eq-ok (fail_if (nat_beq raw.max_magnitude_per_action 0) _) _ policies h in
    let small =
      >>=-eq-ok (fail_if (ltb max_capacity raw.max_magnitude_per_action) _) _ policies positive.2 in
    domain_policies-Affordable named max_capacity domains _ policies small.2 (
      insert-Affordable max_capacity (replace_underscores key) _ m
        (ground (arith, positive.1), ground (arith, small.1)) a)

check_secret-StrongSecret :
    (agent_id : String) (secret : Option String)
    → check_secret agent_id secret ≡ ok tt
    → StrongSecret secret
unfolding check_secret
check_secret-StrongSecret agent_id none h = tt
check_secret-StrongSecret agent_id (some s) h = ground arith

validate_agent-IsValid :
    (u : Unicode) (raw : RawAgent) (a : AgentConfig) → validate_agent u raw ≡ ok a → IsValid a
unfolding validate_agent is_alphanumeric
validate_agent-IsValid u raw a h =
    let named = >>=-eq-ok (fail_if (is_empty raw.agent_id) _) _ a h in
    let chars = >>=-eq-ok (fail_if (not (all_chars (id_char u) raw.agent_id)) _) _ a named.2 in
    let capacity = >>=-eq-ok (fail_if (nat_beq raw.max_capacity 0) _) _ a chars.2 in
    let rate = >>=-eq-ok (fail_if (nat_beq raw.rate_limit_per_window 0) _) _ a capacity.2 in
    let window = >>=-eq-ok (fail_if (nat_beq raw.rate_limit_window_secs 0) _) _ a rate.2 in
    let policies =
      (>>=-eq-ok (domain_policies (agent_domain raw.agent_id) raw.max_capacity raw.domains []) _ a
        window.2) in
    let secret = >>=-eq-ok (check_secret raw.agent_id raw.secret) _ a policies.2 in
    let fits : all_chars (id_char u) raw.agent_id ≡ true = ground (arith, chars.1) in
    subst IsValid (ok_injective secret.2) (record {
      named = ground (arith, named.1);
      no_dot = excluded (id_char u) b'.' raw.agent_id refl fits;
      no_slash = excluded (id_char u) b'/' raw.agent_id refl fits;
      capacity = ground (arith, capacity.1);
      rate = ground (arith, rate.1);
      window = ground (arith, window.1);
      affordable =
          domain_policies-Affordable (agent_domain raw.agent_id) raw.max_capacity raw.domains []
            policies.0 policies.1 tt;
      secret = check_secret-StrongSecret raw.agent_id raw.secret secret.1;
    })

from_toml_str-IsValid :
    (u : Unicode) (toml_from_str : String → Result String RawAgent) (contents : String)
    (a : AgentConfig)
    → from_toml_str u toml_from_str contents ≡ ok a
    → IsValid a
unfolding from_toml_str
from_toml_str-IsValid u toml_from_str contents a h = elim (Result-cases (toml_from_str contents)) [
  | inl (e, failed) ↦ absurd (ground arith)
  | inr (raw, parsed) ↦ validate_agent-IsValid u raw a (ground arith)
]

-- Every agent of a map has a valid configuration, under its own id.
abbrev pub AllValid : HashMap String AgentConfig → Type 0
AllValid [] = Unit {0}
AllValid ((agent_id, a) ∷ agents) = (a.agent_id ≡ agent_id) × IsValid a × AllValid agents

insert-AllValid :
    (a : AgentConfig) (agents : HashMap String AgentConfig)
    → IsValid a
    → AllValid agents
    → AllValid (insert a.agent_id a agents)
unfolding insert
insert-AllValid a [] v h = (refl, v, tt)
insert-AllValid a ((k, b) ∷ agents) v h = elim (Bool-cases (k == a.agent_id)) [
  | inl same ↦ rw same (refl, v, h.2)
  | inr other ↦ rw other (h.0, h.1, insert-AllValid a agents v h.2)
]

pub load_agents-AllValid :
    (u : Unicode) (toml_from_str : String → Result String RawAgent)
    (entries : List (Result String String)) (agents loaded : HashMap String AgentConfig)
    → load_agents u toml_from_str entries agents ≡ ok loaded
    → AllValid agents
    → AllValid loaded
unfolding load_agents from_toml_str
load_agents-AllValid u toml_from_str [] agents loaded h v = subst AllValid (ok_injective h) v
load_agents-AllValid u toml_from_str (err e ∷ entries) agents loaded h v = cc
load_agents-AllValid u toml_from_str (ok contents ∷ entries) agents loaded h v =
    let parsed = >>=-eq-ok (from_toml_str u toml_from_str contents) _ loaded h in
    elim (Option-cases (get parsed.0.agent_id agents)) [
      | inr (b, taken) ↦ absurd (ground (arith, parsed.2))
      | inl free ↦
          load_agents-AllValid u toml_from_str entries (insert parsed.0.agent_id parsed.0 agents)
            loaded (ground (arith, parsed.2))
            (insert-AllValid parsed.0 agents
              (from_toml_str-IsValid u toml_from_str contents parsed.0 parsed.1) v)
    ]

-- Every agent that is loaded stands under its own id, which is a name without a dot or a slash, may do
-- something, at some rate, in domains whose actions all fit into its capacity, and has a secret of at
-- least 32 bytes if it has one.
pub load_agent_configs-AllValid :
    (u : Unicode) (toml_from_str : String → Result String RawAgent)
    (listing : Result String (List (Result String String))) (agents : HashMap String AgentConfig)
    → load_agent_configs u toml_from_str listing ≡ ok agents
    → AllValid agents
unfolding load_agent_configs
load_agent_configs-AllValid u toml_from_str (err e) agents h = cc
load_agent_configs-AllValid u toml_from_str (ok []) agents h = cc
load_agent_configs-AllValid u toml_from_str (ok (entry ∷ entries)) agents h =
    load_agents-AllValid u toml_from_str (entry ∷ entries) [] agents h tt
