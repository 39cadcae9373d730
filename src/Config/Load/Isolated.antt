-- ===== src/Config/Load/Isolated.antt =====
-- safa-core/src/config.rs and newtypes.rs: the agents of a configuration have directories of their own.
use mathlib.Core.Path.{subst}
use text.Mathlib.TextEquality.{eq_iff}
use ama.Prelude.{
  ◌≡◌, ◌≢◌, refl, sym, ap, ◌∙◌, String, true, false, some, [], ◌∷◌, ◌++◌, arith, contains_char,
  starts_with, split, nat_beq, string_eq, ◌==◌, Bool-cases, inl, inr, HashMap, get,
}
use ama.Errors.{ok}
use ama.Config.{AmaConfig, AgentConfig}
use ama.Config.Agent.Valid.{IsValid, AllValid}
use ama.Config.Raw.{ConfigDir, Crates}
use ama.Config.Load.{load}
use ama.Config.Load.Valid.{load-Loaded}
use ama.Newtypes.Path.{
  FilePath, FileSystem, WorkspacePath, components, effective_root, canonical_root, new_with_agent,
}
use ama.Newtypes.Path.Confined.{Below, agents_isolated}

split_whole : (s : String) → contains_char b'/' s ≡ false → split (λ c. nat_beq c b'/') s ≡ s ∷ []
unfolding split contains_char
split_whole String.[] h = refl
split_whole (String.◌∷◌ c s) h = ground (arith, split_whole s)

not_absolute : (s : String) → contains_char b'/' s ≡ false → starts_with s "/" ≡ false
unfolding starts_with contains_char
not_absolute String.[] h = refl
not_absolute (String.◌∷◌ c s) h = ground arith

not_dot : (s : String) → contains_char b'.' s ≡ false → (s == ".") ≡ false
unfolding contains_char
not_dot s h = elim (Bool-cases (s == ".")) [
  | inr other ↦ other
  | inl same ↦
      let e : s ≡ "." = (eq_iff s ".").0 same in absurd (ground (arith, ap (contains_char b'.') e))
]

-- The id of a valid agent is one component below the workspace root: it neither leaves it nor names it.
effective_root-agent :
    (a : AgentConfig) (workspace_root : FilePath)
    → IsValid a
    → effective_root workspace_root (some a.agent_id) ≡ workspace_root ++ a.agent_id ∷ []
unfolding effective_root components
effective_root-agent a workspace_root v =
    rw
      (
        not_absolute a.agent_id v.no_slash,
        split_whole a.agent_id v.no_slash,
        v.named,
        not_dot a.agent_id v.no_dot,
      )
      refl

get-AllValid :
    (agents : HashMap String AgentConfig) (id : String) (a : AgentConfig)
    → AllValid agents
    → get id agents ≡ some a
    → (a.agent_id ≡ id) × IsValid a
unfolding get
get-AllValid [] id a v h = cc
get-AllValid ((k, b) ∷ agents) id a v h = elim (Bool-cases (k == id)) [
  | inl same ↦
      let found : b ≡ a = ground arith in
      (ap (λ x. x.agent_id) (sym found) ∙ v.0 ∙ (eq_iff k id).0 same, subst IsValid found v.1)
  | inr other ↦ get-AllValid agents id a v.2 (ground arith)
]

module _ (crates : Crates) (dir : ConfigDir) (config : AmaConfig)
    (loaded : load crates dir ≡ ok config) (fs : FileSystem) (resolved_root : FilePath) where
  -- The directory of the agent is there, and is no symbolic link.
  abbrev pub Plain : String → Type 0
  Plain id =
      (fs.exists (components config.workspace_root ++ id ∷ []) ≡ true)
      × (fs.canonicalize (components config.workspace_root ++ id ∷ [])
          ≡ ok (resolved_root ++ id ∷ []))

  canonical_root-agent :
      (id : String) (a : AgentConfig)
      → get id config.agents ≡ some a
      → Plain id
      → canonical_root fs (effective_root (components config.workspace_root) (some id))
        ≡ resolved_root ++ id ∷ []
  unfolding canonical_root
  canonical_root-agent id a known plain =
      let valid =
        get-AllValid config.agents id a (load-Loaded crates dir config loaded).agents.valid known in
      let below : effective_root (components config.workspace_root) (some id)
          ≡ components config.workspace_root ++ id ∷ [] =
        subst
          (λ n.
            effective_root (components config.workspace_root) (some n)
            ≡ components config.workspace_root ++ n ∷ [])
          valid.0 (effective_root-agent a (components config.workspace_root) valid.1) in
      rw (below, plain.0, plain.1) refl

  -- The paths that are accepted for two agents of a loaded configuration lie in directories of their own
  -- and are different, whatever the requests say, if the directories are there and are no symbolic links. This
  -- is about the paths, and not about the links inside a path that was accepted without being resolved.
  pub load-agents_isolated :
      (relative relative' id other : String) (a b : AgentConfig) (p q : WorkspacePath)
      → get id config.agents ≡ some a
      → get other config.agents ≡ some b
      → id ≢ other
      → Plain id
      → Plain other
      → new_with_agent fs relative (components config.workspace_root) (some id) ≡ ok p
      → new_with_agent fs relative' (components config.workspace_root) (some other) ≡ ok q
      → Below p.canonical (resolved_root ++ id ∷ [])
        × Below q.canonical (resolved_root ++ other ∷ [])
        × (p.canonical ≢ q.canonical)
  load-agents_isolated relative relative' id other a b p q known known' differ plain plain' =
      agents_isolated fs relative relative' id other (components config.workspace_root)
        resolved_root p q (canonical_root-agent id a known plain)
        (canonical_root-agent other b known' plain') differ
