-- ===== src/Slime/Registry.antt =====
-- safa-core/src/slime.rs: `AgentRegistry`, the authorizer of each agent.
use ama.Prelude.{
  ℕ, String, Bool, Option, List, [], ◌∷◌, HashMap, length, get, insert, string_eq, map, nat_beq,
  Uuid,
}
use ama.Config.{AgentConfig}
use ama.Slime.{P0Authorizer, new}

pub record AgentRegistry : Type 0 where
  pub agents : HashMap String P0Authorizer

-- The loop of `AgentRegistry::new`. Each configuration stands beside the session id that
-- `P0Authorizer::new` draws for it.
unfoldable pub register :
    List (Uuid × AgentConfig) → HashMap String P0Authorizer → HashMap String P0Authorizer
unfolding new
register [] agents = agents
register ((session_id, config) ∷ configs) agents =
    register configs
      (insert config.agent_id (new config.max_capacity config.domain_policies session_id) agents)

unfoldable pub new_registry : List (Uuid × AgentConfig) → AgentRegistry
unfolding register
new_registry configs = record { agents = register configs [] }

unfoldable pub get_agent : String → AgentRegistry → Option P0Authorizer
get_agent agent_id r = get agent_id r.agents

unfoldable pub agent_ids : AgentRegistry → List String
agent_ids r = map (λ a. a.0) r.agents

unfoldable pub len : AgentRegistry → ℕ
len r = length r.agents

unfoldable pub is_empty : AgentRegistry → Bool
is_empty r = nat_beq (length r.agents) 0
