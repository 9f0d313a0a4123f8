-- ===== src/Conductor/Registry.antt =====
-- src/primal_ai/conductor/_registry.py
pub mod Named
use primal_core.Base.{String, none, some, List, keep, map, Outcome, returned, raised, exception}
use primal_core.Base.Dict.{Dict, get, put, pop, values}
use primal_core.Conductor.Card.{Agent, AgentCard, has_capability, has_tag}

abbrev pub AgentRegistry : Type 0 → Type 0
AgentRegistry S = Dict (Agent S)

module _ {S : Type 0} where
  unfoldable pub register : Agent S → AgentRegistry S → Outcome (Unit {0}) × AgentRegistry S
  register agent r = elim (get agent.name r) [
    | some _ ↦ (raised (exception "ValueError" agent.name), r)
    | none ↦ (returned tt, put agent.name agent r)
  ]

  unfoldable pub unregister : String → AgentRegistry S → AgentRegistry S
  unregister name r = pop name r

  unfoldable pub cards : AgentRegistry S → List AgentCard
  cards r = map (λ a. a.card) (values r)

  unfoldable pub find_by_capability : String → AgentRegistry S → List (Agent S)
  find_by_capability name r = keep (λ a. has_capability name a.card) (values r)

  unfoldable pub find_by_tag : String → AgentRegistry S → List (Agent S)
  find_by_tag tag r = keep (λ a. has_tag tag a.card) (values r)
