-- ===== src/Conductor/Finding.antt =====
-- src/primal_ai/conductor/_core.py: `Conductor.find`, and the active trajectory. `order` is the order
-- in which Python runs through a set, a parameter.
pub mod Both
pub mod History
mod Tests
use primal_core.Base.{String, Option, none, some, List, [], map, Outcome}
use mathlib.Core.List.{filter_map}
use primal_core.Base.Dict.{Dict, get, values}
use primal_core.Base.Dict.Named.{by_name, common_keys}
use primal_core.Conductor.Card.{Agent, AgentCard}
use primal_core.Conductor.Registry.{AgentRegistry, find_by_capability, find_by_tag}
use primal_core.Conductor.Delegate.{Conductor, Handoff}

module _ {S : Type 0} (order : List String → List String) where
  -- The candidates of `Conductor.find`; every name looked up is one of `by_cap`.
  unfoldable pub candidates : Option String → Option String → AgentRegistry S → List (Agent S)
  unfolding by_name common_keys find_by_capability find_by_tag values get
  candidates (some capability) (some tag) r =
      let by_cap = by_name (λ a. a.name) (find_by_capability capability r) [] in
      let by_tag = by_name (λ a. a.name) (find_by_tag tag r) [] in
      filter_map (λ n. get n by_cap) (order (common_keys by_cap by_tag))
  candidates (some capability) none r = find_by_capability capability r
  candidates none (some tag) r = find_by_tag tag r
  candidates none none r = values r

  unfoldable pub find : Option String → Option String → AgentRegistry S → List AgentCard
  unfolding candidates
  find capability tag r = map (λ a. a.card) (candidates capability tag r)

-- `with Conductor.set_active_trajectory(trajectory): body`, for a trajectory other than the active
-- one: the outcome of the body with the steps of the trajectory, and what was active before.
unfoldable pub set_active_trajectory :
    {S A : Type 0}
    → Option (List Handoff)
    → (Conductor S → Outcome A × Conductor S)
    → Conductor S
    → (Outcome A × Option (List Handoff)) × Conductor S
set_active_trajectory steps body c =
    let (o, c') = body (record c { trajectory = steps }) in
    ((o, c'.trajectory), record c' { trajectory = c.trajectory })
