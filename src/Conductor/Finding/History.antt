-- ===== src/Conductor/Finding/History.antt =====
-- `Conductor.find` of src/primal_ai/conductor/_core.py after any calls of `register_agent` and
-- `unregister_agent`.
use mathlib.Core.List.{Perm}
use primal_core.Base.{String, some, List, [], ◌∷◌, keep, map, ◌&&◌, Option-cases, inl, inr}
use primal_core.Base.Dict.{get, values}
use primal_core.Base.Dict.Owned.{IsOwned, put-IsOwned, pop-IsOwned, IsOwned-NodupKeys}
use primal_core.Conductor.Card.{Agent, has_capability, has_tag}
use primal_core.Conductor.Registry.{AgentRegistry, register, unregister}
use primal_core.Conductor.Finding.{find}
use primal_core.Conductor.Finding.Both.{find_both-Perm}

-- One call that changes the registry
pub data AgentCall (S : Type 0) : Type 0 where
  register_call : Agent S → AgentCall S
  unregister_call : String → AgentCall S

module _ {S : Type 0} where
  unfoldable pub calls : List (AgentCall S) → AgentRegistry S → AgentRegistry S
  unfolding register unregister
  calls [] r = r
  calls (register_call agent ∷ more) r = calls more (register agent r).1
  calls (unregister_call name ∷ more) r = calls more (unregister name r)

  register-IsOwned :
      (agent : Agent S) (r : AgentRegistry S)
      → IsOwned (λ a. a.name) r
      → IsOwned (λ a. a.name) (register agent r).1
  unfolding register
  register-IsOwned agent r h = elim (Option-cases (get agent.name r)) [
    | inl e ↦ rw (e, register) (put-IsOwned (λ a. a.name) agent r h)
    | inr (t, e) ↦ rw (e, register) h
  ]

  calls-IsOwned :
      (more : List (AgentCall S)) (r : AgentRegistry S)
      → IsOwned (λ a. a.name) r
      → IsOwned (λ a. a.name) (calls more r)
  unfolding calls unregister
  calls-IsOwned [] r h = h
  calls-IsOwned (register_call agent ∷ more) r h =
      calls-IsOwned more (register agent r).1 (register-IsOwned agent r h)
  calls-IsOwned (unregister_call name ∷ more) r h =
      calls-IsOwned more (unregister name r) (pop-IsOwned (λ a. a.name) name r h)

  -- After any calls of `register_agent` and `unregister_agent`, `find` with a capability and a tag
  -- answers, in some order, with the cards of the registered agents that have both, each once,
  -- in whatever order the intersection of the two sets of names is run through.
  pub find-calls :
      (order : List String → List String) (permutes : (ns : List String) → Perm (order ns) ns)
      (capability tag : String) (history : List (AgentCall S))
      → Perm (find order (some capability) (some tag) (calls history [])) (
          map
            (λ a. a.card)
            (keep
              (λ a. has_capability capability a.card && has_tag tag a.card)
              (values (calls history []))))
  find-calls order permutes capability tag history =
      find_both-Perm order permutes capability tag (calls history [])
        (IsOwned-NodupKeys (λ a. a.name) (calls history []) (calls-IsOwned history [] (tt, tt)))
