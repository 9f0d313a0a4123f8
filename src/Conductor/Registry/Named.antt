-- ===== src/Conductor/Registry/Named.antt =====
-- The invariant of src/primal_ai/conductor/_registry.py: an agent is stored under its own name, so a
-- lookup by name finds no other agent.
use primal_core.Base.{String, ◌≡◌, none, some, arith, eq_iff, Option-cases, inl, inr}
use primal_core.Base.Dict.{get, get-put, get-pop}
use primal_core.Conductor.Card.{Agent}
use primal_core.Conductor.Registry.{AgentRegistry, register, unregister}

module _ {S : Type 0} where
  pub record IsNamed (r : AgentRegistry S) : Type 0 where
    pub named : (n : String) (a : Agent S) → get n r ≡ some a → a.name ≡ n

  -- Registering an agent keeps every agent under its own name, whether the name is free or taken,
  -- in which case nothing changes.
  pub register-IsNamed :
      (agent : Agent S) (r : AgentRegistry S) → IsNamed r → IsNamed (register agent r).1
  unfolding register
  register-IsNamed agent r v = elim (Option-cases (get agent.name r)) [
    | inl free ↦
        rw (free, register)
          (record {
            named = λ n a e.
                ground (arith, e, get-put agent.name n agent r, eq_iff agent.name n, v.named n a);
          })
    | inr (other, taken) ↦ rw (taken, register) v
  ]

  -- Unregistering a name keeps every other agent under its own name, and the name finds no agent.
  pub unregister-IsNamed :
      (name : String) (r : AgentRegistry S)
      → IsNamed r
      → IsNamed (unregister name r) × (get name (unregister name r) ≡ none)
  unfolding unregister
  unregister-IsNamed name r v = (
    record { named = λ n a e. ground (arith, e, get-pop name n r, eq_iff name n, v.named n a) },
    ground (arith, get-pop name name r, eq_iff name name),
  )
