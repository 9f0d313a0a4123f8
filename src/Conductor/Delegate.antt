-- ===== src/Conductor/Delegate.antt =====
-- src/primal_ai/conductor/_core.py. The bus is the list of the events published on it, latest first;
-- the active trajectory the list of the steps added to it, latest first. A worker thread that is
-- not joined in time runs to its end, so its effect on the state is the same; Python cannot stop it.
pub mod Outcomes
pub mod Traces
use primal_core.Base.{
  ℕ, String, Bool, true, false, Option, none, some, List, [], ◌∷◌, keep, map, if◌then◌else◌, ltb,
  str_eq, Outcome, returned, raised, violation, exception, base_exception, is_none, ◌⊎◌, inl, inr,
}
use primal_core.Base.Value.{Value, null}
use primal_core.Base.Dict.{get}
use primal_core.Schema.{Schema, Error, first_error}
use primal_core.Guardian.Policy.{and_then}
use primal_core.Conductor.Card.{
  Capability, AgentCard, Agent, has_capability, DelegationStatus, success, failed, refused, timeout,
  DelegationReason, no_target, no_agent_advertises, input_rejected, agent_raised,
  did_not_return_within, DelegationResult,
}
use primal_core.Conductor.Registry.{AgentRegistry, register, unregister, find_by_capability}

pub data ConductorEvent : Type 0 where
  agent_registered agent_unregistered : String → ConductorEvent
  delegation_started : Option String → String → Option String → String → ConductorEvent
  delegation_completed delegation_failed : DelegationResult → ConductorEvent
  pipeline_started pipeline_step_completed : String → ConductorEvent
  pipeline_failed : String → DelegationResult → ConductorEvent
  pipeline_completed : Value → ConductorEvent

-- The data of an `AGENT_HANDOFF` step, without the duration
pub record Handoff : Type 0 where
  pub from_agent : Option String
  pub to_agent : String
  pub capability : Option String
  pub task : String
  pub status : DelegationStatus

pub record Conductor (S : Type 0) : Type 0 where
  pub agents : AgentRegistry S
  pub events : List ConductorEvent
  pub trajectory : Option (List Handoff)
  pub state : S

-- The first capability of that name
unfoldable pub find_capability : String → List Capability → Option Capability
find_capability name [] = none
find_capability name (c ∷ cs) = if str_eq c.name name then some c else find_capability name cs

-- The input-schema gate of `_resolve_target`: the error that refuses the input
unfoldable pub schema_gate : AgentCard → String → Value → Option Error
schema_gate card capability input = elim (find_capability capability card.capabilities) [
  | none ↦ none
  | some c ↦ elim c.input_schema [ none ↦ none | some s ↦ first_error s input ]
]

abbrev pub handoff_of : DelegationResult → Handoff
handoff_of r = record {
  from_agent = r.from_agent;
  to_agent = r.to_agent;
  capability = r.capability;
  task = r.task;
  status = r.status;
}

-- `_publish_result`'s event
abbrev pub result_event : DelegationResult → ConductorEvent
result_event r = elim r.status [ success ↦ delegation_completed r | _ ↦ delegation_failed r ]

-- What `_invoke_target` makes of an agent that ran in the calling thread; of a `PolicyViolation` the
-- message keeps the policy's name.
abbrev pub direct : Outcome Value → Outcome (DelegationStatus × Value × Option DelegationReason)
direct (returned v) = returned (success, v, none)
direct (raised (violation v)) =
    returned (failed, null, some (agent_raised "PolicyViolation" v.policy_name))
direct (raised (exception cls message)) = returned (failed, null, some (agent_raised cls message))
direct (raised (base_exception cls message)) = raised (base_exception cls message)

-- ... and of one that ran in a worker thread and was joined: what `runner` left in `outcome`
abbrev pub joined : Outcome Value → DelegationStatus × Value × Option DelegationReason
joined (returned v) = (success, v, none)
joined (raised (violation v)) = (failed, null, some (agent_raised "PolicyViolation" v.policy_name))
joined (raised (exception cls message)) = (failed, null, some (agent_raised cls message))
joined (raised (base_exception cls message)) = (failed, null, none)

-- Why there is no candidate
abbrev pub no_candidate : Option String → DelegationReason
no_candidate none = no_target
no_candidate (some name) = no_agent_advertises name

module _ {S : Type 0} where
  unfoldable pub publish : ConductorEvent → Conductor S → Conductor S
  publish e c = record c { events = e ∷ c.events }

  -- `_record_handoff`
  unfoldable pub record_handoff : DelegationResult → Conductor S → Conductor S
  record_handoff r c = elim c.trajectory [
    | none ↦ c
    | some steps ↦ record c { trajectory = some (handoff_of r ∷ steps) }
  ]

  unfoldable pub register_agent : Agent S → Conductor S → Outcome (Unit {0}) × Conductor S
  register_agent agent c =
      let (o, agents) = register agent c.agents in
      elim o [
        | returned _ ↦
            (returned tt, publish (agent_registered agent.name) (record c { agents = agents }))
        | raised e ↦ (raised e, record c { agents = agents })
      ]

  unfoldable pub unregister_agent : String → Conductor S → Conductor S
  unregister_agent name c =
      let rest = record c { agents = unregister name c.agents } in
      if is_none (get name c.agents) then rest else publish (agent_unregistered name) rest

  -- `_resolve_target`, its two parts: the candidates, or why there are none ...
  unfoldable pub candidates :
      Option (List (Agent S)) → Option String → AgentRegistry S → List (Agent S)
  candidates (some (a ∷ more)) none r = a ∷ more
  candidates (some (a ∷ more)) (some name) r =
      elim (keep (λ b. has_capability name b.card) (a ∷ more)) [ [] ↦ a ∷ more | b ∷ bs ↦ b ∷ bs ]
  candidates (some []) (some name) r = find_by_capability name r
  candidates none (some name) r = find_by_capability name r
  candidates (some []) none r = []
  candidates none none r = []

  -- ... and the gate on the first of them
  unfoldable pub gate : List (Agent S) → Option String → Value → Agent S ⊎ DelegationReason
  gate [] capability input = inr (no_candidate capability)
  gate (target ∷ more) none input = inl target
  gate (target ∷ more) (some name) input = elim (schema_gate target.card name input) [
    | none ↦ inl target
    | some err ↦ inr (input_rejected err)
  ]

  unfoldable pub resolve_target :
      Option (List (Agent S)) → Option String → Value → AgentRegistry S → Agent S ⊎ DelegationReason
  resolve_target agents capability input r = gate (candidates agents capability r) capability input

  -- `_invoke_target`
  unfoldable pub invoke_target :
      Agent S
      → Value
      → Option ℕ
      → S
      → Outcome (DelegationStatus × Value × Option DelegationReason) × S
  invoke_target target input none s = let (o, s') = target.invoke input s in (direct o.0, s')
  invoke_target target input (some budget) s =
      let (o, s') = target.invoke input s in
      (
        returned (
            if ltb budget o.1
            then (timeout, null, some (did_not_return_within budget))
            else joined o.0),
        s',
      )

  -- `_refused`
  unfoldable pub refuse :
      String
      → Value
      → Option String
      → Option String
      → DelegationReason
      → Conductor S
      → DelegationResult × Conductor S
  refuse task input capability from_agent reason c =
      let r : DelegationResult = record {
        from_agent = from_agent;
        to_agent = "";
        capability = capability;
        task = task;
        input = input;
        output = null;
        status = refused;
        reason = some reason;
      } in
      (r, publish (delegation_failed r) (record_handoff r c))

  -- The end of `delegate`, after `_invoke_target`
  unfoldable pub finish : DelegationResult → Conductor S → DelegationResult × Conductor S
  finish r c = (r, publish (result_event r) (record_handoff r c))

  -- `Conductor.delegate`
  unfoldable pub delegate :
      String
      → Option (List (Agent S))
      → Option String
      → Value
      → Option ℕ
      → Option String
      → Conductor S
      → Outcome DelegationResult × Conductor S
  delegate task agents capability input budget from_agent c =
      elim (resolve_target agents capability input c.agents) [
        | inr reason ↦
            let (r, c') = refuse task input capability from_agent reason c in (returned r, c')
        | inl target ↦
            let c1 = publish (delegation_started from_agent target.name capability task) c in
            let (o, s) = invoke_target target input budget c1.state in
            and_then (o, record c1 { state = s })
              (λ told c2.
                let (r, c3) =
                  finish
                    (record {
                      from_agent = from_agent;
                      to_agent = target.name;
                      capability = capability;
                      task = task;
                      input = input;
                      output = told.1;
                      status = told.0;
                      reason = told.2;
                    })
                    c2 in
                (returned r, c3))
      ]
