-- ===== src/Conductor/Pipeline.antt =====
-- src/primal_ai/conductor/_pipeline.py. A pipeline's result is a dict: one entry for each step that
-- succeeded, then `_final`, or `_failed` and `_final`.
pub mod Halting
use primal_core.Base.{
  ℕ, String, Bool, true, false, Option, none, some, List, [], ◌∷◌, Outcome, returned, raised,
}
use primal_core.Base.Value.{Value, null, str}
use primal_core.Base.Dict.{Dict, get, put}
use primal_core.Guardian.Policy.{and_then}
use primal_core.Conductor.Card.{Agent, DelegationStatus, success, DelegationResult}
use primal_core.Conductor.Delegate.{
  Conductor, publish, delegate, pipeline_started, pipeline_step_completed, pipeline_failed,
  pipeline_completed,
}

-- `task_name` is the text `f"pipeline:{self.name}/{step.name}"`, formatted when the step is declared.
pub record PipelineStep (S : Type 0) : Type 0 where
  pub name : String
  pub agent_name : Option String
  pub capability : Option String
  pub input_transform : Option (Value → S → Outcome Value × S)
  pub task_name : String

unfoldable pub is_success : DelegationStatus → Bool
is_success success = true
is_success _ = false

module _ {S : Type 0} where
  -- `step.input_transform(current_input)`, or the input as it is
  unfoldable pub transformed : PipelineStep S → Value → Conductor S → Outcome Value × Conductor S
  transformed step input c = elim step.input_transform [
    | none ↦ (returned input, c)
    | some f ↦ let (o, s) = f input c.state in (o, record c { state = s })
  ]

  -- `agents_arg`
  unfoldable pub named_agents : PipelineStep S → Conductor S → Option (List (Agent S))
  named_agents step c = elim step.agent_name [
    | none ↦ none
    | some n ↦ elim (get n c.agents) [ none ↦ none | some agent ↦ some (agent ∷ []) ]
  ]

  -- The delegation of one step
  unfoldable pub delegate_step :
      PipelineStep S → Value → Conductor S → Outcome DelegationResult × Conductor S
  delegate_step step input c = and_then (transformed step input c) (λ target_input c1.
      delegate step.task_name (named_agents step c1) step.capability target_input none none c1)

  -- What `run` returns when a step fails, and when none does
  abbrev pub fail_at :
      PipelineStep S
      → DelegationResult
      → Dict Value
      → Conductor S
      → Outcome (Dict Value) × Conductor S
  fail_at step r outputs c = (
    returned (put "_final" null (put "_failed" (str step.name) outputs)),
    publish (pipeline_failed step.name r) c,
  )

  -- The loop of `run`, with `outputs` and `current_input`
  unfoldable pub run_steps :
      List (PipelineStep S) → Value → Dict Value → Conductor S → Outcome (Dict Value) × Conductor S
  run_steps [] input outputs c =
      (returned (put "_final" input outputs), publish (pipeline_completed input) c)
  run_steps (step ∷ steps) input outputs c = and_then (delegate_step step input c) (λ r c1.
      elim (is_success r.status) [
        | true ↦
            run_steps steps r.output (put step.name r.output outputs)
              (publish (pipeline_step_completed step.name) c1)
        | false ↦ fail_at step r outputs c1
      ])

  -- `Pipeline.run`
  unfoldable pub run :
      String → List (PipelineStep S) → Value → Conductor S → Outcome (Dict Value) × Conductor S
  run name steps input c = run_steps steps input [] (publish (pipeline_started name) c)
