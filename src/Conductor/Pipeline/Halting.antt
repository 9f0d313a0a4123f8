-- ===== src/Conductor/Pipeline/Halting.antt =====
-- A pipeline stops at its first failure (src/primal_ai/conductor/_pipeline.py).
use primal_core.Base.{String, ◌≡◌, refl, sym, ap, ◌∙◌, true, false, List, [], ◌∷◌, ◌++◌, returned}
use primal_core.Base.Value.{Value, null, str}
use primal_core.Base.Dict.{Dict, put}
use mathlib.Core.List.{append-nil}
use primal_core.Guardian.Policy.{and_then}
use primal_core.Conductor.Card.{DelegationResult}
use primal_core.Conductor.Delegate.{
  Conductor, publish, pipeline_started, pipeline_step_completed, pipeline_failed,
  pipeline_completed,
}
use primal_core.Conductor.Pipeline.{PipelineStep, delegate_step, run_steps, run, is_success}

module _ {S : Type 0} where
  -- `Passed steps input outputs c input' outputs' c'`: each of the steps was delegated, in order,
  -- and succeeded, its output being the input of the next.
  pub data Passed
      : List (PipelineStep S)
        → Value
        → Dict Value
        → Conductor S
        → Value
        → Dict Value
        → Conductor S
        → Type 0 where
    passed_none : (i : Value) (outs : Dict Value) (c : Conductor S) → Passed [] i outs c i outs c
    passed_step :
        (step : PipelineStep S) (steps : List (PipelineStep S)) (i : Value) (outs : Dict Value)
        (c : Conductor S) (r : DelegationResult) (c1 : Conductor S) (i' : Value)
        (outs' : Dict Value) (c' : Conductor S)
        → delegate_step step i c ≡ (returned r, c1)
        → is_success r.status ≡ true
        → Passed steps r.output
            (put step.name r.output outs)
            (publish (pipeline_step_completed step.name) c1)
            i'
            outs'
            c'
        → Passed (step ∷ steps) i outs c i' outs' c'

  run_steps_resume :
      (steps rest : List (PipelineStep S)) (i : Value) (outs : Dict Value) (c : Conductor S)
      (i' : Value) (outs' : Dict Value) (c' : Conductor S)
      → Passed steps i outs c i' outs' c'
      → run_steps (steps ++ rest) i outs c ≡ run_steps rest i' outs' c'
  unfolding run_steps
  run_steps_resume _ rest _ _ _ _ _ _ (passed_none i outs c) = refl
  run_steps_resume _ rest _ _ _ _ _ _
        (passed_step step steps i outs c r c1 i' outs' c' told ok more) =
      rw (told, and_then, ok) (run_steps_resume steps rest _ _ _ i' outs' c' more)

  -- When the steps before have succeeded and a step fails, `run` stops there: it names the step,
  -- has no final output, although steps may have succeeded, keeps the outputs so far, and no step after it is delegated.
  pub failure_halts :
      (name : String) (steps later : List (PipelineStep S)) (step : PipelineStep S) (i : Value)
      (c : Conductor S) (i' : Value) (outs : Dict Value) (c' : Conductor S) (r : DelegationResult)
      (c1 : Conductor S)
      → Passed steps i [] (publish (pipeline_started name) c) i' outs c'
      → delegate_step step i' c' ≡ (returned r, c1)
      → is_success r.status ≡ false
      → run name (steps ++ step ∷ later) i c ≡ (
        returned (put "_final" null (put "_failed" (str step.name) outs)),
        publish (pipeline_failed step.name r) c1,
      )
  unfolding run run_steps
  failure_halts name steps later step i c i' outs c' r c1 before told bad =
      run_steps_resume steps (step ∷ later) i [] (publish (pipeline_started name) c) i' outs c'
        before
      ∙ rw (told, and_then, bad) refl

  -- When every step succeeds, `run` returns the outputs of the steps with the last one as `_final`,
  -- and publishes the completion.
  pub success_completes :
      (name : String) (steps : List (PipelineStep S)) (i : Value) (c : Conductor S) (i' : Value)
      (outs : Dict Value) (c' : Conductor S)
      → Passed steps i [] (publish (pipeline_started name) c) i' outs c'
      → run name steps i c ≡ (returned (put "_final" i' outs), publish (pipeline_completed i') c')
  unfolding run run_steps
  success_completes name steps i c i' outs c' before =
      ap (λ q. run_steps q i [] (publish (pipeline_started name) c)) (sym (append-nil steps))
      ∙ run_steps_resume steps [] i [] (publish (pipeline_started name) c) i' outs c' before
