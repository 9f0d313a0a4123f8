-- ===== src/Trajectory/Ops.antt =====
-- The recording calls of src/primal_ai/trajectory/_core.py as data, and the steps that they record.
use primal_core.Base.{◌≡◌, refl, ◌∙◌, sym, String, List, [], ◌∷◌, ◌++◌, map, arith}
use mathlib.Core.List.{append_assoc, append-nil}
use primal_core.Base.Value.{Value, Fields, Items, str, field, end, dict, list}
use primal_core.Trajectory.Steps.{Step, Stamp, new_step}
use primal_core.Trajectory.{
  Trajectory, ExcInfo, add_step, record_input, record_output, record_tool_call, record_tool_result,
  record_llm_call, record_llm_result, record_error, start_step_span, end_step_span,
}

-- A call of the recorder inside the block
pub data Op : Type 0 where
  input : Stamp → Fields → Op
  output : Stamp → Fields → Op
  tool_call : Stamp → String → Fields → Op
  tool_result : Stamp → String → Value → Value → Value → Op
  llm_call : Stamp → String → Items → Op
  llm_result : Stamp → String → Value → Value → Value → Value → Op
  error : Stamp → ExcInfo → Op
  add : Step → Op

unfoldable pub perform : Op → Trajectory → Trajectory
unfolding add_step record_input record_output record_tool_call record_tool_result record_llm_call
    record_llm_result record_error
perform (input w fs) t = record_input w fs t
perform (output w fs) t = record_output w fs t
perform (tool_call w tool args) t = record_tool_call w tool args t
perform (tool_result w id result cost latency) t = record_tool_result w id result cost latency t
perform (llm_call w model messages) t = record_llm_call w model messages t
perform (llm_result w id response cost tokens latency) t =
    record_llm_result w id response cost tokens latency t
perform (error w e) t = record_error w e t
perform (add s) t = add_step s t

unfoldable pub perform_all : List Op → Trajectory → Trajectory
unfolding perform
perform_all [] t = t
perform_all (o ∷ ops) t = perform_all ops (perform o t)

-- The step that a call records
abbrev pub error_step : Stamp → ExcInfo → Step
error_step w e = new_step w "ERROR" (
    field "type" (str e.type_name)
      (field "message" (str e.message) (field "traceback" (str e.traceback) end)))

abbrev pub step_of : Op → Step
step_of (input w fs) = new_step w "INPUT" fs
step_of (output w fs) = new_step w "OUTPUT" fs
step_of (tool_call w tool args) =
    new_step w "TOOL_CALL" (field "tool_name" (str tool) (field "args" (dict args) end))
step_of (tool_result w id result cost latency) =
    record (new_step w "TOOL_RESULT" (field "result" result end)) {
      cost = cost;
      latency_ms = latency;
      parent_step_id = str id;
    }
step_of (llm_call w model messages) =
    new_step w "LLM_CALL" (field "model" (str model) (field "messages" (list messages) end))
step_of (llm_result w id response cost tokens latency) =
    record (new_step w "LLM_RESULT" (field "response" response (field "tokens" tokens end))) {
      cost = cost;
      latency_ms = latency;
      parent_step_id = str id;
    }
step_of (error w e) = error_step w e
step_of (add s) = s

-- The fields that no recording call touches
abbrev pub Kept : Trajectory → Trajectory → Type 0
Kept t t' =
    (t'.trajectory_id ≡ t.trajectory_id) × (t'.context_token ≡ t.context_token) × (t'.otel ≡ t.otel)

perform-steps :
    (o : Op) (t : Trajectory)
    → ((perform o t).steps ≡ t.steps ++ (step_of o ∷ [])) × Kept t (perform o t)
unfolding perform end_step_span start_step_span
perform-steps (input w fs) t = ground arith
perform-steps (output w fs) t = ground arith
perform-steps (tool_call w tool args) t = ground arith
perform-steps (tool_result w id result cost latency) t = ground arith
perform-steps (llm_call w model messages) t = ground arith
perform-steps (llm_result w id response cost tokens latency) t = ground arith
perform-steps (error w e) t = ground arith
perform-steps (add s) t = ground arith

pub perform_all-steps :
    (ops : List Op) (t : Trajectory)
    → ((perform_all ops t).steps ≡ t.steps ++ map step_of ops) × Kept t (perform_all ops t)
unfolding perform_all
perform_all-steps [] t = (sym (append-nil t.steps), (refl, refl, refl))
perform_all-steps (o ∷ ops) t =
    let (s, (i, c, k)) = perform-steps o t in
    let (s', (i', c', k')) = perform_all-steps ops (perform o t) in
    (s' ∙ rw (s, append_assoc) refl, (i' ∙ i, c' ∙ c, k' ∙ k))
