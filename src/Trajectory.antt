-- ===== src/Trajectory.antt =====
-- src/primal_ai/trajectory/_core.py and _status.py: the recorder and its `record_*` helpers. The
-- calls that the recorder makes on OpenTelemetry spans are kept in `trace`, in order.
pub mod Steps
pub mod Counts
pub mod Totals
pub mod Serial
pub mod RoundTrip
pub mod Session
pub mod Ops
pub mod Blocks
pub mod Occurrences
pub mod Spans
pub mod Tests
use primal_core.Base.{
  String, Bool, true, false, Option, none, some, List, [], ◌∷◌, ◌++◌, keep, ◌&&◌, ◌||◌, str_eq,
  if◌then◌else◌, get_or,
}
use primal_core.Base.Dict.{Dict, get, put, pop}
use primal_core.Base.Int.{ℤ}
use primal_core.Base.Value.{Value, null, dict, str, Items, list, Fields, field, end}
use primal_core.Trajectory.Steps.{Step, Stamp, new_step}

pub data TrajectoryStatus : Type 0 where
  running success failed escalated : TrajectoryStatus

-- A span is named by the id of its step. `step_started` has the span's name and its attributes.
pub data SpanEvent : Type 0 where
  session_started : String → Value → Value → SpanEvent
  session_attribute : String → Value → SpanEvent
  session_error : String → SpanEvent
  session_ended : SpanEvent
  step_recorded : String → String → SpanEvent
  step_started : String → Fields → String → SpanEvent
  step_attribute : String → String → Value → SpanEvent
  step_ended : String → SpanEvent

-- `otel` says whether the session span is open. A context token holds the trajectory that was
-- active before; a trajectory is named by its id.
pub record Trajectory : Type 0 where
  pub trajectory_id : String
  pub agent_id : Value
  pub parent_trajectory_id : Value
  pub status : TrajectoryStatus
  pub started_at : Option ℤ
  pub ended_at : Option ℤ
  pub monotonic_start : Option ℤ
  pub monotonic_end : Option ℤ
  pub steps : List Step
  pub context_token : Option (Option String)
  pub otel : Bool
  pub open_step_spans : Dict String
  pub trace : List SpanEvent

-- `__init__`; `fresh` is what `uuid.uuid4().hex` answers.
unfoldable pub init : String → Option String → Value → Value → Trajectory
init fresh trajectory_id agent_id parent_trajectory_id = record {
  trajectory_id = let given = get_or trajectory_id "" in if str_eq given "" then fresh else given;
  agent_id = agent_id;
  parent_trajectory_id = parent_trajectory_id;
  status = running;
  started_at = none;
  ended_at = none;
  monotonic_start = none;
  monotonic_end = none;
  steps = [];
  context_token = none;
  otel = false;
  open_step_spans = [];
  trace = [];
}

abbrev pub append : Step → Trajectory → Trajectory
append s t = record t { steps = t.steps ++ (s ∷ []) }

abbrev pub emit : SpanEvent → Trajectory → Trajectory
emit e t = record t { trace = t.trace ++ (e ∷ []) }

-- `step.kind in self._PAIRED_KINDS`
abbrev pub is_paired : String → Bool
is_paired k =
    (str_eq k "TOOL_CALL" || str_eq k "TOOL_RESULT")
    || (str_eq k "LLM_CALL" || str_eq k "LLM_RESULT")

unfoldable pub add_step : Step → Trajectory → Trajectory
add_step s t =
    let t' = append s t in
    if is_paired s.kind
    then t'
    else if t'.otel
    then emit (step_recorded s.kind s.step_id) t'
    else t'

unfoldable pub record_input : Stamp → Fields → Trajectory → Trajectory
unfolding add_step
record_input w fs t = add_step (new_step w "INPUT" fs) t

unfoldable pub record_output : Stamp → Fields → Trajectory → Trajectory
unfolding add_step
record_output w fs t = add_step (new_step w "OUTPUT" fs) t

unfoldable pub start_step_span : String → Fields → String → Trajectory → Trajectory
unfolding put
start_step_span name attrs id t = record t {
  open_step_spans = put id name t.open_step_spans;
  trace = t.trace ++ (step_started name attrs id ∷ []);
}

-- `s.set_attribute(k, v)` for each value that is not `None`
abbrev pub attributes : String → Fields → List SpanEvent
attributes id end = []
attributes id (field k null fs) = attributes id fs
attributes id (field k v fs) = step_attribute id k v ∷ attributes id fs

-- What `end_step_span` does with the entry that it pops
abbrev pub end_entry : Option String → String → Fields → Trajectory → Trajectory
unfolding pop
end_entry none id attrs t = t
end_entry (some name) id attrs t = record t {
  open_step_spans = pop id t.open_step_spans;
  trace = t.trace ++ (attributes id attrs ++ (step_ended id ∷ []));
}

unfoldable pub end_step_span : String → Fields → Trajectory → Trajectory
unfolding get pop
end_step_span id attrs t = end_entry (get id t.open_step_spans) id attrs t

-- The part that `record_tool_call` and `record_llm_call` share
abbrev pub record_call : String → Fields → Step → Trajectory → Trajectory
unfolding start_step_span
record_call name attrs s t = append s (if t.otel then start_step_span name attrs s.step_id t else t)

abbrev pub result_attributes : Step → Fields
result_attributes s =
    field "primal.trajectory.cost" s.cost (field "primal.trajectory.latency_ms" s.latency_ms end)

-- The part that `record_tool_result` and `record_llm_result` share
abbrev pub record_result : String → Step → Trajectory → Trajectory
unfolding end_step_span
record_result call_id s t =
    append s (if t.otel then end_step_span call_id (result_attributes s) t else t)

unfoldable pub record_tool_call : Stamp → String → Fields → Trajectory → Trajectory
unfolding start_step_span
record_tool_call w tool_name args t =
    record_call "primal.trajectory.tool_call"
      (field "primal.trajectory.tool_name" (str tool_name)
        (field "primal.trajectory.step.id" (str w.step_id) end))
      (new_step w "TOOL_CALL" (field "tool_name" (str tool_name) (field "args" (dict args) end))) t

unfoldable pub record_tool_result : Stamp → String → Value → Value → Value → Trajectory → Trajectory
unfolding end_step_span
record_tool_result w call_id result cost latency_ms t =
    record_result call_id
      (record (new_step w "TOOL_RESULT" (field "result" result end)) {
        cost = cost;
        latency_ms = latency_ms;
        parent_step_id = str call_id;
      })
      t

unfoldable pub record_llm_call : Stamp → String → Items → Trajectory → Trajectory
unfolding start_step_span
record_llm_call w model messages t =
    record_call "primal.trajectory.llm_call"
      (field "primal.trajectory.model" (str model)
        (field "primal.trajectory.step.id" (str w.step_id) end))
      (new_step w "LLM_CALL" (field "model" (str model) (field "messages" (list messages) end))) t

unfoldable pub record_llm_result :
    Stamp → String → Value → Value → Value → Value → Trajectory → Trajectory
unfolding end_step_span
record_llm_result w call_id response cost tokens latency_ms t =
    record_result call_id
      (record (new_step w "LLM_RESULT" (field "response" response (field "tokens" tokens end))) {
        cost = cost;
        latency_ms = latency_ms;
        parent_step_id = str call_id;
      })
      t

-- What the code reads of an exception: its class, its message and its formatted traceback
pub record ExcInfo : Type 0 where
  pub type_name : String
  pub message : String
  pub traceback : String

unfoldable pub record_error : Stamp → ExcInfo → Trajectory → Trajectory
unfolding add_step
record_error w e t =
    add_step
      (new_step w "ERROR" (
        field "type" (str e.type_name)
          (field "message" (str e.message) (field "traceback" (str e.traceback) end))))
      t

-- The steps that `replay` yields
unfoldable pub replay : Trajectory → List Step
replay t = t.steps

-- The two filters of `find_steps` on one step
abbrev pub matches : Option String → Option (Step → Bool) → Step → Bool
matches kind predicate s =
    (elim kind [ none ↦ true | some k ↦ str_eq s.kind k ])
    && (elim predicate [ none ↦ true | some p ↦ p s ])

unfoldable pub find_steps : Option String → Option (Step → Bool) → Trajectory → List Step
find_steps kind predicate t = keep (matches kind predicate) t.steps
