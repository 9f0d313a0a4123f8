-- ===== src/Conductor/Tests.antt =====
-- Runs of the conductor model (src/primal_ai/conductor) on small agents.
use primal_core.Base.{
  ℕ, suc, String, ◌≡◌, refl, some, none, [], ◌∷◌, inl, Option, returned, raised, exception,
}
use primal_core.Base.Dict.{Dict, get, put, values}
use primal_core.Base.Value.{Value, null, str}
use primal_core.Schema
use primal_core.Schema.{schema, string_text, none_left}
use primal_core.Conductor.Card.{
  Agent, Capability, DelegationReason, DelegationResult, DelegationStatus, success, failed,
  has_capability, agent_raised,
}
use primal_core.Conductor.Registry.{find_by_capability}
use primal_core.Conductor.Delegate.{
  Conductor, publish, record_handoff, candidates, gate, resolve_target, schema_gate,
  find_capability, invoke_target, finish, delegate, pipeline_started, pipeline_failed,
  pipeline_step_completed,
}
use primal_core.Conductor.Delegate.Outcomes.{success_from_target}
use primal_core.Conductor.Delegate.Traces.{Leaves, delegate-Leaves}
use primal_core.Conductor.Pipeline.{
  PipelineStep, run, transformed, named_agents, delegate_step, is_success,
}
use primal_core.Conductor.Pipeline.Halting.{Passed, passed_none, passed_step, failure_halts}

abbrev summarize : Capability
summarize = record {
  name = "summarize";
  input_schema = some (schema (some string_text) [] none_left);
  tags = [];
}

abbrev echo : Agent ℕ
echo = record {
  name = "echo";
  card = record { name = "echo"; capabilities = summarize ∷ [] };
  invoke = λ i s. ((returned i, 5), suc s);
}

abbrev down : Agent ℕ
down = record {
  name = "down";
  card = record { name = "down"; capabilities = [] };
  invoke = λ i s. ((raised (exception "RuntimeError" "down"), 5), s);
}

abbrev conductor : Conductor ℕ
conductor = record {
  agents = ("echo", echo) ∷ ("down", down) ∷ [];
  events = [];
  trajectory = some [];
  state = 0;
}

abbrev echoed : DelegationResult
echoed = record {
  from_agent = none;
  to_agent = "echo";
  capability = some "summarize";
  task = "t";
  input = str "hi";
  output = str "hi";
  status = success;
  reason = none;
}

abbrev after_echo : Conductor ℕ
after_echo = (delegate "t" none (some "summarize") (str "hi") none none conductor).1

success_from_target_example :
    (target : Agent ℕ) × (resolve_target none (some "summarize") (str "hi") conductor.agents
      ≡ inl target)
    × ("echo" ≡ target.name)
    × ((target.invoke (str "hi") 0).0.0 ≡ returned (str "hi"))
unfolding delegate resolve_target candidates gate schema_gate find_capability find_by_capability
    values has_capability invoke_target finish publish record_handoff Schema.first_error Schema.walk
    Schema.type_error Schema.is_known_type Schema.is_instance Schema.is_bool
success_from_target_example =
    success_from_target "t" none (some "summarize") (str "hi") none none conductor echoed after_echo
      refl refl

delegate-Leaves_example : Leaves echoed conductor after_echo
unfolding delegate resolve_target candidates gate schema_gate find_capability find_by_capability
    values has_capability invoke_target finish publish record_handoff Schema.first_error Schema.walk
    Schema.type_error Schema.is_known_type Schema.is_instance Schema.is_bool
delegate-Leaves_example =
    delegate-Leaves "t" none (some "summarize") (str "hi") none none conductor echoed after_echo
      refl

abbrev step_to : String → PipelineStep ℕ
step_to agent = record {
  name = agent;
  agent_name = some agent;
  capability = none;
  input_transform = none;
  task_name = "p";
}

abbrev result_of : String → Value → DelegationStatus → Option DelegationReason → DelegationResult
result_of agent output status reason = record {
  from_agent = none;
  to_agent = agent;
  capability = none;
  task = "p";
  input = str "hi";
  output = output;
  status = status;
  reason = reason;
}

abbrev begun : Conductor ℕ
begun = publish (pipeline_started "p") conductor

abbrev echo_ran : Conductor ℕ
echo_ran = (delegate_step (step_to "echo") (str "hi") begun).1

abbrev echo_done : Conductor ℕ
echo_done = publish (pipeline_step_completed "echo") echo_ran

abbrev outputs : Dict Value
outputs = put "echo" (str "hi") []

echo_passes : Passed (step_to "echo" ∷ []) (str "hi") [] begun (str "hi") outputs echo_done
unfolding delegate_step transformed named_agents get delegate resolve_target candidates gate
    invoke_target finish publish record_handoff is_success
echo_passes =
    passed_step (step_to "echo") [] (str "hi") [] begun (result_of "echo" (str "hi") success none)
      echo_ran (str "hi") outputs echo_done refl refl (passed_none (str "hi") outputs echo_done)

failure_halts_example :
    run "p" (step_to "echo" ∷ step_to "down" ∷ step_to "echo" ∷ []) (str "hi") conductor ≡ (
      returned (put "_final" null (put "_failed" (str "down") outputs)),
      publish
          (pipeline_failed "down"
            (result_of "down" null failed (some (agent_raised "RuntimeError" "down"))))
          (delegate_step (step_to "down") (str "hi") echo_done).1,
    )
unfolding delegate_step transformed named_agents get delegate resolve_target candidates gate
    invoke_target finish publish record_handoff is_success
failure_halts_example =
    failure_halts "p" (step_to "echo" ∷ []) (step_to "echo" ∷ []) (step_to "down") (str "hi")
      conductor (str "hi") outputs echo_done
      (result_of "down" null failed (some (agent_raised "RuntimeError" "down")))
      (delegate_step (step_to "down") (str "hi") echo_done).1 echo_passes refl refl
