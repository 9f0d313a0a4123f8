-- ===== src/Trajectory/Steps.antt =====
-- src/primal_ai/trajectory/_step.py. Times are floats, in millionths of a second; what `cost`,
-- `latency_ms` and `parent_step_id` hold is not checked by the code.
use primal_core.Base.{String, Outcome, returned, ◌>>=◌}
use primal_core.Base.Int.{ℤ}
use primal_core.Base.Value.{Value, null, dict, str, float, Fields, field, end}
use primal_core.Base.Python.{Python, either_or, value_at, item_at, to_float, to_dict_value}

pub record Step : Type 0 where
  pub kind : String
  pub data_ : Fields
  pub cost : Value
  pub latency_ms : Value
  pub parent_step_id : Value
  pub step_id : String
  pub timestamp : ℤ
  pub monotonic : ℤ

-- What `_new_step_id()`, `time.time()` and `time.monotonic()` answer when a step is built
pub record Stamp : Type 0 where
  pub step_id : String
  pub timestamp : ℤ
  pub monotonic : ℤ

-- `Step(kind=..., data=...)` with its defaults
abbrev pub new_step : Stamp → String → Fields → Step
new_step w kind fs = record {
  kind = kind;
  data_ = fs;
  cost = null;
  latency_ms = null;
  parent_step_id = null;
  step_id = w.step_id;
  timestamp = w.timestamp;
  monotonic = w.monotonic;
}

unfoldable pub to_dict : Step → Fields
to_dict s = field "step_id" (str s.step_id) (
    field "kind" (str s.kind) (
      field "data" (dict s.data_) (
        field "cost" s.cost (
          field "latency_ms" s.latency_ms (
            field "parent_step_id" s.parent_step_id (
              field "timestamp" (float s.timestamp)
                (field "monotonic" (float s.monotonic) end)))))))

unfoldable pub from_dict : Python → Stamp → Fields → Outcome Step
unfolding value_at item_at either_or to_float to_dict_value
from_dict py w payload = do
  kind ← item_at "kind" payload
  fields ← to_dict_value py (either_or (value_at "data" payload) (dict end))
  timestamp ← to_float py (either_or (value_at "timestamp" payload) (float w.timestamp))
  monotonic ← to_float py (either_or (value_at "monotonic" payload) (float w.monotonic))
  returned (record {
    kind = py.str_of kind;
    data_ = fields;
    cost = value_at "cost" payload;
    latency_ms = value_at "latency_ms" payload;
    parent_step_id = value_at "parent_step_id" payload;
    step_id = py.str_of (either_or (value_at "step_id" payload) (str w.step_id));
    timestamp = timestamp;
    monotonic = monotonic;
  })
