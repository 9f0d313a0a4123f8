-- ===== src/Harness/Health.antt =====
-- src/primal_ai/harness/health.py. A check is the caller's code on a state `S`; its call also says
-- how many milliseconds it took, in millionths. `wall` is `time.time()` and `trace` the text of
-- `traceback.format_exc()`.
pub mod Overall
use primal_core.Base.{
  ℕ, String, ◌<>◌, Bool, true, false, Option, none, some, List, [], ◌∷◌, ◌++◌, Outcome, returned,
  raised, violation, exception, base_exception, ◌>>=◌, str_eq, if◌then◌else◌, ltb,
}
use primal_core.Base.Dict.{Dict, get, put, pop, values}
use primal_core.Base.Int.{ℤ}
use primal_core.Base.Value.{Value, null, dict, str, float, Fields, field, end}
use primal_core.Base.Python.{Python, either_or, value_at, item_at, to_float, to_dict_value}
use primal_core.Guardian.Policy.{and_then}

pub data HealthStatus : Type 0 where
  healthy degraded unhealthy unknown : HealthStatus

-- `_STATUS_ORDER`
abbrev pub status_order : HealthStatus → ℕ
status_order unhealthy = 3
status_order degraded = 2
status_order unknown = 1
status_order healthy = 0

unfoldable pub status_value : HealthStatus → String
status_value healthy = "HEALTHY"
status_value degraded = "DEGRADED"
status_value unhealthy = "UNHEALTHY"
status_value unknown = "UNKNOWN"

-- `HealthStatus(value)`
unfoldable pub status_of : Value → Outcome HealthStatus
status_of (str s) =
    if str_eq s "HEALTHY"
    then returned healthy
    else if str_eq s "DEGRADED"
    then returned degraded
    else if str_eq s "UNHEALTHY"
    then returned unhealthy
    else if str_eq s "UNKNOWN"
    then returned unknown
    else raised (exception "ValueError" s)
status_of _ = raised (exception "ValueError" "not a HealthStatus")

pub record HealthCheck : Type 0 where
  pub name : String
  pub status : HealthStatus
  pub reason : Value
  pub details : Fields
  pub checked_at : ℤ
  pub latency_ms : Value

unfoldable pub to_dict : HealthCheck → Fields
unfolding status_value
to_dict c = field "name" (str c.name) (
    field "status" (str (status_value c.status)) (
      field "reason" c.reason (
        field "details" (dict c.details)
          (field "checked_at" (float c.checked_at) (field "latency_ms" c.latency_ms end)))))

unfoldable pub from_dict : Python → ℤ → Fields → Outcome HealthCheck
unfolding value_at item_at either_or to_float to_dict_value status_of
from_dict py now payload = do
  name ← item_at "name" payload
  raw ← item_at "status" payload
  status ← status_of raw
  details ← to_dict_value py (either_or (value_at "details" payload) (dict end))
  checked_at ← to_float py (either_or (value_at "checked_at" payload) (float now))
  returned (record {
    name = py.str_of name;
    status = status;
    reason = value_at "reason" payload;
    details = details;
    checked_at = checked_at;
    latency_ms = value_at "latency_ms" payload;
  })

abbrev pub HealthCheckFn : Type 0 → Type 0
HealthCheckFn S = S → (Outcome HealthCheck × ℤ) × S

-- The checks, the callers' state, and the results published on the bus
pub record HealthMonitor (S : Type 0) : Type 0 where
  pub checks : Dict (HealthCheckFn S)
  pub state : S
  pub published : List HealthCheck

-- The verdict on a check that raised
abbrev pub unhealthy_check : String → String → String → String → ℤ → ℤ → HealthCheck
unhealthy_check name cls message trace now latency = record {
  name = name;
  status = unhealthy;
  reason = str (cls <> (": " <> message));
  details = field "traceback" (str trace) end;
  checked_at = now;
  latency_ms = float latency;
}

-- `max(..., key=...)`: the first of the largest
abbrev pub worst_from : HealthCheck → List HealthCheck → HealthCheck
worst_from c [] = c
worst_from c (d ∷ ds) =
    worst_from (if ltb (status_order c.status) (status_order d.status) then d else c) ds

abbrev pub worst_status : List HealthCheck → HealthStatus
worst_status [] = unknown
worst_status (c ∷ cs) = (worst_from c cs).status

module _ {S : Type 0} (wall : S → ℤ) (trace : S → String) where
  -- What `_run_one` makes of what the check did, in the state that it left
  abbrev pub converted : String → Outcome HealthCheck × ℤ → S → Outcome HealthCheck
  converted name (returned c, elapsed) s = returned c
  converted name (raised (violation v), elapsed) s =
      returned (unhealthy_check name "PolicyViolation" v.policy_name (trace s) (wall s) elapsed)
  converted name (raised (exception cls message), elapsed) s =
      returned (unhealthy_check name cls message (trace s) (wall s) elapsed)
  converted name (raised (base_exception cls message), elapsed) s =
      raised (base_exception cls message)

  unfoldable pub run_one : String → HealthCheckFn S → S → Outcome HealthCheck × S
  run_one name check s = let (r, s') = check s in (converted name r s', s')

  -- A check is run and its result is published.
  unfoldable pub run_published :
      String → HealthCheckFn S → HealthMonitor S → Outcome HealthCheck × HealthMonitor S
  unfolding run_one
  run_published name check m =
      let (r, s) = run_one name check m.state in
      and_then (r, record m { state = s })
        λ c m'. (returned c, record m' { published = m'.published ++ (c ∷ []) })

  unfoldable pub run : String → HealthMonitor S → Outcome (Option HealthCheck) × HealthMonitor S
  unfolding get run_published
  run name m = elim (get name m.checks) [
    | none ↦ (returned none, m)
    | some check ↦ and_then (run_published name check m) (λ c m'. (returned (some c), m'))
  ]

  unfoldable pub run_checks :
      Dict (HealthCheckFn S)
      → Dict HealthCheck
      → HealthMonitor S
      → Outcome (Dict HealthCheck) × HealthMonitor S
  unfolding put run_published
  run_checks [] results m = (returned results, m)
  run_checks ((name, check) ∷ checks) results m =
      and_then (run_published name check m) (λ c m'. run_checks checks (put name c results) m')

  unfoldable pub run_all : HealthMonitor S → Outcome (Dict HealthCheck) × HealthMonitor S
  unfolding run_checks
  run_all m = run_checks m.checks [] m

  unfoldable pub overall_status : HealthMonitor S → Outcome HealthStatus × HealthMonitor S
  unfolding run_all values
  overall_status m =
      and_then (run_all m) (λ results m'. (returned (worst_status (values results)), m'))

module _ {S : Type 0} where
  unfoldable pub register_check : String → HealthCheckFn S → HealthMonitor S → HealthMonitor S
  unfolding put
  register_check name check m = record m { checks = put name check m.checks }

  unfoldable pub unregister_check : String → HealthMonitor S → HealthMonitor S
  unfolding pop
  unregister_check name m = record m { checks = pop name m.checks }
