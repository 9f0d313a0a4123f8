-- ===== src/Trajectory/Serial.antt =====
-- src/primal_ai/trajectory/_core.py: `to_dict`, `from_dict`, `save` and `load`, over any store.
use primal_core.Base.{
  ℕ, suc, String, ◌<>◌, Option, none, some, List, [], ◌∷◌, Outcome, returned, raised, exception,
  ◌>>=◌, str_eq, if◌then◌else◌,
}
use primal_core.Base.Int.{ℤ}
use primal_core.Base.Value.{
  Value, null, float, str, list, tuple, dict, Items, nil, cons, Fields, field, end,
}
use primal_core.Base.Python.{Python, either_or, value_at, item_at, as_fields, to_float}
use primal_core.Storage.{Storage}
use primal_core.Trajectory.Steps as Steps
use primal_core.Trajectory.Steps.{Step, Stamp}
use primal_core.Trajectory.{
  Trajectory, TrajectoryStatus, running, success, failed, escalated, init, add_step,
}

-- `add_step` of a dict
unfoldable pub add_step_dict : Python → Stamp → Fields → Trajectory → Outcome Trajectory
unfolding Steps.from_dict add_step
add_step_dict py w payload t = Steps.from_dict py w payload >>= λ s. returned (add_step s t)

-- `status.value`, and `TrajectoryStatus(value)`
unfoldable pub value_of : TrajectoryStatus → String
value_of running = "RUNNING"
value_of success = "SUCCESS"
value_of failed = "FAILED"
value_of escalated = "ESCALATED"

abbrev pub status_named : String → Outcome TrajectoryStatus
status_named s =
    if str_eq s "RUNNING"
    then returned running
    else if str_eq s "SUCCESS"
    then returned success
    else if str_eq s "FAILED"
    then returned failed
    else if str_eq s "ESCALATED"
    then returned escalated
    else raised (exception "ValueError" s)

-- The two lines on `payload.get("status")`; a fresh trajectory is RUNNING.
unfoldable pub status_of : Value → Outcome TrajectoryStatus
status_of null = returned running
status_of (str s) = status_named s
status_of _ = raised (exception "ValueError" "not a TrajectoryStatus")

abbrev pub of_time : Option ℤ → Value
of_time none = null
of_time (some x) = float x

-- `[s.to_dict() for s in snapshot]`
unfoldable pub step_items : List Step → Items
unfolding Steps.to_dict
step_items [] = nil
step_items (s ∷ steps) = cons (dict (Steps.to_dict s)) (step_items steps)

unfoldable pub to_dict : Trajectory → Fields
unfolding step_items value_of
to_dict t = field "trajectory_id" (str t.trajectory_id) (
    field "agent_id" t.agent_id (
      field "parent_trajectory_id" t.parent_trajectory_id (
        field "status" (str (value_of t.status)) (
          field "started_at" (of_time t.started_at) (
            field "ended_at" (of_time t.ended_at)
              (field "steps" (list (step_items t.steps)) end))))))

-- `payload.get("steps") or []`; iterating over another value gives no dict of a step.
abbrev pub items_of : Value → Outcome Items
items_of (list xs) = returned xs
items_of (tuple xs) = returned xs
items_of _ = raised (exception "TypeError" "not a list of steps")

module _ (py : Python) where
  -- `float(raw) if raw is not None else None`
  unfoldable pub time_of : Value → Outcome (Option ℤ)
  unfolding to_float
  time_of null = returned none
  time_of v = to_float py v >>= λ x. returned (some x)

  -- `[Step.from_dict(s) for s in ...]`; `stamps n` is what a step built after n others takes.
  unfoldable pub steps_from : (ℕ → Stamp) → ℕ → Items → Outcome (List Step)
  unfolding Steps.from_dict
  steps_from stamps n nil = returned []
  steps_from stamps n (cons v vs) = do
    payload ← as_fields v
    s ← Steps.from_dict py (stamps n) payload
    steps ← steps_from stamps (suc n) vs
    returned (s ∷ steps)

  unfoldable pub from_dict : String → (ℕ → Stamp) → Fields → Outcome Trajectory
  unfolding value_at item_at either_or time_of status_of steps_from init
  from_dict fresh stamps payload = do
    id ← item_at "trajectory_id" payload
    status ← status_of (value_at "status" payload)
    started ← time_of (value_at "started_at" payload)
    ended ← time_of (value_at "ended_at" payload)
    items ← items_of (either_or (value_at "steps" payload) (list nil))
    steps ← steps_from stamps 0 items
    returned
        (record (init fresh (some (py.str_of id)) (value_at "agent_id" payload)
          (value_at "parent_trajectory_id" payload)) {
            status = status;
            started_at = started;
            ended_at = ended;
            steps = steps;
          })

abbrev pub trajectory_key : String → String
trajectory_key id = "trajectory:" <> id

-- What `load` makes of what the store gives; a trajectory that is not there raises `KeyError`.
abbrev pub loaded : Python → String → (ℕ → Stamp) → String → Value → Outcome Trajectory
unfolding from_dict
loaded py fresh stamps id null = raised (exception "KeyError" id)
loaded py fresh stamps id payload = as_fields payload >>= from_dict py fresh stamps

module _ (T : Storage) where
  -- On a store that takes the trajectory
  unfoldable pub save : Trajectory → T.State → T.State
  unfolding to_dict
  save t s = T.put (trajectory_key t.trajectory_id) (dict (to_dict t)) s

  unfoldable pub load : Python → String → (ℕ → Stamp) → String → T.State → Outcome Trajectory
  unfolding from_dict
  load py fresh stamps id s = loaded py fresh stamps id (T.get (trajectory_key id) s)
