-- ===== src/Trajectory/Counts.antt =====
-- src/primal_ai/trajectory/_core.py: `summary`, and what its totals are.
use primal_core.Base.{
  ℕ, ◌+◌, ◌≡◌, String, false, Option, none, some, List, [], ◌∷◌, length, keep, Outcome, returned,
  raised, exception, ◌>>=◌, get_or, is_none, str_eq, if◌then◌else◌,
}
use primal_core.Base.Dict.{Dict, get, put}
use primal_core.Base.Int.{ℤ, pos, ◌+ℤ◌, ◌-ℤ◌, scale}
use primal_core.Base.Value.{Value, null, bool, int, float, Fields}
use primal_core.Trajectory.Steps.{Step}
use primal_core.Trajectory.{Trajectory, TrajectoryStatus}

-- `total_cost += cost`; the total is a float, in millionths.
unfoldable pub add_cost : ℤ → Value → Outcome ℤ
unfolding ◌+ℤ◌ scale
add_cost total null = returned total
add_cost total (float x) = returned (total +ℤ x)
add_cost total (int n) = returned (total +ℤ scale 1000000 n)
add_cost total (bool b) = returned (total +ℤ pos (if b then 1000000 else 0))
add_cost total _ = raised (exception "TypeError" "unsupported operand")

-- The variables of the loop of `summary`
pub record Tally : Type 0 where
  pub kinds : Dict ℕ
  pub total_cost : ℤ
  pub error : Option Fields

abbrev pub no_steps : Tally
no_steps = record { kinds = []; total_cost = pos 0; error = none }

-- `kinds[step.kind] = kinds.get(step.kind, 0) + 1`
unfoldable pub count_in : String → Dict ℕ → Dict ℕ
unfolding get put
count_in k kinds = put k (get_or (get k kinds) 0 + 1) kinds

unfoldable pub tally : List Step → Tally → Outcome Tally
unfolding count_in add_cost
tally [] a = returned a
tally (s ∷ steps) a = add_cost a.total_cost s.cost >>= λ total. tally steps (record {
  kinds = count_in s.kind a.kinds;
  total_cost = total;
  error = if is_none a.error then if str_eq s.kind "ERROR" then some s.data_ else none else a.error;
})

pub record Summary : Type 0 where
  pub trajectory_id : String
  pub agent_id : Value
  pub status : TrajectoryStatus
  pub started_at : Option ℤ
  pub ended_at : Option ℤ
  pub duration_ms : Option ℤ
  pub step_count : ℕ
  pub total_cost : ℤ
  pub step_kinds : Dict ℕ
  pub error : Option Fields

-- `now` is what `time.monotonic()` answers.
unfoldable pub duration : ℤ → Option ℤ → Option ℤ → Option ℤ
unfolding ◌-ℤ◌ scale
duration now none end_ = none
duration now (some start) end_ = some (scale 1000 (get_or end_ now -ℤ start))

-- The dict that `summary` returns
abbrev pub summarised : ℤ → Trajectory → Tally → Summary
unfolding duration
summarised now t a = record {
  trajectory_id = t.trajectory_id;
  agent_id = t.agent_id;
  status = t.status;
  started_at = t.started_at;
  ended_at = t.ended_at;
  duration_ms = duration now t.monotonic_start t.monotonic_end;
  step_count = length t.steps;
  total_cost = a.total_cost;
  step_kinds = a.kinds;
  error = a.error;
}

unfoldable pub summary : ℤ → Trajectory → Outcome Summary
unfolding tally duration
summary now t = tally t.steps no_steps >>= λ a. returned (summarised now t a)

-- A step whose cost is absent or a number, and its cost then
abbrev pub price : Value → Option ℤ
price null = some (pos 0)
price (float x) = some x
price (int n) = some (scale 1000000 n)
price (bool b) = some (pos (if b then 1000000 else 0))
price _ = none

abbrev pub IsPriced : Step → Type 0
IsPriced s = is_none (price s.cost) ≡ false

abbrev pub spent : ℤ → List Step → ℤ
spent total [] = total
spent total (s ∷ steps) = spent (total +ℤ get_or (price s.cost) (pos 0)) steps

abbrev pub of_kind : String → List Step → List Step
of_kind k steps = keep (λ s. str_eq s.kind k) steps
