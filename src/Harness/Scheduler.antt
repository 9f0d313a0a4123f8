-- ===== src/Harness/Scheduler.antt =====
-- src/primal_ai/harness/scheduler.py. Times are whole milliseconds of `time.monotonic()`. A job's
-- function is the caller's code on a state `S`; its call also says how long it took. The thread's
-- loop is given the times at which it wakes.
pub mod Rounds
pub mod Deadlines
pub mod Threads
use primal_core.Base.{
  ℕ, ◌+◌, String, Bool, true, false, Option, none, some, List, [], ◌∷◌, ◌++◌, Outcome, returned,
  raised, violation, exception, base_exception, is_none, if◌then◌else◌, leb, ◌&&◌, ◌||◌, not,
}
use primal_core.Base.Dict.{Dict, get, put, pop, values}
use primal_core.Base.Value.{Value, Fields}
use primal_core.Guardian.Policy.{and_then}

pub record ScheduledJob (S : Type 0) : Type 0 where
  pub name : String
  pub func : S → (Outcome Value × ℕ) × S
  pub interval : ℕ
  pub next_run_at : ℕ
  pub enabled : Bool
  pub metadata : Fields

-- The payload of SCHEDULED_JOB_RUN: the job, its error if it failed, and the duration
pub record JobRun : Type 0 where
  pub job_name : String
  pub error : Option (String × String)
  pub duration_ms : ℕ

-- `thread` says of the thread in the slot, if there is one, whether it is alive.
pub record Scheduler (S : Type 0) : Type 0 where
  pub jobs : Dict (ScheduledJob S)
  pub stop_event : Bool
  pub thread : Option Bool
  pub state : S
  pub published : List JobRun

abbrev pub is_alive : Option Bool → Bool
is_alive none = false
is_alive (some alive) = alive

-- What `_run_one` publishes of what the function did
abbrev pub job_run : String → Outcome Value × ℕ → Outcome JobRun
job_run name (returned v, t) = returned (record { job_name = name; error = none; duration_ms = t })
job_run name (raised (violation v), t) =
    returned
      (record { job_name = name; error = some ("PolicyViolation", v.policy_name); duration_ms = t })
job_run name (raised (exception cls message), t) =
    returned (record { job_name = name; error = some (cls, message); duration_ms = t })
job_run name (raised (base_exception cls message), t) = raised (base_exception cls message)

module _ {S : Type 0} where
  unfoldable pub add_job : ScheduledJob S → Scheduler S → Outcome (Unit {0}) × Scheduler S
  unfolding get put
  add_job job s =
      if is_none (get job.name s.jobs)
      then (returned tt, record s { jobs = put job.name job s.jobs })
      else (raised (exception "ValueError" job.name), s)

  unfoldable pub remove_job : String → Scheduler S → Scheduler S
  unfolding pop
  remove_job name s = record s { jobs = pop name s.jobs }

  unfoldable pub list_jobs : Scheduler S → List (ScheduledJob S)
  unfolding values
  list_jobs s = values s.jobs

  unfoldable pub start : Scheduler S → Scheduler S
  start s = if is_alive s.thread then s else record s { stop_event = false; thread = some true }

  unfoldable pub stop : Scheduler S → Scheduler S
  stop s = record s { stop_event = true; thread = none }

  unfoldable pub is_running : Scheduler S → Bool
  is_running s = is_alive s.thread && not s.stop_event

  abbrev pub is_due : ℕ → ScheduledJob S → Bool
  is_due now job = job.enabled && leb job.next_run_at now

  abbrev pub moved : ℕ → ScheduledJob S → ScheduledJob S
  moved now job = record job { next_run_at = now + job.interval }

  -- The loop under the lock: the due jobs as they were, and the jobs with the new deadlines. To
  -- write under a key that is there keeps its place.
  unfoldable pub due_jobs : ℕ → Dict (ScheduledJob S) → List (ScheduledJob S)
  due_jobs now [] = []
  due_jobs now ((k, job) ∷ jobs) =
      let rest = due_jobs now jobs in if is_due now job then job ∷ rest else rest

  unfoldable pub advance : ℕ → Dict (ScheduledJob S) → Dict (ScheduledJob S)
  advance now [] = []
  advance now ((k, job) ∷ jobs) =
      (k, if is_due now job then moved now job else job) ∷ advance now jobs

  unfoldable pub run_one : ScheduledJob S → Scheduler S → Outcome (Unit {0}) × Scheduler S
  run_one job s =
      let (r, u) = job.func s.state in
      and_then (job_run job.name r, record s { state = u })
        λ e s'. (returned tt, record s' { published = s'.published ++ (e ∷ []) })

  unfoldable pub run_due : List (ScheduledJob S) → Scheduler S → Outcome (Unit {0}) × Scheduler S
  unfolding run_one
  run_due [] s = (returned tt, s)
  run_due (job ∷ due) s = and_then (run_one job s) (λ _ s'. run_due due s')

  -- One round of `_run_loop` at the time `now`
  unfoldable pub tick : ℕ → Scheduler S → Outcome (Unit {0}) × Scheduler S
  unfolding due_jobs advance run_due
  tick now s = run_due (due_jobs now s.jobs) (record s { jobs = advance now s.jobs })

  -- The loop, given the times at which it wakes; it ends when the stop event is set.
  unfoldable pub run_loop : List ℕ → Scheduler S → Outcome (Unit {0}) × Scheduler S
  unfolding tick
  run_loop [] s = (returned tt, s)
  run_loop (now ∷ wakes) s =
      let round = and_then (tick now s) (λ _ s'. run_loop wakes s') in
      if s.stop_event then (returned tt, s) else round
