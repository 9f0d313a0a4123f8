-- ===== src/Harness/Tests.antt =====
-- Runs of src/primal_ai/harness: a scheduler with a job that fails and one that counts, and a
-- monitor with a check that raises.
use primal_core.Base.{
  ℕ, suc, ◌+◌, ◌*◌, ◌≤◌, ◌≡◌, refl, ◌⊎◌, String, true, false, some, [], ◌∷◌, ◌++◌, Outcome,
  returned, raised, exception, arith,
}
use primal_core.Base.Dict.{get}
use primal_core.Base.Int.{pos}
use primal_core.Base.Value.{Value, null, end}
use primal_core.Harness.Health.{
  healthy, unhealthy, HealthCheck, HealthCheckFn, HealthMonitor, overall_status,
}
use primal_core.Harness.Health.Overall.{overall_status_raising}
use primal_core.Harness.Scheduler.{ScheduledJob, Scheduler, run_loop}
use primal_core.Harness.Scheduler.Rounds.{runs}
use primal_core.Harness.Scheduler.Deadlines.{runs_by_deadline, runs_apart}

abbrev job : String → (ℕ → (Outcome Value × ℕ) × ℕ) → ScheduledJob ℕ
job name func = record {
  name = name;
  func = func;
  interval = 100;
  next_run_at = 30;
  enabled = true;
  metadata = end;
}

abbrev failing : ScheduledJob ℕ
failing = job "failing" (λ n. ((raised (exception "RuntimeError" "down"), 1), n))

abbrev counting : ScheduledJob ℕ
counting = job "counting" (λ n. ((returned null, 1), suc n))

abbrev scheduler : Scheduler ℕ
scheduler = record {
  jobs = ("failing", failing) ∷ ("counting", counting) ∷ [];
  stop_event = false;
  thread = some true;
  state = 0;
  published = [];
}

runs_by_deadline_example :
    runs "counting" [] + 1
    ≤ runs "counting" (run_loop ((10 ∷ 20 ∷ []) ++ (30 ∷ 40 ∷ [])) scheduler).1.published
unfolding get
runs_by_deadline_example =
    runs_by_deadline "counting" counting (10 ∷ 20 ∷ []) 30 (40 ∷ []) scheduler
      ((refl, (refl, tt)), (refl, (refl, tt)), ((λ u. tt), ((λ u. tt), tt))) refl refl refl
      (omega arith)

runs_apart_example :
    (runs "counting" (run_loop (10 ∷ 30 ∷ 60 ∷ []) scheduler).1.published ≡ runs "counting" [])
    ⊎ (30 + runs "counting" (run_loop (10 ∷ 30 ∷ 60 ∷ []) scheduler).1.published * 100
        ≤ 60 + (runs "counting" [] + 1) * 100)
unfolding get
runs_apart_example =
    runs_apart "counting" counting 60 (10 ∷ 30 ∷ 60 ∷ []) scheduler
      ((refl, (refl, tt)), (refl, (refl, tt)), ((λ u. tt), ((λ u. tt), tt))) refl refl
      (omega arith, (omega arith, (omega arith, tt)))

abbrev well : HealthCheck
well = record {
  name = "db";
  status = healthy;
  reason = null;
  details = end;
  checked_at = pos 1;
  latency_ms = null;
}

abbrev broken : HealthCheckFn ℕ
broken n = ((raised (exception "OSError" "refused"), pos 3), suc n)

abbrev monitor : HealthMonitor ℕ
monitor = record {
  checks = ("db", λ n. ((returned well, pos 1), n)) ∷ ("cache", broken) ∷ [];
  state = 0;
  published = [];
}

overall_status_raising_example :
    (overall_status (λ n. pos n) (λ n. "trace") monitor).0 ≡ returned unhealthy
unfolding get
overall_status_raising_example =
    overall_status_raising (λ n. pos n) (λ n. "trace") monitor "cache" broken (refl, (refl, tt))
      ((λ n. tt), ((λ n. tt), tt)) refl (λ n. tt)
