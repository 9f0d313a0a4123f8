-- ===== src/Harness/Facade.antt =====
-- src/primal_ai/harness/_core.py: `Harness.start` and `Harness.stop`. The other methods call those of
-- the same name of the registry of tools and of the monitor.
use primal_core.Base.{Option, get_or, if◌then◌else◌}
use primal_core.Base.Value.{Fields, end}
use primal_core.Base.Python.{truthy, value_at}
use primal_core.Harness.Scheduler as Schedulers
use primal_core.Harness.Scheduler.{Scheduler}

module _ {S : Type 0} where
  unfoldable pub start : Option Fields → Scheduler S → Scheduler S
  unfolding truthy value_at Schedulers.start
  start config s =
      if truthy (value_at "scheduler_enabled" (get_or config end)) then Schedulers.start s else s

  unfoldable pub stop : Scheduler S → Scheduler S
  unfolding Schedulers.stop
  stop s = Schedulers.stop s
