-- ===== src/Harness/Scheduler/Threads/Tests.antt =====
-- Interleavings of the threads of src/primal_ai/harness/scheduler.py.
use primal_core.Base.{◌+◌, ◌≤◌, true, false, some, none, [], ◌∷◌, ◌≡◌, refl, ◌⊎◌}
use primal_core.Harness.Scheduler.Threads.{
  Threads, idle, testing, working, LoopStep, round_done, wait_ends, start_new, stop_slot, stop_set,
  Reach, here, next, Drain, stay, drain_loop,
}
use primal_core.Harness.Scheduler.Threads.Stopping.{
  all_left, rounds, stopped_loops_end, interleaved_stop_kept,
}

abbrev one : Threads
one = record { slot = some 0; stop_event = false; running = (0, testing) ∷ []; stopping = 0 }

abbrev told : Threads
told = record one { slot = none; stop_event = true }

abbrev busy : Threads
busy = record told { running = (0, working) ∷ [] }

-- A `start` after a `stop` whose `join` gave up clears the event: two loops go on.
two_loops : Reach idle (record {
  slot = some 1;
  stop_event = false;
  running = (1, testing) ∷ (0, testing) ∷ [];
  stopping = 0;
})
two_loops =
    next (next (next (next here (start_new 0 refl refl)) stop_slot) (stop_set 0 refl))
      (start_new 1 refl refl)

-- A loop that is running jobs when the event is set finishes the round and ends in its `wait`.
ended : Drain busy 2 (record busy { running = [] })
ended = drain_loop (drain_loop (stay refl) (round_done 0 refl) refl) (wait_ends 0 refl refl) refl

stopped_loops_end_example :
    (2 + all_left [] ≤ all_left ((0, working) ∷ []))
    × (rounds [] ≤ rounds ((0, working) ∷ []))
    × (((record busy { running = [] }).running ≡ [])
        ⊎ ((v : Threads) × LoopStep (record busy { running = [] }) v))
stopped_loops_end_example = stopped_loops_end busy (record busy { running = [] }) 2 refl ended

interleaved_stop_kept_example : (told.running ≡ []) ⊎ (told.stop_event ≡ true)
interleaved_stop_kept_example =
    interleaved_stop_kept
      (next (next (next here (start_new 0 refl refl)) stop_slot) (stop_set 0 refl)) refl refl
