-- ===== src/Harness/Scheduler/Threads.antt =====
-- `start` and `stop` of src/primal_ai/harness/scheduler.py with the threads that they start, as a
-- step relation: what stands under the lock, the setting of the event, and each test, round and wait
-- of a loop are one step each, in any order that the threads allow. A `join` changes no state.
pub mod Stopping
mod Tests
use primal_core.Base.{
  ℕ, suc, ◌+◌, ◌≤◌, ◌<◌, Bool, true, false, Option, none, some, List, [], ◌∷◌, length, ◌≡◌, refl,
  arith, if◌then◌else◌, ◌==◌, ◌||◌, ◌⊎◌, inl, inr,
}

-- Where `_run_loop` stands: before the test of the `while`, running the jobs that are due, or in the
-- `wait` at the end of a round.
pub data Phase : Type 0 where
  testing working waiting : Phase

-- `_thread` and the stop event, with the threads whose loop has not ended, each with its phase, and
-- the calls of `stop` that have emptied `_thread` and not yet set the event
pub record Threads : Type 0 where
  pub slot : Option ℕ
  pub stop_event : Bool
  pub running : List (ℕ × Phase)
  pub stopping : ℕ

abbrev pub runs : ℕ → List (ℕ × Phase) → Bool
runs i [] = false
runs i ((j, p) ∷ js) = i == j || runs i js

abbrev pub phase_of : ℕ → List (ℕ × Phase) → Option Phase
phase_of i [] = none
phase_of i ((j, p) ∷ js) = if i == j then some p else phase_of i js

abbrev pub without : ℕ → List (ℕ × Phase) → List (ℕ × Phase)
without i [] = []
without i ((j, p) ∷ js) = let rest = without i js in if i == j then rest else (j, p) ∷ rest

abbrev pub moved : ℕ → Phase → List (ℕ × Phase) → List (ℕ × Phase)
moved i q [] = []
moved i q ((j, p) ∷ js) = let rest = moved i q js in if i == j then (j, q) ∷ js else (j, p) ∷ rest

-- `self._thread is not None and self._thread.is_alive()`
abbrev pub slot_alive : Option ℕ → List (ℕ × Phase) → Bool
slot_alive none running = false
slot_alive (some i) running = runs i running

-- One step of a loop: the test of the `while`, which ends it when the event is set; a round of jobs,
-- which ends it when a job raises what `except Exception` lets through; and the `wait`, which ends it
-- when the event is set, and otherwise times out.
pub data LoopStep : Threads → Threads → Type 0 where
  test_ends :
      (i : ℕ) {t : Threads}
      → t.stop_event ≡ true
      → phase_of i t.running ≡ some testing
      → LoopStep t (record t { running = without i t.running })
  test_goes_on :
      (i : ℕ) {t : Threads}
      → t.stop_event ≡ false
      → phase_of i t.running ≡ some testing
      → LoopStep t (record t { running = moved i working t.running })
  round_done :
      (i : ℕ) {t : Threads}
      → phase_of i t.running ≡ some working
      → LoopStep t (record t { running = moved i waiting t.running })
  round_dies :
      (i : ℕ) {t : Threads}
      → phase_of i t.running ≡ some working
      → LoopStep t (record t { running = without i t.running })
  wait_ends :
      (i : ℕ) {t : Threads}
      → t.stop_event ≡ true
      → phase_of i t.running ≡ some waiting
      → LoopStep t (record t { running = without i t.running })
  wait_times_out :
      (i : ℕ) {t : Threads}
      → t.stop_event ≡ false
      → phase_of i t.running ≡ some waiting
      → LoopStep t (record t { running = moved i testing t.running })

pub data Step : Threads → Threads → Type 0 where
  start_again : {t : Threads} → slot_alive t.slot t.running ≡ true → Step t t
  start_new :
      (i : ℕ) {t : Threads}
      → slot_alive t.slot t.running ≡ false
      → runs i t.running ≡ false
      → Step t (record t { slot = some i; stop_event = false; running = (i, testing) ∷ t.running })
  stop_slot : {t : Threads} → Step t (record t { slot = none; stopping = t.stopping + 1 })
  stop_set :
      {t : Threads} (n : ℕ)
      → t.stopping ≡ suc n
      → Step t (record t { stop_event = true; stopping = n })
  of_loop : {t u : Threads} → LoopStep t u → Step t u

pub data Reach (s : Threads) : Threads → Type 0 where
  here : Reach s s
  next : {t u : Threads} → Reach s t → Step t u → Reach s u

abbrev pub idle : Threads
idle = record { slot = none; stop_event = false; running = []; stopping = 0 }

-- Loop steps, with any calls of `stop` among them, while nobody calls `start`; the number counts the
-- loop steps.
pub data Drain (s : Threads) : ℕ → Threads → Type 0 where
  stay : {n : ℕ} → n ≡ 0 → Drain s n s
  drain_loop : {n m : ℕ} {t u : Threads} → Drain s n t → LoopStep t u → m ≡ suc n → Drain s m u
  drain_slot :
      {n : ℕ} {t : Threads}
      → Drain s n t
      → Drain s n (record t { slot = none; stopping = t.stopping + 1 })
  drain_set :
      {n : ℕ} {t : Threads} (k : ℕ)
      → Drain s n t
      → t.stopping ≡ suc k
      → Drain s n (record t { stop_event = true; stopping = k })

-- One user that calls `start` and `stop` in turn, where no `join` gives up: `stop` returns when the
-- thread that it took from the slot has ended.
pub data Used : Threads → Type 0 where
  unused : Used idle
  started :
      {t : Threads} (i : ℕ)
      → Used t
      → slot_alive t.slot t.running ≡ false
      → runs i t.running ≡ false
      → Used (record t { slot = some i; stop_event = false; running = (i, testing) ∷ t.running })
  looped : {t u : Threads} → Used t → LoopStep t u → Used u
  stopped :
      {t u : Threads} {n : ℕ}
      → Used t
      → Drain (record t { slot = none; stop_event = true }) n u
      → slot_alive t.slot u.running ≡ false
      → Used u
