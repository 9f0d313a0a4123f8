-- ===== src/Harness/Scheduler/Threads/Stopping.antt =====
-- How the loops of src/primal_ai/harness/scheduler.py end, and how many there are.
use primal_core.Base.{
  ℕ, suc, ◌+◌, ◌≤◌, true, false, Option, none, some, List, [], ◌∷◌, ◌≡◌, refl, sym, ap, ◌∙◌, get_or,
  arith, ◌==◌, ◌⊎◌, inl, inr, Bool-cases,
}
use primal_core.Harness.Scheduler.Threads.{
  Threads, Phase, testing, working, waiting, phase_of, moved, runs, without, slot_alive, idle,
  LoopStep, test_ends, test_goes_on, round_done, round_dies, wait_ends, wait_times_out, Step,
  start_again, start_new, stop_slot, stop_set, of_loop, Reach, here, next, Drain, stay, drain_loop,
  drain_slot, drain_set, Used, unused, started, looped, stopped,
}

-- How many steps a loop may still take once the event is set: one round and the `wait` after it if it
-- is running jobs, and otherwise only the step that ends it
abbrev pub steps_left : Phase → ℕ
steps_left testing = 1
steps_left working = 2
steps_left waiting = 1

abbrev pub all_left : List (ℕ × Phase) → ℕ
all_left [] = 0
all_left ((j, p) ∷ js) = steps_left p + all_left js

-- The loops that are running jobs
abbrev pub rounds : List (ℕ × Phase) → ℕ
rounds [] = 0
rounds ((j, working) ∷ js) = suc (rounds js)
rounds ((j, testing) ∷ js) = rounds js
rounds ((j, waiting) ∷ js) = rounds js

without-less : (i : ℕ) (js : List (ℕ × Phase)) → all_left (without i js) ≤ all_left js
without-less i [] = omega arith
without-less i ((j, p) ∷ js) = ground (arith, without-less i js)

without-rounds : (i : ℕ) (js : List (ℕ × Phase)) → rounds (without i js) ≤ rounds js
without-rounds i [] = omega arith
without-rounds i ((j, testing) ∷ js) = ground (arith, without-rounds i js)
without-rounds i ((j, working) ∷ js) = ground (arith, without-rounds i js)
without-rounds i ((j, waiting) ∷ js) = ground (arith, without-rounds i js)

without-shorter :
    (i : ℕ) (js : List (ℕ × Phase)) (p : Phase)
    → phase_of i js ≡ some p
    → suc (all_left (without i js)) ≤ all_left js
without-shorter i [] p h = cc h
without-shorter i ((j, testing) ∷ js) p h =
    ground (arith, without-shorter i js p, without-less i js)
without-shorter i ((j, working) ∷ js) p h =
    ground (arith, without-shorter i js p, without-less i js)
without-shorter i ((j, waiting) ∷ js) p h =
    ground (arith, without-shorter i js p, without-less i js)

round_done-shorter :
    (i : ℕ) (js : List (ℕ × Phase))
    → phase_of i js ≡ some working
    → (suc (all_left (moved i waiting js)) ≤ all_left js)
      × (rounds (moved i waiting js) ≤ rounds js)
round_done-shorter i [] h = cc h
round_done-shorter i ((j, testing) ∷ js) h = ground (arith, round_done-shorter i js)
round_done-shorter i ((j, working) ∷ js) h = ground (arith, round_done-shorter i js)
round_done-shorter i ((j, waiting) ∷ js) h = ground (arith, round_done-shorter i js)

runs-without : (i k : ℕ) (js : List (ℕ × Phase)) → runs k (without i js) ≡ true → runs k js ≡ true
runs-without i k [] h = h
runs-without i k ((j, p) ∷ js) h = ground (arith, runs-without i k js)

runs-moved : (i k : ℕ) (q : Phase) (js : List (ℕ × Phase)) → runs k (moved i q js) ≡ runs k js
runs-moved i k q [] = refl
runs-moved i k q ((j, p) ∷ js) = ground (arith, runs-moved i k q js)

-- While the event is set a loop only comes nearer to its end, and none begins a round.
LoopStep-shorter :
    {t u : Threads}
    → t.stop_event ≡ true
    → LoopStep t u
    → (suc (all_left u.running) ≤ all_left t.running)
      × (rounds u.running ≤ rounds t.running)
      × (u.stop_event ≡ true)
LoopStep-shorter set (test_ends i {t} e h) =
    (without-shorter i t.running testing h, without-rounds i t.running, set)
LoopStep-shorter set (test_goes_on i {t} e h) = absurd (ground arith)
LoopStep-shorter set (round_done i {t} h) =
    let (a, b) = round_done-shorter i t.running h in (a, b, set)
LoopStep-shorter set (round_dies i {t} h) =
    (without-shorter i t.running working h, without-rounds i t.running, set)
LoopStep-shorter set (wait_ends i {t} e h) =
    (without-shorter i t.running waiting h, without-rounds i t.running, set)
LoopStep-shorter set (wait_times_out i {t} e h) = absurd (ground arith)

some_running : (js : List (ℕ × Phase)) → (js ≡ []) ⊎ ((i : ℕ) × (runs i js ≡ true))
some_running [] = inl refl
some_running ((j, p) ∷ js) = inr (j, ground arith)

first_phase :
    (js : List (ℕ × Phase)) → (js ≡ []) ⊎ ((i : ℕ) × (p : Phase) × (phase_of i js ≡ some p))
first_phase [] = inl refl
first_phase ((j, p) ∷ js) = inr (j, p, ground arith)

steps_on :
    (t : Threads) (i : ℕ) (p : Phase)
    → t.stop_event ≡ true
    → phase_of i t.running ≡ some p
    → (u : Threads) × LoopStep t u
steps_on t i testing e h = (record t { running = without i t.running }, test_ends i e h)
steps_on t i working e h = (record t { running = moved i waiting t.running }, round_done i h)
steps_on t i waiting e h = (record t { running = without i t.running }, wait_ends i e h)

goes_on : (t : Threads) → t.stop_event ≡ true → (t.running ≡ []) ⊎ ((u : Threads) × LoopStep t u)
goes_on t e = elim (first_phase t.running) [
  | inl none_left ↦ inl none_left
  | inr (i, p, h) ↦ inr (steps_on t i p e h)
]

Drain-shorter :
    {t u : Threads} {n : ℕ}
    → t.stop_event ≡ true
    → Drain t n u
    → (n + all_left u.running ≤ all_left t.running)
      × (rounds u.running ≤ rounds t.running)
      × (u.stop_event ≡ true)
Drain-shorter e (stay z) = ground arith
Drain-shorter e (drain_loop d st m) =
    let (a, b, set) = Drain-shorter e d in
    let (a', b', set') = LoopStep-shorter set st in (ground arith, ground arith, set')
Drain-shorter e (drain_slot d) = Drain-shorter e d
Drain-shorter e (drain_set k d z) = let (a, b, set) = Drain-shorter e d in (a, b, refl)

-- Once the stop event is set, and while nobody calls `start`, the loops end: in any order they take
-- together at most two steps for each loop that was running its jobs and one for each other, no loop
-- begins another round of jobs, and as long as one is left some loop can take a step; other calls of
-- `stop` do not change this.
pub stopped_loops_end :
    (t u : Threads) (n : ℕ)
    → t.stop_event ≡ true
    → Drain t n u
    → (n + all_left u.running ≤ all_left t.running)
      × (rounds u.running ≤ rounds t.running)
      × ((u.running ≡ []) ⊎ ((v : Threads) × LoopStep u v))
stopped_loops_end t u n e d =
    let (bound, begun, set) = Drain-shorter e d in (bound, begun, goes_on u set)

LoopStep-runs :
    {t u : Threads} → LoopStep t u → (k : ℕ) → runs k u.running ≡ true → runs k t.running ≡ true
LoopStep-runs (test_ends i {t} e h) k r = runs-without i k t.running r
LoopStep-runs (test_goes_on i {t} e h) k r = sym (runs-moved i k working t.running) ∙ r
LoopStep-runs (round_done i {t} h) k r = sym (runs-moved i k waiting t.running) ∙ r
LoopStep-runs (round_dies i {t} h) k r = runs-without i k t.running r
LoopStep-runs (wait_ends i {t} e h) k r = runs-without i k t.running r
LoopStep-runs (wait_times_out i {t} e h) k r = sym (runs-moved i k testing t.running) ∙ r

LoopStep-slot : {t u : Threads} → LoopStep t u → u.slot ≡ t.slot
LoopStep-slot (test_ends i e h) = refl
LoopStep-slot (test_goes_on i e h) = refl
LoopStep-slot (round_done i h) = refl
LoopStep-slot (round_dies i h) = refl
LoopStep-slot (wait_ends i e h) = refl
LoopStep-slot (wait_times_out i e h) = refl

Drain-runs :
    {t u : Threads} {n : ℕ}
    → Drain t n u
    → (k : ℕ) → runs k u.running ≡ true
    → runs k t.running ≡ true
Drain-runs (stay z) k r = r
Drain-runs (drain_loop d st m) k r = Drain-runs d k (LoopStep-runs st k r)
Drain-runs (drain_slot d) k r = Drain-runs d k r
Drain-runs (drain_set j d z) k r = Drain-runs d k r

in_slot_alive :
    (slot : Option ℕ) (k : ℕ) (js : List (ℕ × Phase))
    → slot ≡ some k
    → runs k js ≡ true
    → slot_alive slot js ≡ false
    → ⊥
in_slot_alive none k js e r a = cc
in_slot_alive (some i) k js e r a = ground arith

-- A loop that is running is that of the thread in the slot.
used_in_slot : {t : Threads} → Used t → (k : ℕ) → runs k t.running ≡ true → t.slot ≡ some k
used_in_slot unused k r = cc
used_in_slot (started {t} i us a fresh) k r =
    let old : runs k t.running ≡ true → ⊥ =
      λ r'. in_slot_alive t.slot k t.running (used_in_slot us k r') r' a in
    elim (Bool-cases (k == i)) [ inl same ↦ ground arith | inr other ↦ absurd (old (ground arith)) ]
used_in_slot (looped us st) k r = LoopStep-slot st ∙ used_in_slot us k (LoopStep-runs st k r)
used_in_slot (stopped {t} {u} us d a) k r =
    absurd (in_slot_alive t.slot k u.running (used_in_slot us k (Drain-runs d k r)) r a)

-- If one user starts and stops the scheduler in turn and no `join` gives up, two loops never run at
-- the same time, and none runs while `_thread` is empty.
pub used_at_most_one :
    {t : Threads}
    → Used t
    → ((i j : ℕ) → runs i t.running ≡ true → runs j t.running ≡ true → i ≡ j)
      × (t.slot ≡ none → t.running ≡ [])
used_at_most_one {t} us = (
  λ i j h k. ap (λ o. get_or o 0) (sym (used_in_slot us i h) ∙ used_in_slot us j k),
  λ e. elim (some_running t.running) [
    | inl none_left ↦ none_left
    | inr (i, h) ↦ absurd (ground (arith, used_in_slot us i h))
  ],
)

-- A stop that is asked for is not lost.
abbrev pub StopKept : Threads → Type 0
StopKept t =
    t.slot ≡ none → (t.running ≡ []) ⊎ (t.stop_event ≡ true) ⊎ ((n : ℕ) × (t.stopping ≡ suc n))

kept_on :
    {js ks : List (ℕ × Phase)} {A : Type 0} → (js ≡ []) ⊎ A → (js ≡ [] → ks ≡ []) → (ks ≡ []) ⊎ A
kept_on (inl g) f = inl (f g)
kept_on (inr a) f = inr a

LoopStep-StopKept : {t u : Threads} → LoopStep t u → StopKept t → StopKept u
LoopStep-StopKept (test_ends i {t} e h) kept empty = kept_on (kept empty) (λ g. rw g)
LoopStep-StopKept (test_goes_on i {t} e h) kept empty = kept_on (kept empty) (λ g. rw g)
LoopStep-StopKept (round_done i {t} h) kept empty = kept_on (kept empty) (λ g. rw g)
LoopStep-StopKept (round_dies i {t} h) kept empty = kept_on (kept empty) (λ g. rw g)
LoopStep-StopKept (wait_ends i {t} e h) kept empty = kept_on (kept empty) (λ g. rw g)
LoopStep-StopKept (wait_times_out i {t} e h) kept empty = kept_on (kept empty) (λ g. rw g)

Step-StopKept : {t u : Threads} → Step t u → StopKept t → StopKept u
Step-StopKept (start_again a) kept = kept
Step-StopKept (start_new i a fresh) kept = λ empty. cc
Step-StopKept (stop_slot {t}) kept = λ empty. inr (inr (t.stopping, omega arith))
Step-StopKept (stop_set n e) kept = λ empty. inr (inl refl)
Step-StopKept (of_loop st) kept = LoopStep-StopKept st kept

Reach-StopKept : {t : Threads} → Reach idle t → StopKept t
Reach-StopKept here = λ empty. inl refl
Reach-StopKept (next r st) = Step-StopKept st (Reach-StopKept r)

-- However the calls of `start` and `stop` and the loops interleave: while `_thread` is empty and no
-- call of `stop` is about to set the event, no loop is running or the event is set.
pub interleaved_stop_kept :
    {t : Threads}
    → Reach idle t
    → t.slot ≡ none
    → t.stopping ≡ 0
    → (t.running ≡ []) ⊎ (t.stop_event ≡ true)
interleaved_stop_kept r empty quiet = elim (Reach-StopKept r empty) [
  | inl none_left ↦ inl none_left
  | inr asked ↦ elim asked [ inl set ↦ inr set | inr (n, e) ↦ absurd (omega arith) ]
]
