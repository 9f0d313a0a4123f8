-- ===== src/Harness/Scheduler/Deadlines.antt =====
-- The loop of src/primal_ai/harness/scheduler.py over many wakes: no job is left out, and none runs
-- more often than its interval allows.
use primal_core.Base.{
  ℕ, ◌+◌, ◌*◌, ◌≤◌, ◌≡◌, refl, ap, ◌∙◌, sym, subst, ◌⊎◌, inl, inr, String, true, false, some, List,
  [], ◌∷◌, ◌++◌, returned, All, arith, Bool-cases, if◌then◌else◌,
}
use primal_core.Base.Dict.{get}
use primal_core.Guardian.Policy.{and_then}
use primal_core.Harness.Scheduler.{ScheduledJob, Scheduler, is_due, moved, tick, run_loop}
use primal_core.Harness.Scheduler.Rounds.{runs, due_count, advanced, IsScheduled, tick_lem}

apart_step :
    (r0 r1 r2 next now last interval : ℕ)
    → next ≤ now
    → now ≤ last
    → r1 ≡ r0 + 1
    → (r2 ≡ r1) ⊎ (now + interval + r2 * interval ≤ last + (r1 + 1) * interval)
    → (r2 ≡ r0) ⊎ (next + r2 * interval ≤ last + (r0 + 1) * interval)
apart_step r0 r1 r2 next now last interval h k e (inl same) =
    inr (omega (arith, ap (λ (n : ℕ). n * interval) (same ∙ e)))
apart_step r0 r1 r2 next now last interval h k e (inr less) =
    inr (omega (arith, less, ap (λ (n : ℕ). (n + 1) * interval) e))

module _ {S : Type 0} where
  -- A round that returns is followed by the rest of the loop.
  run_loop-tick :
      (now : ℕ) (wakes : List ℕ) (s : Scheduler S)
      → IsScheduled s.jobs
      → s.stop_event ≡ false
      → run_loop (now ∷ wakes) s ≡ run_loop wakes (tick now s).1
  unfolding run_loop
  run_loop-tick now wakes s v e =
      ap (λ b. if b then (returned tt, s) else and_then (tick now s) (λ _ s'. run_loop wakes s')) e
      ∙ ap (λ r. and_then (r, (tick now s).1) (λ _ s'. run_loop wakes s')) (tick_lem now s "" v).0

  run_loop-grows :
      (k : String) (wakes : List ℕ) (s : Scheduler S)
      → IsScheduled s.jobs
      → s.stop_event ≡ false
      → runs k s.published ≤ runs k (run_loop wakes s).1.published
  unfolding run_loop
  run_loop-grows k [] s v e = omega arith
  run_loop-grows k (now ∷ wakes) s v e =
      let (r, g, c, e', v') = tick_lem now s k v in
      let ih = run_loop-grows k wakes (tick now s).1 v' (e' ∙ e) in
      subst (λ o. runs k s.published ≤ runs k o.1.published) (sym (run_loop-tick now wakes s v e))
        (omega (arith, ih, c))

  -- While the loop is not stopped and no job raises what `except Exception` lets through, an enabled
  -- job runs by the first wake at or after its deadline, whatever the other jobs do.
  pub runs_by_deadline :
      (k : String) (job : ScheduledJob S) (before : List ℕ) (t : ℕ) (after : List ℕ)
      (s : Scheduler S)
      → IsScheduled s.jobs
      → s.stop_event ≡ false
      → get k s.jobs ≡ some job
      → job.enabled ≡ true
      → job.next_run_at ≤ t
      → runs k s.published + 1 ≤ runs k (run_loop (before ++ (t ∷ after)) s).1.published
  runs_by_deadline k job [] t after s v e g on due =
      let (r, g', c, e', v') = tick_lem t s k v in
      let more = run_loop-grows k after (tick t s).1 v' (e' ∙ e) in
      let counted = c ∙ ap (λ j. runs k s.published + due_count t j) g in
      subst (λ o. runs k s.published + 1 ≤ runs k o.1.published) (sym (run_loop-tick t after s v e))
        (ground (arith, more, counted))
  runs_by_deadline k job (now ∷ before) t after s v e g on due =
      let (r, g', c, e', v') = tick_lem now s k v in
      let s1 = (tick now s).1 in
      let rest = before ++ (t ∷ after) in
      let more = run_loop-grows k rest s1 v' (e' ∙ e) in
      let counted = c ∙ ap (λ j. runs k s.published + due_count now j) g in
      let kept = g' ∙ ap (advanced now) g in
      subst (λ o. runs k s.published + 1 ≤ runs k o.1.published)
        (sym (run_loop-tick now rest s v e))
        (elim (Bool-cases (is_due now job)) [
          | inl ran ↦ ground (arith, more, counted, ran)
          | inr waits ↦
              let same : get k s1.jobs ≡ some job =
                kept ∙ ap (λ b. some (if b then moved now job else job)) waits in
              let ih = runs_by_deadline k job before t after s1 v' (e' ∙ e) same on due in
              ground (arith, ih, counted, waits)
        ])

  -- In wakes up to the time `last`, an unstopped loop runs a job at most once at its deadline and
  -- once for each whole interval after it: `n` runs need `n - 1` intervals.
  pub runs_apart :
      (k : String) (job : ScheduledJob S) (last : ℕ) (wakes : List ℕ) (s : Scheduler S)
      → IsScheduled s.jobs
      → s.stop_event ≡ false
      → get k s.jobs ≡ some job
      → All (λ now. now ≤ last) wakes
      → (runs k (run_loop wakes s).1.published ≡ runs k s.published)
        ⊎ (job.next_run_at + runs k (run_loop wakes s).1.published * job.interval
            ≤ last + (runs k s.published + 1) * job.interval)
  unfolding run_loop
  runs_apart k job last [] s v e g h = inl refl
  runs_apart k job last (now ∷ wakes) s v e g (h, hs) =
      let (r, g', c, e', v') = tick_lem now s k v in
      let s1 = (tick now s).1 in
      let counted = c ∙ ap (λ j. runs k s.published + due_count now j) g in
      let kept = g' ∙ ap (advanced now) g in
      subst
        (λ o.
          (runs k o.1.published ≡ runs k s.published)
          ⊎ (job.next_run_at + runs k o.1.published * job.interval
              ≤ last + (runs k s.published + 1) * job.interval))
        (sym (run_loop-tick now wakes s v e))
        (elim (Bool-cases (is_due now job)) [
          | inl ran ↦
              let same : get k s1.jobs ≡ some (moved now job) =
                kept ∙ ap (λ b. some (if b then moved now job else job)) ran in
              let ih = runs_apart k (moved now job) last wakes s1 v' (e' ∙ e) same hs in
              apart_step (runs k s.published) (runs k s1.published)
                (runs k (run_loop wakes s1).1.published) job.next_run_at now last job.interval
                (ground (arith, ran)) h (ground (arith, counted, ran)) ih
          | inr waits ↦
              let same : get k s1.jobs ≡ some job =
                kept ∙ ap (λ b. some (if b then moved now job else job)) waits in
              let ih = runs_apart k job last wakes s1 v' (e' ∙ e) same hs in
              subst
                (λ n.
                  (runs k (run_loop wakes s1).1.published ≡ n)
                  ⊎ (job.next_run_at + runs k (run_loop wakes s1).1.published * job.interval
                      ≤ last + (n + 1) * job.interval))
                (ground (arith, counted, waits)) ih
        ])
