-- ===== src/Harness/Scheduler/Rounds.antt =====
-- One round of the loop of src/primal_ai/harness/scheduler.py.
use primal_core.Base.{
  ℕ, ◌+◌, ◌≡◌, refl, ap, ◌∙◌, sym, subst, String, Bool, true, false, Option, none, some, List, [],
  ◌∷◌, ◌++◌, Outcome, returned, raised, violation, exception, base_exception, All, if◌then◌else◌,
  str_eq, eq_iff, arith,
}
use primal_core.Base.Dict.{Dict, get, NodupKeys}
use primal_core.Base.Value.{Value}
use primal_core.Guardian.Policy.{and_then}
use primal_core.Harness.Scheduler.{
  ScheduledJob, JobRun, Scheduler, is_due, moved, due_jobs, advance, job_run, run_one, run_due,
  tick,
}

-- How many runs of a job were published
abbrev pub runs : String → List JobRun → ℕ
runs k [] = 0
runs k (e ∷ es) = (if str_eq e.job_name k then 1 else 0) + runs k es

runs_append : (k : String) (xs ys : List JobRun) → runs k (xs ++ ys) ≡ runs k xs + runs k ys
runs_append k [] ys = omega arith
runs_append k (e ∷ es) ys = omega (arith, runs_append k es ys)

abbrev pub IsCaught : Outcome Value → Type 0
IsCaught (raised (base_exception cls message)) = ⊥
IsCaught _ = Unit

module _ {S : Type 0} where
  -- The function may raise, but nothing that `except Exception` lets through.
  abbrev pub IsOrdinary : ScheduledJob S → Type 0
  IsOrdinary job = (u : S) → IsCaught (job.func u).0.0

  abbrev pub AllOrdinary : Dict (ScheduledJob S) → Type 0
  AllOrdinary [] = Unit
  AllOrdinary ((k, job) ∷ jobs) = IsOrdinary job × AllOrdinary jobs

  abbrev pub IsNamed : Dict (ScheduledJob S) → Type 0
  IsNamed [] = Unit
  IsNamed ((k, job) ∷ jobs) = (job.name ≡ k) × IsNamed jobs

  abbrev pub count_named : String → List (ScheduledJob S) → ℕ
  count_named k [] = 0
  count_named k (job ∷ jobs) = (if str_eq job.name k then 1 else 0) + count_named k jobs

  -- What a round leaves alone, and how many runs it adds for each name
  abbrev pub Adds : (String → ℕ) → Scheduler S → Outcome (Unit {0}) × Scheduler S → Type 0
  Adds count s (r, s') =
      (r ≡ returned tt)
      × (s'.jobs ≡ s.jobs)
      × (s'.stop_event ≡ s.stop_event)
      × ((k : String) → runs k s'.published ≡ runs k s.published + count k)

  run_one-Adds :
      (job : ScheduledJob S) (s : Scheduler S)
      → IsOrdinary job
      → Adds (λ k. if str_eq job.name k then 1 else 0) s (run_one job s)
  unfolding run_one
  run_one-Adds job s h = go (job.func s.state) (h s.state)
    where
      go :
          (o : (Outcome Value × ℕ) × S)
          → IsCaught o.0.0
          → Adds
              (λ k. if str_eq job.name k then 1 else 0)
              s
              (and_then
                (job_run job.name o.0, record s { state = o.1 })
                λ e s'. (returned tt, record s' { published = s'.published ++ (e ∷ []) }))
      go ((returned v, t), u) c = (refl, refl, refl, λ k. runs_append k s.published _ ∙ omega arith)
      go ((raised (violation v), t), u) c =
          (refl, refl, refl, λ k. runs_append k s.published _ ∙ omega arith)
      go ((raised (exception cls m), t), u) c =
          (refl, refl, refl, λ k. runs_append k s.published _ ∙ omega arith)
      go ((raised (base_exception cls m), t), u) c = absurd c

  Adds-then :
      (f g : String → ℕ) (s : Scheduler S) (o : Outcome (Unit {0}) × Scheduler S)
      (next : Scheduler S → Outcome (Unit {0}) × Scheduler S)
      → Adds f s o
      → Adds g o.1 (next o.1)
      → Adds (λ k. f k + g k) s (and_then o (λ _ s'. next s'))
  Adds-then f g s (returned _, s') next (r, j, e, c) (r', j', e', c') =
      (r', j' ∙ j, e' ∙ e, λ k. omega (arith, c k, c' k))
  Adds-then f g s (raised x, s') next (r, j, e, c) (r', j', e', c') = cc

  run_due-Adds :
      (due : List (ScheduledJob S)) (s : Scheduler S)
      → All IsOrdinary due
      → Adds (λ k. count_named k due) s (run_due due s)
  unfolding run_due
  run_due-Adds [] s h = (refl, refl, refl, λ k. omega arith)
  run_due-Adds (job ∷ due) s (h, hs) =
      Adds-then (λ k. if str_eq job.name k then 1 else 0) (λ k. count_named k due) s (run_one job s)
        (run_due due) (run_one-Adds job s h) (run_due-Adds due (run_one job s).1 hs)

  abbrev pub due_count : ℕ → Option (ScheduledJob S) → ℕ
  due_count now none = 0
  due_count now (some job) = if is_due now job then 1 else 0

  abbrev pub advanced : ℕ → Option (ScheduledJob S) → Option (ScheduledJob S)
  advanced now none = none
  advanced now (some job) = some (if is_due now job then moved now job else job)

  due_jobs-due_count :
      (now : ℕ) (k : String) (jobs : Dict (ScheduledJob S))
      → NodupKeys jobs
      → IsNamed jobs
      → count_named k (due_jobs now jobs) ≡ due_count now (get k jobs)
  unfolding due_jobs get
  due_jobs-due_count now k [] u n = refl
  due_jobs-due_count now k ((j, job) ∷ jobs) (fresh, u) (h, n) =
      ground (arith, due_jobs-due_count now k jobs u n, eq_iff j k, eq_iff job.name k)

  get-advance :
      (now : ℕ) (k : String) (jobs : Dict (ScheduledJob S))
      → get k (advance now jobs) ≡ advanced now (get k jobs)
  unfolding advance get
  get-advance now k [] = refl
  get-advance now k ((j, job) ∷ jobs) = ground (arith, get-advance now k jobs)

  due_jobs-IsOrdinary :
      (now : ℕ) (jobs : Dict (ScheduledJob S))
      → AllOrdinary jobs
      → All IsOrdinary (due_jobs now jobs)
  unfolding due_jobs
  due_jobs-IsOrdinary now [] h = tt
  due_jobs-IsOrdinary now ((k, job) ∷ jobs) (h, hs) =
      choose (is_due now job) (due_jobs now jobs) (due_jobs-IsOrdinary now jobs hs)
    where
      choose :
          (c : Bool) (rest : List (ScheduledJob S))
          → All IsOrdinary rest
          → All IsOrdinary (if c then job ∷ rest else rest)
      choose true rest r = (h, r)
      choose false rest r = r

  -- What the table of a scheduler keeps: a key once, each job under its name, and no job that
  -- would end the thread.
  abbrev pub IsScheduled : Dict (ScheduledJob S) → Type 0
  IsScheduled jobs = NodupKeys jobs × IsNamed jobs × AllOrdinary jobs

  advance-IsScheduled :
      (now : ℕ) (jobs : Dict (ScheduledJob S)) → IsScheduled jobs → IsScheduled (advance now jobs)
  unfolding advance
  advance-IsScheduled now [] (u, n, o) = (tt, tt, tt)
  advance-IsScheduled now ((k, job) ∷ jobs) ((fresh, u), (e, n), (h, o)) =
      let (u', n', o') = advance-IsScheduled now jobs (u, n, o) in
      (
        (get-advance now k jobs ∙ ap (advanced now) fresh, u'),
        (choice_name (is_due now job), n'),
        (choice_func (is_due now job), o'),
      )
    where
      choice_name : (c : Bool) → (if c then moved now job else job).name ≡ k
      choice_name true = e
      choice_name false = e

      choice_func : (c : Bool) → IsOrdinary (if c then moved now job else job)
      choice_func true = h
      choice_func false = h

  -- One round: no exception of a job ends it. Each enabled job whose deadline has come runs once,
  -- and its next deadline is the time of the round plus its interval; any other job does not run and
  -- stays as it is.
  pub tick_lem :
      (now : ℕ) (s : Scheduler S) (k : String)
      → IsScheduled s.jobs
      → ((tick now s).0 ≡ returned tt)
        × (get k (tick now s).1.jobs ≡ advanced now (get k s.jobs))
        × (runs k (tick now s).1.published ≡ runs k s.published + due_count now (get k s.jobs))
        × ((tick now s).1.stop_event ≡ s.stop_event)
        × IsScheduled (tick now s).1.jobs
  unfolding tick
  tick_lem now s k (u, n, o) =
      let s1 : Scheduler S = record s { jobs = advance now s.jobs } in
      let (r, j, e, c) = run_due-Adds (due_jobs now s.jobs) s1 (due_jobs-IsOrdinary now s.jobs o) in
      (
        r,
        ap (get k) j ∙ get-advance now k s.jobs,
        c k ∙ ap (λ n. runs k s.published + n) (due_jobs-due_count now k s.jobs u n),
        e,
        subst IsScheduled (sym j) (advance-IsScheduled now s.jobs (u, n, o)),
      )
