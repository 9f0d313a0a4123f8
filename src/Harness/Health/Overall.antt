-- ===== src/Harness/Health/Overall.antt =====
-- What `overall_status` of src/primal_ai/harness/health.py says of checks that raise.
use primal_core.Base.{
  ℕ, ◌≤◌, ◌≡◌, refl, ap, ◌⊎◌, ◌++◌, ◌∙◌, sym, subst, String, Bool, none, some, List, [], ◌∷◌,
  Outcome, returned, raised, violation, exception, base_exception, if◌then◌else◌, ltb, str_eq,
  eq_iff, arith, Bool-cases, inl, inr,
}
use primal_core.Base.Dict.{Dict, get, put, values, get-put, NodupKeys}
use primal_core.Base.Int.{ℤ}
use primal_core.Guardian.Policy.{and_then}
use primal_core.Harness.Health.{
  HealthStatus, healthy, degraded, unhealthy, unknown, status_order, HealthCheck, HealthCheckFn,
  HealthMonitor, converted, run_published, run_checks, run_all, worst_from, worst_status,
  overall_status,
}

abbrev pub severity : HealthCheck → ℕ
severity c = status_order c.status

abbrev louder : HealthCheck → HealthCheck → HealthCheck
louder c d = if ltb (severity c) (severity d) then d else c

louder-le :
    (c d : HealthCheck)
    → (severity c ≤ severity (louder c d)) × (severity d ≤ severity (louder c d))
louder-le c d = elim (Bool-cases (ltb (severity c) (severity d))) [
  | inl e ↦ rw e (ground (arith, e), omega arith)
  | inr e ↦ rw e (omega arith, ground (arith, e))
]

worst_from-le : (c : HealthCheck) (cs : List HealthCheck) → severity c ≤ severity (worst_from c cs)
worst_from-le c [] = omega arith
worst_from-le c (d ∷ ds) = omega (arith, worst_from-le (louder c d) ds, louder-le c d)

worst_from-values :
    (k : String) (first c : HealthCheck) (d : Dict HealthCheck)
    → get k d ≡ some c
    → severity c ≤ severity (worst_from first (values d))
unfolding get values
worst_from-values k first c [] h = cc
worst_from-values k first c ((j, x) ∷ d) h = elim (Bool-cases (str_eq j k)) [
  | inl e ↦
      let found : some x ≡ some c = sym (ap (λ b. if b then some x else get k d) e) ∙ h in
      let same : x ≡ c = cc found in
      subst (λ y. severity y ≤ severity (worst_from (louder first x) (values d))) same
        (omega (arith, worst_from-le (louder first x) (values d), louder-le first x))
  | inr e ↦
      worst_from-values k (louder first x) c d (sym (ap (λ b. if b then some x else get k d) e) ∙ h)
]

worst_status-values :
    (k : String) (c : HealthCheck) (d : Dict HealthCheck)
    → get k d ≡ some c
    → severity c ≤ status_order (worst_status (values d))
unfolding get values
worst_status-values k c [] h = cc
worst_status-values k c ((j, x) ∷ d) h = elim (Bool-cases (str_eq j k)) [
  | inl e ↦
      let found : some x ≡ some c = sym (ap (λ b. if b then some x else get k d) e) ∙ h in
      let same : x ≡ c = cc found in
      subst (λ y. severity y ≤ severity (worst_from x (values d))) same (worst_from-le x (values d))
  | inr e ↦ worst_from-values k x c d (sym (ap (λ b. if b then some x else get k d) e) ∙ h)
]

most_severe : (st : HealthStatus) → 3 ≤ status_order st → st ≡ unhealthy
most_severe healthy h = absurd (omega arith)
most_severe degraded h = absurd (omega arith)
most_severe unhealthy h = refl
most_severe unknown h = absurd (omega arith)

-- What a check never does: raise what `except Exception` lets through; and one that always raises
abbrev pub IsCaught : Outcome HealthCheck → Type 0
IsCaught (raised (base_exception cls message)) = ⊥
IsCaught _ = Unit

abbrev pub IsRaised : Outcome HealthCheck → Type 0
IsRaised (raised (violation v)) = Unit
IsRaised (raised (exception cls message)) = Unit
IsRaised _ = ⊥

module _ {S : Type 0} where
  abbrev pub AllCaught : Dict (HealthCheckFn S) → Type 0
  AllCaught [] = Unit
  AllCaught ((k, check) ∷ checks) = ((s : S) → IsCaught (check s).0.0) × AllCaught checks

module _ {S : Type 0} (wall : S → ℤ) (trace : S → String) where
  -- A check that is caught is answered, and one that raised is UNHEALTHY.
  run_published-answers :
      (name : String) (check : HealthCheckFn S) (m : HealthMonitor S)
      → IsCaught (check m.state).0.0
      → (c : HealthCheck) × (m' : HealthMonitor S) × (run_published wall trace name check m
          ≡ (returned c, m'))
        × (IsRaised (check m.state).0.0 → c.status ≡ unhealthy)
  unfolding run_published
  run_published-answers name check m h = go (check m.state) h
    where
      go :
          (o : (Outcome HealthCheck × ℤ) × S)
          → IsCaught o.0.0
          → (c : HealthCheck) × (m' : HealthMonitor S) × (and_then
                (converted wall trace name o.0 o.1, record m { state = o.1 })
                (λ c m'. (returned c, record m' { published = m'.published ++ (c ∷ []) }))
              ≡ (returned c, m'))
            × (IsRaised o.0.0 → c.status ≡ unhealthy)
      go ((returned c, t), s) h = (c, _, refl, λ r. absurd r)
      go ((raised (violation v), t), s) h = (_, _, refl, λ r. refl)
      go ((raised (exception cls x), t), s) h = (_, _, refl, λ r. refl)
      go ((raised (base_exception cls x), t), s) h = absurd h

  -- Where the result of a check that always raises is to be found: it is still to be run, or it is
  -- among the results.
  abbrev Found : String → HealthCheckFn S → Dict (HealthCheckFn S) → Dict HealthCheck → Type 0
  Found k check checks results =
      (get k checks ≡ some check)
      ⊎ ((get k checks ≡ none)
          × ((c : HealthCheck) × (get k results ≡ some c) × (c.status ≡ unhealthy)))

  Found-next :
      (k j : String) (check x : HealthCheckFn S) (checks : Dict (HealthCheckFn S))
      (results : Dict HealthCheck) (c : HealthCheck)
      → get j checks ≡ none
      → (x ≡ check → c.status ≡ unhealthy)
      → Found k check ((j, x) ∷ checks) results
      → Found k check checks (put j c results)
  unfolding get
  Found-next k j check x checks results c fresh bad found =
      let head = λ (b : Bool). if b then some x else get k checks in
      let put_there = λ (b : Bool). if b then some c else get k results in
      elim (Bool-cases (str_eq j k)) [
        | inl e ↦ elim found [
          | inl f ↦
              let same : some x ≡ some check = sym (ap head e) ∙ f in
              inr (
                subst (λ i. get i checks ≡ none) ((eq_iff j k).0 e) fresh,
                (c, get-put j k c results ∙ ap put_there e, bad (cc same)),
              )
          | inr (absent, there) ↦ let clash : some x ≡ none = sym (ap head e) ∙ absent in cc clash
        ]
        | inr e ↦ elim found [
          | inl f ↦ inl (sym (ap head e) ∙ f)
          | inr (absent, (c0, g, st)) ↦
              inr (sym (ap head e) ∙ absent, (c0, get-put j k c results ∙ ap put_there e ∙ g, st))
        ]
      ]

  run_checks-answers :
      (checks : Dict (HealthCheckFn S)) (results : Dict HealthCheck) (m : HealthMonitor S)
      (k : String) (check : HealthCheckFn S)
      → NodupKeys checks
      → AllCaught checks
      → ((s : S) → IsRaised (check s).0.0)
      → Found k check checks results
      → (res : Dict HealthCheck) × ((run_checks wall trace checks results m).0 ≡ returned res)
        × ((c : HealthCheck) × (get k res ≡ some c) × (c.status ≡ unhealthy))
  unfolding run_checks get
  run_checks-answers [] results m k check u h r (inl found) = cc found
  run_checks-answers [] results m k check u h r (inr (absent, c)) = (results, refl, c)
  run_checks-answers ((j, x) ∷ checks) results m k check (fresh, u) (h, hs) r found =
      let (c, m', e, bad) = run_published-answers j x m (h m.state) in
      let (res, done, there) = run_checks-answers checks (put j c results) m' k check u hs r (
        Found-next k j check x checks results c fresh
          (λ same. bad (subst (λ y. IsRaised (y m.state).0.0) (sym same) (r m.state))) found) in
      (
        res,
        ap (λ o. (and_then o (λ c m'. run_checks wall trace checks (put j c results) m')).0) e
            ∙ done,
        there,
      )

  -- When every check returns or raises an `Exception`, and one of them always raises, the overall
  -- status is returned and is UNHEALTHY, whatever the others say.
  pub overall_status_raising :
      (m : HealthMonitor S) (k : String) (check : HealthCheckFn S)
      → NodupKeys m.checks
      → AllCaught m.checks
      → get k m.checks ≡ some check
      → ((s : S) → IsRaised (check s).0.0)
      → (overall_status wall trace m).0 ≡ returned unhealthy
  unfolding overall_status
  overall_status_raising m k check u h found r =
      let (res, done, (c, there, bad)) =
        run_checks-answers m.checks [] m k check u h r (inl found) in
      let o = run_all wall trace m in
      ap (λ x. (and_then (x, o.1) (λ results m'. (returned (worst_status (values results)), m'))).0)
        done
      ∙ ap returned (
          most_severe (worst_status (values res)) (
            subst (λ st. status_order st ≤ status_order (worst_status (values res))) bad
              (worst_status-values k c res there)))
