-- ===== src/Atlas/Cascade/Cooling.antt =====
-- How the attempts of atlas/cascade.py change the health records: a cooldown that doubles, and
-- attempts that leave everything alone.
use primal_core.Base.{
  ◌+◌, ◌*◌, ◌<◌, ℕ, ◌^◌, min, String, ◌≡◌, ◌≢◌, true, some, List, [], ◌∷◌, arith, Outcome, returned,
  raised, Outcome-cases, Option-cases, inl, inr, all, eq_iff, get_or,
}
use primal_core.Base.Dict.{Dict, put, get-put}
use primal_core.Atlas.Health.{ProviderHealth, record_failure}
use primal_core.Atlas.Provider.{Context, failed, all_unhealthy}
use primal_core.Atlas.Registry.{get_provider, get_health, update_health}
use primal_core.Atlas.State.{
  with_registry, Atlas, Attempt, CascadeResult, publish, add_step, safe_update, cascade_started,
}
use primal_core.Atlas.Cascade.{
  Cascade, cooldown, is_all_unhealthy, publish_attempt, apply_exponential_cooldown, finish_attempt,
  call_provider, try_provider, try_each, result_of, finish_run, run,
}
use primal_core.Atlas.Cascade.Attempts.{final_status-all_unhealthy}

-- The cooldown, which is there as long as the power can be converted to a float.
abbrev backoff : Cascade → ProviderHealth → ℕ
backoff c h = min (c.base_cooldown * 2 ^ h.consecutive_failures) c.max_cooldown

cooldown-returned :
    (c : Cascade) (h : ProviderHealth) (wait : ℕ)
    → cooldown c h.consecutive_failures ≡ returned wait
    → (wait ≡ backoff c h) × (h.consecutive_failures < 1024)
unfolding cooldown
cooldown-returned c h wait e = ground arith

module _ {V B : Type 0} where
  -- What an attempt that only publishes leaves as it was.
  record SameState (a a' : Atlas V B) : Type 0 where
    registry : a'.registry ≡ a.registry
    bandits : a'.bandits ≡ a.bandits
    now : a'.now ≡ a.now

  cooling_attempt :
      (c : Cascade) (name task : String) (kwargs : Dict V) (ctx : Context B) (a : Atlas V B)
      {t : Attempt V}
      → (try_provider c name task kwargs ctx a).0 ≡ returned t
      → t.status ≡ all_unhealthy
      → SameState a (try_provider c name task kwargs ctx a).1
  unfolding try_provider call_provider finish_attempt publish_attempt publish
  cooling_attempt c name task kwargs ctx a e s = ground arith

  cooling_attempts :
      (c : Cascade) (task : String) (kwargs : Dict V) (ctx : Context B) (ns : List String)
      (a : Atlas V B) (ts : List (Attempt V))
      → (try_each c task kwargs ctx ns a).0 ≡ returned ts
      → all (λ t. is_all_unhealthy t.status) ts ≡ true
      → SameState a (try_each c task kwargs ctx ns a).1
  unfolding try_each
  cooling_attempts c task kwargs ctx [] a ts e s = ground arith
  cooling_attempts c task kwargs ctx (n ∷ ns) a [] e s = ground arith
  cooling_attempts c task kwargs ctx (n ∷ ns) a (t ∷ ts) e s = ground (
    arith,
    cooling_attempt c n task kwargs ctx a {t = t},
    cooling_attempts c task kwargs ctx ns (try_provider c n task kwargs ctx a).1 ts,
  )

  -- A cascade that returns ALL_UNHEALTHY has called no provider: the registry with its health
  -- records, the selectors' arms and the clock are as they were.
  pub run_all_unhealthy_untouched :
      (c : Cascade) (task : String) (kwargs : Dict V) (ctx : Context B) (a : Atlas V B)
      {res : CascadeResult V}
      → (run c task kwargs ctx a).0 ≡ returned res
      → res.status ≡ all_unhealthy
      → let a' = (run c task kwargs ctx a).1 in
        (a'.registry ≡ a.registry) × (a'.bandits ≡ a.bandits) × (a'.now ≡ a.now)
  unfolding run finish_run add_step publish result_of
  run_all_unhealthy_untouched c task kwargs ctx a {res} e s =
      let start = publish (cascade_started c.providers) a in
      elim (Outcome-cases (try_each c task kwargs ctx c.providers start).0) [
        | inl (ts, tried) ↦ ground (
          arith,
          tried,
          (final_status-all_unhealthy ts).0,
          cooling_attempts c task kwargs ctx c.providers start ts tried,
        )
        | inr (x, stopped) ↦ absurd (ground (arith, stopped))
      ]

  benched :
      (c : Cascade) (name : String) (a : Atlas V B) (h : ProviderHealth) {u : Unit {0}}
      → (apply_exponential_cooldown c name a).0 ≡ returned u
      → get_health name a.registry ≡ some h
      → ((apply_exponential_cooldown c name a).1
          ≡ with_registry (update_health name (record_failure a.now (backoff c h))) a)
        × (h.consecutive_failures < 1024)
  unfolding apply_exponential_cooldown
  benched c name a h {u} e th = elim (Outcome-cases (cooldown c h.consecutive_failures)) [
    | inl (wait, ok) ↦
        let (same, small) = cooldown-returned c h wait ok in (ground (arith, th, ok, same), small)
    | inr (x, overflow) ↦ absurd (ground (arith, th, overflow))
  ]

  failed_call :
      (c : Cascade) (name key : String) (out : Outcome V) (a : Atlas V B) (h : ProviderHealth)
      {t : Attempt V}
      → (finish_attempt c name key out a).0 ≡ returned t
      → t.status ≡ failed
      → get_health name a.registry ≡ some h
      → let a' = (finish_attempt c name key out a).1 in
        (a'.registry.health ≡ put name (record_failure a.now (backoff c h) h) a.registry.health)
        × (h.consecutive_failures < 1024)
        × (a'.now ≡ a.now)
        × (a'.registry.providers ≡ a.registry.providers)
  unfolding finish_attempt publish_attempt publish update_health get_health safe_update
  failed_call c name key (returned v) a h e s th = ground arith
  failed_call c name key (raised x) a h e s th =
      elim (Outcome-cases (apply_exponential_cooldown c name a).0) [
        | inl (u, ok) ↦ ground (arith, ok, benched c name a h ok th)
        | inr (y, stopped) ↦ absurd (ground (arith, stopped))
      ]

  failed_attempt_records :
      (c : Cascade) (name task : String) (kwargs : Dict V) (ctx : Context B) (a : Atlas V B)
      (h : ProviderHealth) {t : Attempt V}
      → (try_provider c name task kwargs ctx a).0 ≡ returned t
      → t.status ≡ failed
      → get_health name a.registry ≡ some h
      → let a' = (try_provider c name task kwargs ctx a).1 in
        (a'.registry.health ≡ put name (record_failure a'.now (backoff c h) h) a.registry.health)
        × (h.consecutive_failures < 1024)
        × (a'.registry.providers ≡ a.registry.providers)
  unfolding try_provider call_provider get_health
  failed_attempt_records c name task kwargs ctx a h {t} e s th =
      elim (Option-cases (get_provider name a.registry)) [
        | inl absent ↦ ground arith
        | inr (p, found) ↦
            let (out, elapsed) = p.call task kwargs a.now in
            ground (
              arith,
              found,
              failed_call c name (get_or ctx.bandit_context_key "") out
                  (record a { now = a.now + elapsed }) h {t = t},
            )
      ]

  -- A provider whose attempt under the cascade returns FAILED is benched: its failures and calls
  -- go up by one, and its cooldown ends min(base * 2 ^ n, max) after the failure, n being its
  -- failures in a row before, which are then fewer than 1024. Every other provider's record, and the
  -- providers themselves, stay.
  pub failed_attempt_benches :
      (c : Cascade) (name task : String) (kwargs : Dict V) (ctx : Context B) (a : Atlas V B)
      (h : ProviderHealth) {t : Attempt V}
      → (try_provider c name task kwargs ctx a).0 ≡ returned t
      → t.status ≡ failed
      → get_health name a.registry ≡ some h
      → let a' = (try_provider c name task kwargs ctx a).1 in
        (get_health name a'.registry
          ≡ some (record {
            consecutive_failures = h.consecutive_failures + 1;
            total_calls = h.total_calls + 1;
            total_failures = h.total_failures + 1;
            cooldown_until =
                a'.now + min (c.base_cooldown * 2 ^ h.consecutive_failures) c.max_cooldown;
          }))
        × (h.consecutive_failures < 1024)
        × ((n : String) → n ≢ name → get_health n a'.registry ≡ get_health n a.registry)
        × (a'.registry.providers ≡ a.registry.providers)
  unfolding get_health record_failure
  failed_attempt_benches c name task kwargs ctx a h e s th =
      let (stored, small, same) = failed_attempt_records c name task kwargs ctx a h e s th in
      let h' = (record_failure (try_provider c name task kwargs ctx a).1.now (backoff c h) h) in
      (
        ground (arith, stored, get-put name name h' a.registry.health, eq_iff name name),
        small,
        λ n ne. ground (arith, stored, get-put name n h' a.registry.health, eq_iff name n),
        same,
      )
