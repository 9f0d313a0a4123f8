-- ===== src/Atlas/Validity.antt =====
-- No call of the facade (router.py, cascade.py) breaks the invariant of the registry, whatever the
-- providers and the selectors do.
use primal_core.Guardian.Policy.{and_then}
use primal_core.Base.Int.{pos}
use primal_core.Atlas.Registry.{get_health, ProviderRegistry, update_health, get_provider}
use primal_core.Base.{
  ℕ, true, false, subst, sym, Outcome-cases, ◌+◌, String, ◌≡◌, refl, Option, none, some, List, [],
  ◌∷◌, arith, Outcome, returned, raised, Option-cases, inl, inr, base_exception, exception,
  violation, get_or,
}
use primal_core.Base.Dict.{Dict}
use primal_core.Atlas.Health.{ProviderHealth, record_success, record_failure}
use primal_core.Atlas.Provider.{
  Provider, Bandit, BanditOutcome, Context, RoutingDecision, success, failed,
}
use primal_core.Atlas.Registry.Valid.{
  IsValid, record_success-IsCounted, record_failure-IsCounted, update_health-IsValid,
}
use primal_core.Atlas.State.{
  Atlas, Attempt, with_registry, from_exc, publish, add_step, safe_update, resolve_selector,
  cascade_started, CascadeResult,
}
use primal_core.Atlas.Router.{decide, resolve_selector_for_call, record_routing_decision}
use primal_core.Atlas.Router.Invoke.{finish_invoke, invoke_chosen, invoke, default_failure_cooldown}
use primal_core.Atlas.Cascade.{
  Cascade, cooldown, publish_attempt, apply_exponential_cooldown, finish_attempt, call_provider,
  try_provider, try_each, finish_run, run, attempt_of,
}

module _ {V B : Type 0} where
  registry-safe_update :
      (s : Option (Bandit B)) (o : BanditOutcome) (a : Atlas V B)
      → (safe_update s o a).1.registry ≡ a.registry
  unfolding safe_update
  registry-safe_update none o a = refl
  registry-safe_update (some s) o a = refl

  registry-resolve :
      (ctx : Context B) (a : Atlas V B) → (resolve_selector_for_call ctx a).1.registry ≡ a.registry
  unfolding resolve_selector_for_call resolve_selector
  registry-resolve ctx a = ground arith

  registry-decide :
      (task : String) (candidates : Option (List String)) (ctx : Context B) (a : Atlas V B)
      → (decide task candidates ctx a).1.registry ≡ a.registry
  unfolding decide
  registry-decide task candidates ctx a = ground (arith, registry-resolve ctx a)

  registry-record :
      (d : RoutingDecision B) (a : Atlas V B) → (record_routing_decision d a).registry ≡ a.registry
  unfolding record_routing_decision add_step publish
  registry-record d a = ground arith

  registry-finish_run :
      (res : CascadeResult V) (a : Atlas V B) → (finish_run res a).registry ≡ a.registry
  unfolding finish_run add_step publish
  registry-finish_run res a = ground arith

-- What a success and a failure tell the selector
abbrev succeeded : String → String → BanditOutcome
succeeded name key = record {
  provider_name = name;
  success = true;
  reward = pos 1000000;
  context_key = key;
}

abbrev failed_with : String → String → BanditOutcome
failed_with name key = record {
  provider_name = name;
  success = false;
  reward = pos 0;
  context_key = key;
}

-- What holds of a registry and survives a recorded success and a recorded failure survives every
-- call of the facade.
module _ {V B : Type 0} (P : ProviderRegistry V → Type 0)
    (on_success : (name : String) (r : ProviderRegistry V)
      → P r
      → P (update_health name record_success r))
    (on_failure : (name : String) (now : ℕ) (wait : ProviderHealth → ℕ) (r : ProviderRegistry V)
      → P r
      → P (update_health name (λ h. record_failure now (wait h) h) r)) where
  keeps_and_then :
      {A C : Type 0} (r : Outcome A × Atlas V B) (k : A → Atlas V B → Outcome C × Atlas V B)
      → ((x : A) (a : Atlas V B) → P a.registry → P (k x a).1.registry)
      → P r.1.registry
      → P (and_then r k).1.registry
  keeps_and_then (returned x, a) k keeps v = keeps x a v
  keeps_and_then (raised e, a) k keeps v = v

  keeps_safe_update :
      (s : Option (Bandit B)) (o : BanditOutcome) (a : Atlas V B)
      → P a.registry
      → P (safe_update s o a).1.registry
  keeps_safe_update s o a v = subst P (sym (registry-safe_update s o a)) v

  keeps_cooldown :
      (c : Cascade) (name : String) (a : Atlas V B)
      → P a.registry
      → P (apply_exponential_cooldown c name a).1.registry
  unfolding apply_exponential_cooldown
  keeps_cooldown c name a v = elim (Option-cases (get_health name a.registry)) [
    | inl absent ↦ ground arith
    | inr (h, known) ↦ elim (Outcome-cases (cooldown c h.consecutive_failures)) [
      | inl (wait, ok) ↦
          rw (apply_exponential_cooldown, known, ok)
            (on_failure name a.now (λ h. wait) a.registry v)
      | inr (x, overflow) ↦ rw (apply_exponential_cooldown, known, overflow) v
    ]
  ]

  keeps_told :
      {C : Type 0} (s : Option (Bandit B)) (o : BanditOutcome) (a : Atlas V B)
      (k : Unit {0} → Atlas V B → Outcome C × Atlas V B)
      → ((x : Unit {0}) (a : Atlas V B) → (k x a).1.registry ≡ a.registry)
      → P a.registry
      → P (and_then (safe_update s o a) k).1.registry
  keeps_told s o a k same v =
      keeps_and_then (safe_update s o a) k (λ x a1 v1. subst P (sym (same x a1)) v1)
        (keeps_safe_update s o a v)

  keeps_failed :
      (c : Cascade) (name key : String) (t : Attempt V) (a : Atlas V B)
      → P a.registry
      → P
          (and_then (apply_exponential_cooldown c name a) (λ _ a1.
            and_then
              (safe_update a1.active_selector (failed_with name key) a1)
              (λ _ a2. (returned t, publish_attempt t a2)))).1.registry
  unfolding publish_attempt publish
  keeps_failed c name key t a v =
      keeps_and_then (apply_exponential_cooldown c name a)
        (λ _ a1.
          and_then (safe_update a1.active_selector (failed_with name key) a1)
            (λ _ a2. (returned t, publish_attempt t a2)))
        (λ _ a1 v1.
          keeps_told a1.active_selector (failed_with name key) a1
            (λ _ a2. (returned t, publish_attempt t a2)) (λ _ a2. refl) v1)
        (keeps_cooldown c name a v)

  keeps_finish_attempt :
      (c : Cascade) (name key : String) (out : Outcome V) (a : Atlas V B)
      → P a.registry
      → P (finish_attempt c name key out a).1.registry
  unfolding finish_attempt publish_attempt publish
  keeps_finish_attempt c name key (returned x) a v =
      keeps_told a.active_selector (succeeded name key)
        (with_registry (update_health name record_success) a)
        (λ _ a1.
          let t = attempt_of name success none (some x) in (returned t, publish_attempt t a1))
        (λ _ a1. refl) (on_success name a.registry v)
  keeps_finish_attempt c name key (raised (base_exception k m)) a v = v
  keeps_finish_attempt c name key (raised (violation x)) a v =
      keeps_failed c name key (attempt_of name failed (some (from_exc (violation x))) none) a v
  keeps_finish_attempt c name key (raised (exception k m)) a v =
      keeps_failed c name key (attempt_of name failed (some (from_exc (exception k m))) none) a v

  keeps_call_provider :
      (c : Cascade) (name task : String) (kwargs : Dict V) (key : String) (p : Provider V)
      (a : Atlas V B)
      → P a.registry
      → P (call_provider c name task kwargs key p a).1.registry
  unfolding call_provider
  keeps_call_provider c name task kwargs key p a v =
      let (out, elapsed) = p.call task kwargs a.now in
      keeps_finish_attempt c name key out (record a { now = a.now + elapsed }) v

  pub keeps_try_provider :
      (c : Cascade) (name task : String) (kwargs : Dict V) (ctx : Context B) (a : Atlas V B)
      → P a.registry
      → P (try_provider c name task kwargs ctx a).1.registry
  unfolding try_provider publish_attempt publish
  keeps_try_provider c name task kwargs ctx a v =
      elim (Option-cases (get_provider name a.registry)) [
        | inl absent ↦ ground arith
        | inr (p, found) ↦ ground (
          arith,
          found,
          keeps_call_provider c name task kwargs (get_or ctx.bandit_context_key "") p a v,
        )
      ]

  keeps_try_each :
      (c : Cascade) (task : String) (kwargs : Dict V) (ctx : Context B) (ns : List String)
      (a : Atlas V B)
      → P a.registry
      → P (try_each c task kwargs ctx ns a).1.registry
  unfolding try_each
  keeps_try_each c task kwargs ctx [] a v = v
  keeps_try_each c task kwargs ctx (n ∷ ns) a v =
      let step = keeps_try_provider c n task kwargs ctx a v in
      let rest = keeps_try_each c task kwargs ctx ns (try_provider c n task kwargs ctx a).1 step in
      ground (arith, step, rest)

  pub keeps_run :
      (c : Cascade) (task : String) (kwargs : Dict V) (ctx : Context B) (a : Atlas V B)
      → P a.registry
      → P (run c task kwargs ctx a).1.registry
  unfolding run publish
  keeps_run c task kwargs ctx a v =
      let loop =
        keeps_try_each c task kwargs ctx c.providers (publish (cascade_started c.providers) a) v in
      grind (arith, loop, registry-finish_run)

  keeps_finish_invoke :
      (name : String) (s : Option (Bandit B)) (key : String) (out : Outcome V) (a : Atlas V B)
      → P a.registry
      → P (finish_invoke name s key out a).1.registry
  unfolding finish_invoke
  keeps_finish_invoke name s key (returned x) a v =
      keeps_told s (succeeded name key) (with_registry (update_health name record_success) a)
        (λ _ a1. (returned (name, some x), a1)) (λ _ a1. refl) (on_success name a.registry v)
  keeps_finish_invoke name s key (raised (base_exception k m)) a v = v
  keeps_finish_invoke name s key (raised (violation x)) a v =
      keeps_told s (failed_with name key)
        (with_registry (update_health name (record_failure a.now default_failure_cooldown)) a)
        (λ _ a1. (returned (name, none), a1)) (λ _ a1. refl)
        (on_failure name a.now (λ h. default_failure_cooldown) a.registry v)
  keeps_finish_invoke name s key (raised (exception k m)) a v =
      keeps_told s (failed_with name key)
        (with_registry (update_health name (record_failure a.now default_failure_cooldown)) a)
        (λ _ a1. (returned (name, none), a1)) (λ _ a1. refl)
        (on_failure name a.now (λ h. default_failure_cooldown) a.registry v)

  keeps_invoke_chosen :
      (task : String) (kwargs : Dict V) (ctx : Context B) (chosen : Option String) (a : Atlas V B)
      → P a.registry
      → P (invoke_chosen task kwargs ctx chosen a).1.registry
  unfolding invoke_chosen
  keeps_invoke_chosen task kwargs ctx none a v = v
  keeps_invoke_chosen task kwargs ctx (some name) a v =
      elim (Option-cases (get_provider name a.registry)) [
        | inl absent ↦ ground arith
        | inr (p, found) ↦ grind (arith, found, keeps_finish_invoke, registry-resolve ctx a)
      ]

  pub keeps_invoke :
      (task : String) (candidates : Option (List String)) (kwargs : Dict V) (ctx : Context B)
      (a : Atlas V B)
      → P a.registry
      → P (invoke task candidates kwargs ctx a).1.registry
  unfolding invoke
  keeps_invoke task candidates kwargs ctx a v =
      grind (arith, keeps_invoke_chosen, registry-record, registry-decide task candidates ctx a)

module _ {V : Type 0} where
  success-IsValid :
      (name : String) (r : ProviderRegistry V)
      → IsValid r
      → IsValid (update_health name record_success r)
  success-IsValid name r v = update_health-IsValid name record_success r record_success-IsCounted v

  failure-IsValid :
      (name : String) (now : ℕ) (wait : ProviderHealth → ℕ) (r : ProviderRegistry V)
      → IsValid r
      → IsValid (update_health name (λ h. record_failure now (wait h) h) r)
  failure-IsValid name now wait r v =
      update_health-IsValid name (λ h. record_failure now (wait h) h) r
        (λ h. record_failure-IsCounted now (wait h) h) v

module _ {V B : Type 0} where
  -- Whatever the providers and the selectors do, a cascade keeps the registry valid.
  pub run-IsValid :
      (c : Cascade) (task : String) (kwargs : Dict V) (ctx : Context B) (a : Atlas V B)
      → IsValid a.registry
      → IsValid (run c task kwargs ctx a).1.registry
  run-IsValid = keeps_run IsValid success-IsValid failure-IsValid

  -- Whatever the providers and the selectors do, `invoke` keeps the registry valid.
  pub invoke-IsValid :
      (task : String) (candidates : Option (List String)) (kwargs : Dict V) (ctx : Context B)
      (a : Atlas V B)
      → IsValid a.registry
      → IsValid (invoke task candidates kwargs ctx a).1.registry
  invoke-IsValid = keeps_invoke IsValid success-IsValid failure-IsValid
