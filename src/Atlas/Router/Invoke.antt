-- ===== src/Atlas/Router/Invoke.antt =====
-- src/primal_ai/atlas/router.py: `Atlas.invoke`, which calls the chosen provider.
use primal_core.Base.{
  ℕ, ◌+◌, String, true, false, Option, none, some, List, Outcome, returned, raised, base_exception,
  get_or,
}
use primal_core.Base.Dict.{Dict}
use primal_core.Atlas.Health.{record_success, record_failure}
use primal_core.Base.Int.{pos}
use primal_core.Atlas.Provider.{Bandit, Context}
use primal_core.Atlas.Registry.{get_provider, get_health, update_health}
use primal_core.Guardian.Policy.{and_then}
use primal_core.Atlas.State.{Atlas, safe_update, with_registry}
use primal_core.Atlas.Router.{decide, record_routing_decision, resolve_selector_for_call}

-- `_DEFAULT_FAILURE_COOLDOWN_S`: 30 seconds, a tick being a millisecond.
abbrev pub default_failure_cooldown : ℕ
default_failure_cooldown = 30000

module _ {V B : Type 0} where
  -- The `try` of `invoke`, on how the provider's call ended; `except Exception` lets a
  -- `BaseException` through.
  unfoldable pub finish_invoke :
      String
      → Option (Bandit B)
      → String
      → Outcome V
      → Atlas V B
      → Outcome (String × Option V) × Atlas V B
  finish_invoke name s key (returned v) a =
      and_then
        (safe_update s
          (record { provider_name = name; success = true; reward = pos 1000000; context_key = key })
          (with_registry (update_health name record_success) a))
        (λ _ a1. (returned (name, some v), a1))
  finish_invoke name s key (raised (base_exception c m)) a = (raised (base_exception c m), a)
  finish_invoke name s key (raised e) a =
      and_then
        (safe_update s
          (record { provider_name = name; success = false; reward = pos 0; context_key = key })
          (with_registry (update_health name (record_failure a.now default_failure_cooldown)) a))
        (λ _ a1. (returned (name, none), a1))

  -- The body of `invoke` after the decision is recorded.
  unfoldable pub invoke_chosen :
      String
      → Dict V
      → Context B
      → Option String
      → Atlas V B
      → Outcome (String × Option V) × Atlas V B
  invoke_chosen task kwargs ctx none a = (returned ("", none), a)
  invoke_chosen task kwargs ctx (some name) a = elim (get_provider name a.registry) [
    | none ↦ (returned (name, none), a)
    | some p ↦ elim (get_health name a.registry) [
      | none ↦ (returned (name, none), a)
      | some h ↦
          let (sel, a') = resolve_selector_for_call ctx a in
          elim sel [
            | raised e ↦ (raised e, a')
            | returned s ↦
                let (out, elapsed) = p.call task kwargs a'.now in
                finish_invoke name s (get_or ctx.bandit_context_key "") out
                  (record a' { now = a'.now + elapsed })
          ]
    ]
  ]

  unfoldable pub invoke :
      String
      → Option (List String)
      → Dict V
      → Context B
      → Atlas V B
      → Outcome (String × Option V) × Atlas V B
  invoke task candidates kwargs ctx a =
      let (r, a') = decide task candidates ctx a in
      elim r [
        | raised e ↦ (raised e, a')
        | returned d ↦
            invoke_chosen task kwargs ctx d.chosen_provider (record_routing_decision d a')
      ]
