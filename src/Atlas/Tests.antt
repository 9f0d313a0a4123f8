-- ===== src/Atlas/Tests.antt =====
-- Runs of the Atlas model on small registries: the theorems on atlas/router.py, cascade.py and
-- _registry.py at concrete inputs.
use primal_core.Base.{
  ◌<◌, ℕ, ◌+◌, ◌*◌, ◌^◌, ◌≤◌, min, String, ◌≡◌, ◌≢◌, ◌↔◌, refl, true, Option, none, some, List, [],
  ◌∷◌, returned, raised, exception, keep,
}
use primal_core.Base.Dict.{get, put, values}
use primal_core.Atlas.Health.{
  ProviderHealth, new_health, is_healthy, record_success, record_failure,
}
use primal_core.Atlas.Provider.{
  ProviderInfo, Provider, Context, no_override, RoutingDecision, success, failed, has_capability,
  SkipReason,
}
use primal_core.Atlas.Registry.{
  ProviderRegistry, get_provider, get_health, all_providers, update_health,
}
use primal_core.Atlas.State.{
  Atlas, cascade_started, CascadeResult, from_exc, publish, add_step, safe_update,
}
use primal_core.Atlas.Router.{decide, initial_pool}
use primal_core.Atlas.Router.Invoke.{invoke}
use primal_core.Atlas.Choice.{is_eligible}
use primal_core.Atlas.Decisions.{first_name, decide_first_eligible}
use primal_core.Atlas.Cascade.{
  Cascade, cooldown, publish_attempt, apply_exponential_cooldown, finish_attempt, call_provider,
  try_provider, try_each, winner, final_status, result_of, finish_run, run, attempt_of,
}
use primal_core.Atlas.Cascade.Attempts.{Tells, run-Tells}
use primal_core.Atlas.Cascade.Answers.{IsAnswer}
use primal_core.Atlas.Cascade.Cooling.{failed_attempt_benches}
use primal_core.Atlas.Invocation.{invoke_failure}

abbrev info_of : String → ProviderInfo
info_of n = record { name = n; description = ""; capabilities = "chat" ∷ []; tags = [] }

abbrev steady : Provider ℕ
steady = record { name = "a"; info = info_of "a"; call = λ task kwargs now. (returned 7, 5) }

abbrev broken : Provider ℕ
broken = record {
  name = "b";
  info = info_of "b";
  call = λ task kwargs now. (raised (exception "RuntimeError" "down"), 5);
}

abbrev both : ProviderHealth → ProviderRegistry ℕ
both h = record {
  providers = ("b", broken) ∷ ("a", steady) ∷ [];
  health = ("b", h) ∷ ("a", h) ∷ [];
}

abbrev start : ProviderHealth → Atlas ℕ (Unit {0})
start h = record {
  registry = both h;
  active_selector = none;
  factories = [];
  bandits = tt;
  now = 100;
  events = [];
  trajectory = none;
}

abbrev chat : Context (Unit {0})
chat = record {
  capability = some "chat";
  tags = [];
  selector = no_override;
  bandit_context_key = none;
}

abbrev fallback : Cascade
fallback = record { providers = "b" ∷ "a" ∷ []; base_cooldown = 1000; max_cooldown = 60000 }

abbrev fell_back : CascadeResult ℕ
fell_back = record {
  attempts =
      ("b", failed, some (from_exc (exception "RuntimeError" "down"))) ∷ ("a", success, none) ∷ [];
  chosen = some "a";
  output = some 7;
  status = success;
}

abbrev begun : Atlas ℕ (Unit {0})
begun = publish (cascade_started ("b" ∷ "a" ∷ [])) (start new_health)

run-Tells_example :
    Tells
      ("b" ∷ "a" ∷ [])
      (try_each fallback "ask" [] chat ("b" ∷ "a" ∷ []) begun).0
      (IsAnswer "ask" [] begun.registry)
      fell_back
unfolding run try_each try_provider call_provider finish_attempt publish_attempt publish safe_update
    apply_exponential_cooldown get_provider get_health get put is_healthy update_health
    record_failure record_success result_of winner final_status finish_run add_step cooldown
run-Tells_example = run-Tells fallback "ask" [] chat (start new_health) {res = fell_back} refl

decide_first_eligible_example :
    (d : RoutingDecision (Unit {0})) × (decide "ask" none chat (start new_health)
      ≡ (returned d, start new_health))
    × (d.chosen_provider
        ≡ first_name
            (keep (is_eligible chat (start new_health)) (initial_pool (both new_health) none)))
decide_first_eligible_example = decide_first_eligible "ask" none chat (start new_health) refl refl

abbrev chosen_b : RoutingDecision (Unit {0})
chosen_b = record {
  task = "ask";
  chosen_provider = some "b";
  candidates_considered = "b" ∷ "z" ∷ [];
  candidates_skipped = ("z", SkipReason.not_registered) ∷ [];
  status = success;
  reason = none;
  context = chat;
  selector_name = none;
}

abbrev listed : Option (List String)
listed = some ("b" ∷ "z" ∷ [])

abbrev after_b : Atlas ℕ (Unit {0})
after_b = (try_provider fallback "b" "ask" [] chat (start new_health)).1

failed_attempt_benches_example :
    (get_health "b" after_b.registry
      ≡ some (record {
        consecutive_failures = 1;
        total_calls = 1;
        total_failures = 1;
        cooldown_until = after_b.now + min (1000 * 2 ^ 0) 60000;
      }))
    × (0 < 1024)
    × ((n : String) → n ≢ "b" → get_health n after_b.registry ≡ get_health n (both new_health))
    × (after_b.registry.providers ≡ (both new_health).providers)
unfolding try_provider call_provider finish_attempt publish_attempt publish get_provider get_health
    apply_exponential_cooldown cooldown safe_update get is_healthy
failed_attempt_benches_example =
    failed_attempt_benches fallback "b" "ask" [] chat (start new_health) new_health
      {t = attempt_of "b" failed (some (from_exc (exception "RuntimeError" "down"))) none} refl refl
      refl

invoke_failure_example :
    (h' : ProviderHealth) × ((invoke "ask" none [] chat (start new_health)).0
      ≡ returned ("b", none))
    × (get_health "b" (invoke "ask" none [] chat (start new_health)).1.registry ≡ some h')
    × ((t : ℕ) → (is_healthy t h' ≡ true) ↔ (100 + 5 + 30000 ≤ t))
unfolding initial_pool all_providers values get_provider get_health get has_capability is_healthy
invoke_failure_example =
    invoke_failure "ask" none [] chat "b" "RuntimeError" "down" broken new_health 5
      (start new_health) refl refl refl refl refl refl
