-- ===== src/Atlas/Invocation.antt =====
-- What `Atlas.invoke` of router.py does with the provider that the decision chose.
use primal_core.Base.{
  ℕ, ◌+◌, ◌≤◌, String, ◌≡◌, ◌↔◌, ◌∙◌, true, Option, none, some, List, arith, returned, raised,
  exception, keep, eq_iff,
}
use primal_core.Base.Dict.{Dict, get-put}
use primal_core.Atlas.Health.{ProviderHealth, is_healthy, record_failure}
use primal_core.Atlas.Provider.{Provider, Context, RoutingDecision, no_override}
use primal_core.Atlas.Registry.{update_health, get_provider, get_health}
use primal_core.Atlas.State.{Atlas, publish, add_step, safe_update}
use primal_core.Atlas.Router.{resolve_selector_for_call, record_routing_decision, initial_pool}
use primal_core.Atlas.Router.Invoke.{finish_invoke, invoke_chosen, invoke}
use primal_core.Atlas.Choice.{is_eligible}
use primal_core.Atlas.Decisions.{first_name, decide_first_eligible}

module _ {V B : Type 0} where
  failed_invocation :
      (task : String) (kwargs : Dict V) (ctx : Context B) (name k m : String) (p : Provider V)
      (h : ProviderHealth) (elapsed : ℕ) (a : Atlas V B)
      → ctx.selector ≡ no_override
      → a.active_selector ≡ none
      → get_provider name a.registry ≡ some p
      → get_health name a.registry ≡ some h
      → p.call task kwargs a.now ≡ (raised (exception k m), elapsed)
      → (h' : ProviderHealth) × ((invoke_chosen task kwargs ctx (some name) a).0
          ≡ returned (name, none))
        × (get_health name (invoke_chosen task kwargs ctx (some name) a).1.registry ≡ some h')
        × ((t : ℕ) → (is_healthy t h' ≡ true) ↔ (a.now + elapsed + 30000 ≤ t))
  unfolding invoke_chosen resolve_selector_for_call finish_invoke safe_update update_health
      get_health is_healthy record_failure
  failed_invocation task kwargs ctx name k m p h elapsed a s n e f g =
      let h' : ProviderHealth = record_failure (a.now + elapsed) 30000 h in
      (
        h',
        ground arith,
        ground (arith, get-put name name h' a.registry.health, eq_iff name name),
        λ t. ground arith,
      )

  recorded :
      (d : RoutingDecision B) (a : Atlas V B)
      → ((record_routing_decision d a).registry ≡ a.registry)
        × ((record_routing_decision d a).now ≡ a.now)
        × ((record_routing_decision d a).active_selector ≡ a.active_selector)
  unfolding record_routing_decision add_step publish
  recorded d a = ground arith

  -- Under deterministic routing, if the first eligible provider raises an `Exception`, `invoke`
  -- returns its name and `None`, and the provider is healthy again exactly from 30 seconds (30000
  -- ticks) after the failure on.
  pub invoke_failure :
      (task : String) (candidates : Option (List String)) (kwargs : Dict V) (ctx : Context B)
      (name k m : String) (p : Provider V) (h : ProviderHealth) (elapsed : ℕ) (a : Atlas V B)
      → ctx.selector ≡ no_override
      → a.active_selector ≡ none
      → first_name (keep (is_eligible ctx a) (initial_pool a.registry candidates)) ≡ some name
      → get_provider name a.registry ≡ some p
      → get_health name a.registry ≡ some h
      → p.call task kwargs a.now ≡ (raised (exception k m), elapsed)
      → (h' : ProviderHealth) × ((invoke task candidates kwargs ctx a).0 ≡ returned (name, none))
        × (get_health name (invoke task candidates kwargs ctx a).1.registry ≡ some h')
        × ((t : ℕ) → (is_healthy t h' ≡ true) ↔ (a.now + elapsed + 30000 ≤ t))
  unfolding invoke
  invoke_failure task candidates kwargs ctx name k m p h elapsed a s n first e f g =
      let (d, decided, chose) = decide_first_eligible task candidates ctx a s n in
      let (h', gives, stored, until) =
        failed_invocation task kwargs ctx name k m p h elapsed (record_routing_decision d a) s
          ((recorded d a).2 ∙ n) (rw (recorded d a).0 e) (rw (recorded d a).0 f)
          (rw (recorded d a).1 g) in
      (
        h',
        ground (arith, decided, chose, gives),
        ground (arith, decided, chose, stored),
        λ t. rw (recorded d a).1 at (until t),
      )
