-- ===== src/Atlas/Router.antt =====
-- src/primal_ai/atlas/router.py: selectors, routing decisions and `route`.
pub mod Invoke
use primal_core.Base.{
  ℕ, ◌+◌, String, Bool, true, false, Option, none, some, List, [], ◌∷◌, ◌++◌, map, not, ◌||◌,
  Outcome, returned, raised, base_exception, if◌then◌else◌, is_none, keep, get_or,
}
use primal_core.Base.Dict.{Dict}
use primal_core.Atlas.Health.{is_healthy, record_success, record_failure}
use primal_core.Atlas.Provider.{
  Provider, Bandit, BanditOutcome, Override, no_override, by_name, by_instance, Context,
  RoutingStatus, success, no_candidates, all_unhealthy, SkipReason, Reason, no_match,
  none_registered, every_in_cooldown, no_choice, RoutingDecision, has_capability, has_tag,
}
use primal_core.Atlas.Registry.{
  ProviderRegistry, get_provider, get_health, all_providers, update_health,
}
use primal_core.Atlas.State.{
  Atlas, routing_decided, decision_step, publish, add_step, resolve_selector, safe_update,
}

module _ {V B : Type 0} where
  -- `Atlas.set_selector` with `None`, a name, or a selector.
  unfoldable pub set_selector : Override B → Atlas V B → Outcome (Unit {0}) × Atlas V B
  set_selector no_override a = (returned tt, record a { active_selector = none })
  set_selector (by_instance s) a = (returned tt, record a { active_selector = some s })
  set_selector (by_name n) a =
      let (r, a') = resolve_selector n a in
      elim r [
        | returned s ↦ (returned tt, record a' { active_selector = some s })
        | raised e ↦ (raised e, a')
      ]

  unfoldable pub feedback : BanditOutcome → Atlas V B → Outcome (Unit {0}) × Atlas V B
  feedback o a = safe_update a.active_selector o a

  unfoldable pub resolve_selector_for_call :
      Context B → Atlas V B → Outcome (Option (Bandit B)) × Atlas V B
  resolve_selector_for_call ctx a = elim ctx.selector [
    | no_override ↦ (returned a.active_selector, a)
    | by_instance s ↦ (returned (some s), a)
    | by_name n ↦
        let (r, a') = resolve_selector n a in
        elim r [ returned s ↦ (returned (some s), a') | raised e ↦ (raised e, a') ]
  ]

-- The loops of steps 2 and 3: a provider is kept, or left out with a reason.
module _ {V : Type 0} (test : Provider V → Option SkipReason) where
  unfoldable pub survivors : List (Provider V) → List (Provider V)
  survivors [] = []
  survivors (p ∷ ps) = let rest = survivors ps in if is_none (test p) then p ∷ rest else rest

  unfoldable pub rejected : List (Provider V) → List (String × SkipReason)
  rejected [] = []
  rejected (p ∷ ps) = elim (test p) [ none ↦ rejected ps | some r ↦ (p.name, r) ∷ rejected ps ]

module _ {V : Type 0} where
  unfoldable pub capability_test : Option String → Provider V → Option SkipReason
  capability_test none p = none
  capability_test (some c) p =
      if has_capability p.info c then none else some (SkipReason.no_capability c)

  unfoldable pub tags_test : List String → Provider V → Option SkipReason
  tags_test tags p = elim (keep (λ t. not (has_tag p.info t)) tags) [
    | [] ↦ none
    | t ∷ ts ↦ some (SkipReason.missing_tags (t ∷ ts))
  ]

  unfoldable pub health_test : ProviderRegistry V → ℕ → Provider V → Option SkipReason
  health_test r now p = elim (get_health p.name r) [
    | none ↦ none
    | some h ↦ if is_healthy now h then none else some SkipReason.unhealthy
  ]

  -- Step 1 for a list of names: the registered ones, and the others with a reason.
  unfoldable pub lookup_all : ProviderRegistry V → List String → List (Provider V)
  lookup_all r [] = []
  lookup_all r (n ∷ ns) = elim (get_provider n r) [
    | none ↦ lookup_all r ns
    | some p ↦ p ∷ lookup_all r ns
  ]

  unfoldable pub unregistered : ProviderRegistry V → List String → List (String × SkipReason)
  unregistered r [] = []
  unregistered r (n ∷ ns) =
      let rest = unregistered r ns in
      if is_none (get_provider n r) then (n, SkipReason.not_registered) ∷ rest else rest

  unfoldable pub initial_pool : ProviderRegistry V → Option (List String) → List (Provider V)
  initial_pool r none = all_providers r
  initial_pool r (some names) = lookup_all r names

  unfoldable pub considered : ProviderRegistry V → Option (List String) → List String
  considered r none = map (λ p. p.name) (all_providers r)
  considered r (some names) = names

  unfoldable pub initial_skipped :
      ProviderRegistry V → Option (List String) → List (String × SkipReason)
  initial_skipped r none = []
  initial_skipped r (some names) = unregistered r names

abbrev pub is_nonempty {ℓ} : {A : Type ℓ} → List A → Bool
is_nonempty [] = false
is_nonempty (_ ∷ _) = true

-- `candidates is not None or capability is not None or tags`
unfoldable pub has_filter : {B : Type 0} → Option (List String) → Context B → Bool
has_filter candidates ctx =
    not (is_none candidates) || (not (is_none ctx.capability) || is_nonempty ctx.tags)

-- What step 4 sets: the chosen name, the status, the reason and the selector's name.
pub record Pick : Type 0 where
  pub chosen : Option String
  pub status : RoutingStatus
  pub reason : Option Reason
  pub selector_name : Option String

-- The outcome of the selector that step 4 asks.
unfoldable pub pick_of_choice : String → Option String → Pick
pick_of_choice name none = record {
  chosen = none;
  status = no_candidates;
  reason = some (no_choice name);
  selector_name = some name;
}
pick_of_choice name (some p) = record {
  chosen = some p;
  status = success;
  reason = none;
  selector_name = some name;
}

module _ {V B : Type 0} where
  -- The `if` ladder of step 4, on the pool, on its healthy part and on the selector.
  unfoldable pub pick :
      List (Provider V)
      → List (Provider V)
      → Option (Bandit B)
      → Bool
      → Context B
      → B
      → Outcome Pick × B
  pick [] healthy s filtered ctx arms = (
    returned (record {
      chosen = none;
      status = no_candidates;
      reason = some (if filtered then no_match else none_registered);
      selector_name = none;
    }),
    arms,
  )
  pick (q ∷ qs) [] s filtered ctx arms = (
    returned (record {
      chosen = none;
      status = all_unhealthy;
      reason = some every_in_cooldown;
      selector_name = none;
    }),
    arms,
  )
  pick (q ∷ qs) (p ∷ ps) none filtered ctx arms = (
    returned
        (record { chosen = some p.name; status = success; reason = none; selector_name = none }),
    arms,
  )
  pick (q ∷ qs) (p ∷ ps) (some s) filtered ctx arms =
      let (r, arms') = s.select (map (λ q. q.name) (p ∷ ps)) ctx.bandit_context_key arms in
      elim r [
        | returned choice ↦ (returned (pick_of_choice s.name choice), arms')
        | raised e ↦ (raised e, arms')
      ]

  -- The pools after steps 1, 2 and 3.
  unfoldable pub matching : Option (List String) → Context B → Atlas V B → List (Provider V)
  matching candidates ctx a =
      survivors (tags_test ctx.tags)
        (survivors (capability_test ctx.capability) (initial_pool a.registry candidates))

  unfoldable pub healthy_pool : Option (List String) → Context B → Atlas V B → List (Provider V)
  healthy_pool candidates ctx a =
      survivors (health_test a.registry a.now) (matching candidates ctx a)

  -- `candidates_skipped`, in the order of the rejections.
  unfoldable pub all_skipped :
      Option (List String) → Context B → Atlas V B → List (String × SkipReason)
  all_skipped candidates ctx a =
      let pool = initial_pool a.registry candidates in
      let capable = survivors (capability_test ctx.capability) pool in
      initial_skipped a.registry candidates
      ++ (rejected (capability_test ctx.capability) pool
          ++ (rejected (tags_test ctx.tags) capable
              ++ rejected (health_test a.registry a.now) (matching candidates ctx a)))

  -- `Atlas._decide`; a selector that is unknown, or raises, raises here.
  unfoldable pub decide :
      String
      → Option (List String)
      → Context B
      → Atlas V B
      → Outcome (RoutingDecision B) × Atlas V B
  decide task candidates ctx a =
      let (sel, a') = resolve_selector_for_call ctx a in
      elim sel [
        | raised e ↦ (raised e, a')
        | returned s ↦
            let (picked, arms) =
              pick (matching candidates ctx a) (healthy_pool candidates ctx a) s
                (has_filter candidates ctx) ctx a'.bandits in
            let a'' = record a' { bandits = arms } in
            elim picked [
              | raised e ↦ (raised e, a'')
              | returned k ↦ (
                returned (record {
                  task = task;
                  chosen_provider = k.chosen;
                  candidates_considered = considered a.registry candidates;
                  candidates_skipped = all_skipped candidates ctx a;
                  status = k.status;
                  reason = k.reason;
                  context = ctx;
                  selector_name = k.selector_name;
                }),
                a'',
              )
            ]
      ]

  unfoldable pub record_routing_decision : RoutingDecision B → Atlas V B → Atlas V B
  record_routing_decision d a = add_step (decision_step d) (publish (routing_decided d) a)

  -- `decision.chosen_provider or ""`
  unfoldable pub route :
      String → Option (List String) → Context B → Atlas V B → Outcome String × Atlas V B
  route task candidates ctx a =
      let (r, a') = decide task candidates ctx a in
      elim r [
        | raised e ↦ (raised e, a')
        | returned d ↦ (returned (get_or d.chosen_provider ""), record_routing_decision d a')
      ]
