-- ===== src/Atlas/State.antt =====
-- The state that the Atlas facade works on: the module's registry and selector slot of
-- src/primal_ai/atlas/router.py, the selector factories of atlas/bandit.py, the shared bus as the
-- list of what was published on it (latest first), and the active trajectory. The clock moves
-- where a provider runs; between two calls of providers its readings are one number.
use primal_core.Base.{
  ℕ,
  String,
  Option,
  none,
  some,
  List,
  ◌∷◌,
  Outcome,
  returned,
  raised,
  exception,
  base_exception,
  Exc,
  Dict.{Dict, get, put},
}
use primal_core.Atlas.Registry.{ProviderRegistry}
use primal_core.Atlas.Provider.{Bandit, BanditOutcome, RoutingDecision, RoutingStatus}

-- `with suppress(Exception):` lets a `BaseException` through.
abbrev pub suppress_exception : Outcome (Unit {0}) → Outcome (Unit {0})
suppress_exception (raised (base_exception k m)) = raised (base_exception k m)
suppress_exception _ = returned tt

-- The texts of an attempt's reason; `from_exc e` is `f"{type(e).__name__}: {e}"`.
pub data AttemptReason : Type 0 where
  not_registered in_cooldown : AttemptReason
  from_exc : Exc → AttemptReason

pub record Attempt (V : Type 0) : Type 0 where
  pub name : String
  pub status : RoutingStatus
  pub reason : Option AttemptReason
  pub output : Option V

-- `CascadeResult`, without its id and its times.
pub record CascadeResult (V : Type 0) : Type 0 where
  pub attempts : List (String × RoutingStatus × Option AttemptReason)
  pub chosen : Option String
  pub output : Option V
  pub status : RoutingStatus

pub data AtlasEvent (V B : Type 0) : Type 0 where
  routing_decided : RoutingDecision B → AtlasEvent V B
  cascade_started : List String → AtlasEvent V B
  cascade_attempt : String → RoutingStatus → Option AttemptReason → AtlasEvent V B
  cascade_completed cascade_failed : CascadeResult V → AtlasEvent V B

-- The steps that Atlas adds to a trajectory, both of kind `ROUTING_DECISION`.
pub data AtlasStep (V B : Type 0) : Type 0 where
  decision_step : RoutingDecision B → AtlasStep V B
  cascade_step : CascadeResult V → AtlasStep V B

pub record Atlas (V B : Type 0) : Type 0 where
  pub registry : ProviderRegistry V
  pub active_selector : Option (Bandit B)
  pub factories : Dict (B → Bandit B × B)
  pub bandits : B
  pub now : ℕ
  pub events : List (AtlasEvent V B)
  pub trajectory : Option (List (AtlasStep V B))

module _ {V B : Type 0} where
  abbrev pub with_registry : (ProviderRegistry V → ProviderRegistry V) → Atlas V B → Atlas V B
  with_registry f a = record a { registry = f a.registry }

  -- `_EVENT_BUS.publish`
  unfoldable pub publish : AtlasEvent V B → Atlas V B → Atlas V B
  publish e a = record a { events = e ∷ a.events }

  -- `tr.add_step` on the active trajectory, if there is one; its exceptions are suppressed.
  unfoldable pub add_step : AtlasStep V B → Atlas V B → Atlas V B
  add_step s a = elim a.trajectory [
    | none ↦ a
    | some steps ↦ record a { trajectory = some (s ∷ steps) }
  ]

  -- bandit.py: `register_selector`, `resolve_selector`
  unfoldable pub register_selector : String → (B → Bandit B × B) → Atlas V B → Atlas V B
  register_selector name factory a = record a { factories = put name factory a.factories }

  unfoldable pub resolve_selector : String → Atlas V B → Outcome (Bandit B) × Atlas V B
  resolve_selector name a = elim (get name a.factories) [
    | none ↦ (raised (exception "ValueError" "unknown selector"), a)
    | some factory ↦ let (s, arms) = factory a.bandits in (returned s, record a { bandits = arms })
  ]

  -- bandit.py: `_safe_update`
  unfoldable pub safe_update :
      Option (Bandit B) → BanditOutcome → Atlas V B → Outcome (Unit {0}) × Atlas V B
  safe_update none o a = (returned tt, a)
  safe_update (some s) o a =
      let (r, arms) = s.update o a.bandits in (suppress_exception r, record a { bandits = arms })
