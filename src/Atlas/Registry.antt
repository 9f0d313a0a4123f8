-- ===== src/Atlas/Registry.antt =====
-- src/primal_ai/atlas/_registry.py: the providers by name and the health of each. A method runs
-- under the registry's lock, so it is one step.
pub mod Valid
use primal_core.Base.{
  ℕ, String, Bool, true, false, Option, none, some, List, [], ◌∷◌, map, Outcome, returned, raised,
  exception, if◌then◌else◌, is_none, not, keep,
}
use primal_core.Base.Dict.{Dict, get, put, pop, values}
use primal_core.Atlas.Health.{ProviderHealth, new_health, reset}
use primal_core.Atlas.Provider.{Provider, ProviderInfo, has_capability, has_tag}

pub record ProviderRegistry (V : Type 0) : Type 0 where
  pub providers : Dict (Provider V)
  pub health : Dict ProviderHealth

module _ {V : Type 0} where
  -- A taken name raises `ValueError`.
  unfoldable pub register :
      Provider V → ProviderRegistry V → Outcome (Unit {0}) × ProviderRegistry V
  register p r =
      if is_none (get p.name r.providers)
      then (
        returned tt,
        record { providers = put p.name p r.providers; health = put p.name new_health r.health },
      )
      else (raised (exception "ValueError" "provider is already registered"), r)

  unfoldable pub unregister : String → ProviderRegistry V → ProviderRegistry V
  unregister name r = record { providers = pop name r.providers; health = pop name r.health }

  unfoldable pub get_provider : String → ProviderRegistry V → Option (Provider V)
  get_provider name r = get name r.providers

  unfoldable pub get_health : String → ProviderRegistry V → Option ProviderHealth
  get_health name r = get name r.health

  unfoldable pub all_providers : ProviderRegistry V → List (Provider V)
  all_providers r = values r.providers

  unfoldable pub infos : ProviderRegistry V → List ProviderInfo
  infos r = map (λ p. p.info) (values r.providers)

  unfoldable pub find_by_capability : String → ProviderRegistry V → List (Provider V)
  find_by_capability c r = keep (λ p. has_capability p.info c) (values r.providers)

  unfoldable pub find_by_tag : String → ProviderRegistry V → List (Provider V)
  find_by_tag t r = keep (λ p. has_tag p.info t) (values r.providers)

  -- `self._health[name]` is a shared object: an update of it is an update of the registry.
  unfoldable pub update_health :
      String → (ProviderHealth → ProviderHealth) → ProviderRegistry V → ProviderRegistry V
  update_health name f r = elim (get name r.health) [
    | none ↦ r
    | some h ↦ record r { health = put name (f h) r.health }
  ]

-- `for health in targets: health.reset()` over every entry.
unfoldable pub reset_each : Dict ProviderHealth → Dict ProviderHealth
reset_each [] = []
reset_each ((n, h) ∷ d) = (n, reset h) ∷ reset_each d

-- The targets are the named entry if there is one, and otherwise every entry.
unfoldable pub reset_health : {V : Type 0} → Option String → ProviderRegistry V → ProviderRegistry V
reset_health none r = record r { health = reset_each r.health }
reset_health (some name) r = elim (get name r.health) [
  | none ↦ record r { health = reset_each r.health }
  | some h ↦ record r { health = put name (reset h) r.health }
]
