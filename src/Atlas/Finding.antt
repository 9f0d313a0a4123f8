-- ===== src/Atlas/Finding.antt =====
-- src/primal_ai/atlas/router.py: the look-ups of the facade, `Atlas.find` among them.
pub mod Both
mod Tests
use primal_core.Base.{String, Option, none, some, List, [], ◌∷◌, keep, map, is_none, if◌then◌else◌}
use primal_core.Base.Dict.{Dict, get, put, values}
use primal_core.Base.Dict.Named.{by_name, in_both}
use primal_core.Atlas.Provider.{Provider, ProviderInfo}
use primal_core.Atlas.Registry.{ProviderRegistry, find_by_capability, find_by_tag, all_providers}

module _ {V : Type 0} where
  -- The providers that `Atlas.find` matches
  unfoldable pub matched : Option String → Option String → ProviderRegistry V → List (Provider V)
  unfolding by_name in_both find_by_capability find_by_tag all_providers
  matched (some capability) (some tag) r =
      in_both (by_name (λ p. p.name) (find_by_capability capability r) [])
        (by_name (λ p. p.name) (find_by_tag tag r) [])
  matched (some capability) none r = find_by_capability capability r
  matched none (some tag) r = find_by_tag tag r
  matched none none r = all_providers r

  -- `Atlas.find`
  unfoldable pub find : Option String → Option String → ProviderRegistry V → List ProviderInfo
  unfolding matched
  find capability tag r = map (λ p. p.info) (matched capability tag r)
