-- ===== src/Atlas/Finding/Both.antt =====
-- What `Atlas.find` of src/primal_ai/atlas/router.py finds by a capability and a tag together.
use primal_core.Base.{String, some, keep, map, ◌&&◌, ◌≡◌, ap}
use primal_core.Base.Dict.{values}
use primal_core.Base.Dict.Named.{by_name-keep, in_both-keep}
use primal_core.Base.Dict.Owned.{IsOwned-NodupKeys}
use primal_core.Atlas.Provider.{Provider, has_capability, has_tag}
use primal_core.Atlas.Registry.{ProviderRegistry, find_by_capability, find_by_tag}
use primal_core.Atlas.Registry.Valid.{IsValid}
use primal_core.Atlas.Finding.{matched, find}

module _ {V : Type 0} where
  -- With a capability and a tag `find` answers with the providers that have both, each once and in
  -- the order of registration, in a valid registry.
  pub find_both :
      (capability tag : String) (r : ProviderRegistry V)
      → IsValid r
      → find (some capability) (some tag) r
        ≡ map
            (λ p. p.info)
            (keep
              (λ p. has_capability p.info capability && has_tag p.info tag)
              (values r.providers))
  unfolding find matched find_by_capability find_by_tag
  find_both capability tag r v =
      let u = IsOwned-NodupKeys (λ (p : Provider V). p.name) r.providers v.owned in
      let c = λ (p : Provider V). has_capability p.info capability in
      let t = λ (p : Provider V). has_tag p.info tag in
      ap (map (λ p. p.info)) (
        rw
          (
            by_name-keep (λ p. p.name) c (values r.providers) u,
            by_name-keep (λ p. p.name) t (values r.providers) u,
          )
          (in_both-keep (λ p. p.name) c t (values r.providers) u))
