-- ===== src/Conductor/Finding/Both.antt =====
-- What `Conductor.find` of src/primal_ai/conductor/_core.py finds by a capability and a tag together.
use mathlib.Core.List.{Perm, filter_map}
use mathlib.Core.List.Perm as Perms
use primal_core.Base.{String, some, List, keep, map, ◌&&◌, ◌∙◌, subst}
use primal_core.Base.Dict.{get, values, NodupKeys}
use primal_core.Base.Dict.Named.{
  named, common_keys, NodupKeys-keep, by_name-keep, in_both-keep, lookup-common_keys,
}
use primal_core.Conductor.Card.{Agent, has_capability, has_tag}
use primal_core.Conductor.Registry.{AgentRegistry, find_by_capability, find_by_tag}
use primal_core.Conductor.Finding.{candidates, find}

module _ {S : Type 0} (order : List String → List String)
    (permutes : (ns : List String) → Perm (order ns) ns) where
  candidates-Perm :
      (capability tag : String) (r : AgentRegistry S)
      → NodupKeys (named (λ a. a.name) (values r))
      → Perm
          (candidates order (some capability) (some tag) r)
          (keep (λ a. has_capability capability a.card && has_tag tag a.card) (values r))
  unfolding candidates find_by_capability find_by_tag
  candidates-Perm capability tag r u =
      let c = λ (a : Agent S). has_capability capability a.card in
      let t = λ (a : Agent S). has_tag tag a.card in
      let having = named (λ a. a.name) (keep c (values r)) in
      let tagged = named (λ a. a.name) (keep t (values r)) in
      let same =
        lookup-common_keys having tagged (NodupKeys-keep (λ a. a.name) c (values r) u)
        ∙ in_both-keep (λ a. a.name) c t (values r) u in
      rw (by_name-keep (λ a. a.name) c (values r) u, by_name-keep (λ a. a.name) t (values r) u)
        (subst (λ x. Perm (filter_map (λ n. get n having) (order (common_keys having tagged))) x)
          same (Perms.filter_map (λ n. get n having) (permutes (common_keys having tagged))))

  -- With a capability and a tag `find` answers, in some order, with the cards of the agents that
  -- have both, each once, when the registered agents have different names.
  pub find_both-Perm :
      (capability tag : String) (r : AgentRegistry S)
      → NodupKeys (named (λ a. a.name) (values r))
      → Perm (find order (some capability) (some tag) r) (
          map
            (λ a. a.card)
            (keep (λ a. has_capability capability a.card && has_tag tag a.card) (values r)))
  unfolding find
  find_both-Perm capability tag r u = Perms.map (λ a. a.card) (candidates-Perm capability tag r u)
