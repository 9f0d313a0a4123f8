-- ===== src/Conductor/Finding/Tests.antt =====
-- `Conductor.find` on two agents, where a set is run through backwards.
use mathlib.Core.List.{Perm, reverse, reverse_perm}
use primal_core.Base.{ℕ, String, some, List, [], ◌∷◌, keep, map, none, ◌&&◌, returned}
use primal_core.Base.Dict.{values}
use primal_core.Conductor.Card.{Agent, has_capability, has_tag}
use primal_core.Conductor.Finding.{find}
use primal_core.Conductor.Finding.History.{
  AgentCall, register_call, unregister_call, calls, find-calls,
}

abbrev agent : String → List String → Agent ℕ
agent n tags = record {
  name = n;
  card = record {
    name = n;
    capabilities = record { name = "sum"; input_schema = none; tags = tags } ∷ [];
  };
  invoke = λ i s. ((returned i, 5), s);
}

abbrev history : List (AgentCall ℕ)
history =
    register_call (agent "x" ("fast" ∷ []))
    ∷ register_call (agent "x" [])
    ∷ register_call (agent "y" ("fast" ∷ []))
    ∷ unregister_call "z"
    ∷ []

find-calls_example : Perm (find reverse (some "sum") (some "fast") (calls history [])) (
    map
      (λ a. a.card)
      (keep
        (λ a. has_capability "sum" a.card && has_tag "fast" a.card)
        (values (calls history []))))
find-calls_example = find-calls reverse reverse_perm "sum" "fast" history
