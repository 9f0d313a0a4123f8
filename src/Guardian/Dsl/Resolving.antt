-- ===== src/Guardian/Dsl/Resolving.antt =====
-- What `Guardian.wrap` of src/primal_ai/guardian/_core.py does with texts that name no policy.
use primal_core.Base.{
  String, none, some, List, [], ◌∷◌, ◌++◌, map, ◌⊎◌, inl, inr, Outcome, returned, raised, Exc,
  exception, ◌>>=◌, ◌≡◌, refl, ap,
}
use primal_core.Base.Dict.{get}
use primal_core.Base.Text.{strip, partition}
use primal_core.Base.Value.{Value}
use primal_core.Guardian.Policy.{Call, Policy}
use primal_core.Guardian.Run.{build_sync_wrapper}
use primal_core.Guardian.Dsl.{
  Registry, build_policy, parse_policy, resolve_each, resolve_policies, wrap,
}

>>=-eq-returned :
    {A B : Type 0} (m : Outcome A) (f : A → Outcome B) {b : B}
    → (m >>= f) ≡ returned b
    → (a : A) × (m ≡ returned a) × (f a ≡ returned b)
>>=-eq-returned (returned a) f h = (a, refl, h)
>>=-eq-returned (raised e) f h = cc

-- The name in a specification
abbrev pub name_of : String → String
name_of spec = strip (partition b':' spec).0

parse_policy_unknown :
    {P : Type 0} (registry : Registry P) (spec : String)
    → get (name_of spec) registry ≡ none
    → parse_policy registry spec ≡ raised (exception "ValueError" (name_of spec))
unfolding parse_policy
parse_policy_unknown registry spec e =
    ap (λ o. build_policy o (name_of spec) (strip (partition b':' spec).2)) e

module _ {P : Type 0} (registry : Registry P) (e : Exc) (spec : String) (later : List (P ⊎ String))
    (fails : parse_policy registry spec ≡ raised e) where
  resolve_each-raised :
      (items : List (P ⊎ String)) {ps : List P}
      → resolve_each registry items ≡ returned ps
      → resolve_each registry (items ++ inr spec ∷ later) ≡ raised e
  unfolding resolve_each
  resolve_each-raised [] h = rw fails
  resolve_each-raised (inl p ∷ items) h =
      let (rest, hr, hf) = >>=-eq-returned (resolve_each registry items) _ h in
      rw (resolve_each-raised items hr)
  resolve_each-raised (inr t ∷ items) h =
      let (p, hp, hq) = >>=-eq-returned (parse_policy registry t) _ h in
      let (rest, hr, hf) = >>=-eq-returned (resolve_each registry items) _ hq in
      rw hp (rw (resolve_each-raised items hr))

-- `wrap` raises a `ValueError` with the name, and wraps nothing, when the first text that builds no
-- policy has a name that is not registered; what stands behind it is not looked at.
pub wrap_unknown :
    {S : Type 0} (registry : Registry (Policy S)) (agent : Call → S → Outcome Value × S)
    (items later : List (Policy S ⊎ String)) (spec : String) {ps : List (Policy S)}
    → resolve_each registry items ≡ returned ps
    → get (name_of spec) registry ≡ none
    → wrap registry agent (some (items ++ inr spec ∷ later))
      ≡ raised (exception "ValueError" (name_of spec))
unfolding wrap resolve_policies
wrap_unknown registry agent items later spec h e =
    rw (resolve_each-raised registry _ spec later (parse_policy_unknown registry spec e) items h)

resolve_each-map :
    {P : Type 0} (registry : Registry P) (ps : List P)
    → resolve_each registry (map inl ps) ≡ returned ps
unfolding resolve_each
resolve_each-map registry [] = refl
resolve_each-map registry (p ∷ ps) = rw (resolve_each-map registry ps)

-- Of policies that are no texts `wrap` makes the wrapper that runs them in order.
pub wrap-map :
    {S : Type 0} (registry : Registry (Policy S)) (agent : Call → S → Outcome Value × S)
    (ps : List (Policy S))
    → wrap registry agent (some (map inl ps)) ≡ returned (build_sync_wrapper agent ps)
unfolding wrap resolve_policies
wrap-map registry agent ps = rw (resolve_each-map registry ps)
