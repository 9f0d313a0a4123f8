-- ===== src/Guardian/Dsl.antt =====
-- src/primal_ai/guardian/_dsl.py: policies from texts, and what src/primal_ai/guardian/_core.py does
-- with them. A factory builds a policy of any kind `P`; the match of the currency pattern, a regular
-- expression, is Python's, a parameter.
pub mod Factories
pub mod RoundTrip
pub mod Resolving
mod Tests
use primal_core.Base.{
  String, Bool, Option, none, some, List, [], ◌∷◌, ◌⊎◌, inl, inr, Outcome, returned, raised,
  exception, ◌>>=◌, str_eq, if◌then◌else◌, get_or,
}
use primal_core.Base.Dict.{Dict, get, put}
use primal_core.Base.Int.{ℤ}
use primal_core.Base.Value.{Value}
use primal_core.Base.Text.{strip, partition, split}
use primal_core.Guardian.Policy.{Call, Policy, Guard}
use primal_core.Guardian.Run.{build_sync_wrapper}

-- `_REGISTRY`
abbrev pub Registry : Type 0 → Type 0
Registry P = Dict (String → Outcome P)

module _ {P : Type 0} where
  unfoldable pub register_policy : String → (String → Outcome P) → Registry P → Registry P
  unfolding put
  register_policy name factory registry = put name factory registry

  -- `parse_policy` from the look-up on; the message of the error is the format's first argument, the
  -- name.
  abbrev pub build_policy : Option (String → Outcome P) → String → String → Outcome P
  build_policy none name arg = raised (exception "ValueError" name)
  build_policy (some factory) name arg = factory arg

  unfoldable pub parse_policy : Registry P → String → Outcome P
  unfolding partition get strip
  parse_policy registry spec =
      let (name, found, arg) = partition b':' spec in
      build_policy (get (strip name) registry) (strip name) (strip arg)

  -- The loop of `_resolve_policies`
  unfoldable pub resolve_each : Registry P → List (P ⊎ String) → Outcome (List P)
  unfolding parse_policy
  resolve_each registry [] = returned []
  resolve_each registry (inl policy ∷ items) = do
    rest ← resolve_each registry items
    returned (policy ∷ rest)
  resolve_each registry (inr spec ∷ items) = do
    policy ← parse_policy registry spec
    rest ← resolve_each registry items
    returned (policy ∷ rest)

  unfoldable pub resolve_policies : Registry P → Option (List (P ⊎ String)) → Outcome (List P)
  unfolding resolve_each
  resolve_policies registry policies = resolve_each registry (get_or policies [])

-- `Guardian.wrap` and `Guardian.wrap_async`: the wrappers of both are the same statements.
unfoldable pub wrap :
    {S : Type 0}
    → Registry (Policy S)
    → (Call → S → Outcome Value × S)
    → Option (List (Policy S ⊎ String))
    → Outcome (Call → Guard S → Outcome Value × Guard S)
unfolding resolve_policies build_sync_wrapper
wrap registry agent policies = do
  resolved ← resolve_policies registry policies
  returned (build_sync_wrapper agent resolved)

-- The body of the loop of `parse_kv`, for a token that is not empty
unfoldable pub put_token : String → Dict String → Dict String
unfolding put strip partition
put_token token out =
    let (key, sep, value) = partition b'=' token in
    put (strip key) (if sep then strip value else "") out

unfoldable pub parse_parts : List String → Dict String → Dict String
unfolding put_token strip
parse_parts [] out = out
parse_parts (part ∷ parts) out =
    parse_parts parts (if str_eq (strip part) "" then out else put_token (strip part) out)

unfoldable pub parse_kv : String → Dict String
unfolding parse_parts split
parse_kv arg = if str_eq arg "" then [] else parse_parts (split b',' arg) []

-- `match_currency` gives the groups of the match, and `to_float` is `float` of a text.
module _ (match_currency : String → Option (String × String)) (to_float : String → Outcome ℤ) where
  unfoldable pub parse_currency_per_unit : String → Outcome (Option (ℤ × String))
  unfolding strip
  parse_currency_per_unit arg = elim (match_currency (strip arg)) [
    | none ↦ returned none
    | some (amount, unit) ↦ to_float amount >>= λ x. returned (some (x, unit))
  ]
