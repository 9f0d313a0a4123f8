-- ===== src/Guardian/Dsl/Tests.antt =====
-- Runs of the policy DSL (src/primal_ai/guardian/_dsl.py) and its factories on texts.
use primal_core.Base.{String, none, some, [], ◌∷◌, inl, inr, returned, raised, exception, ◌≡◌, refl}
use primal_core.Base.Dict.{Dict, put}
use primal_core.Base.Int.{pos}
use primal_core.Base.Text.{is_space}
use primal_core.Guardian.DollarCap.{init}
use primal_core.Guardian.Policy.{Policy}
use primal_core.Guardian.Dsl.{Registry, parse_policy, parse_kv, resolve_each}
use primal_core.Guardian.Dsl.RoundTrip.{format_kv, put_all, parse_kv-format_kv}
use primal_core.Guardian.Dsl.Factories.{
  Conversions, rate_limit, max_cost, block_list, allow_list, builtins,
}
use primal_core.Guardian.Dsl.Factories.Pipes.{allow_list_spec, parse_policy-allow_list_spec}

abbrev pairs : Dict String
pairs = ("per_minute", "60") ∷ ("per_hour", "1000") ∷ ("per_minute", "6 0") ∷ []

parse_kv-format_kv_example : parse_kv (format_kv pairs) ≡ put_all pairs []
unfolding is_space
parse_kv-format_kv_example = parse_kv-format_kv pairs (
  ((refl, refl, refl), (refl, refl, refl), refl),
  (
    ((refl, refl, refl), (refl, refl, refl), refl),
    (((refl, refl, refl), (refl, refl, refl), refl), tt),
  ),
)

-- Empty tokens are skipped, and a token without an equals sign is a key with no value.
loose_tokens : parse_kv " a = 1 ,, b ,a=2" ≡ ("a", "2") ∷ ("b", "") ∷ []
unfolding parse_kv put
loose_tokens = refl

-- `$n/unit` is read as three dollars for that unit, and every number as seven.
abbrev conversions : Conversions
conversions = record {
  int_of = λ s. returned (pos 7);
  float_of = λ s. returned (pos 3000000);
  lower = λ s. s;
  compile = λ p. returned tt;
  match_currency = λ s. some ("3", "hour");
}

abbrev no_currency : Conversions
no_currency = record conversions { match_currency = λ s. none }

hourly_cap :
    parse_policy (builtins conversions) "max_cost: $3/hour"
    ≡ returned (max_cost (init none (some (pos 3000000))))
unfolding parse_policy builtins
hourly_cap = refl

-- A number with no key is no limit: the policy lets every call through.
positional_limit :
    parse_policy (builtins no_currency) "rate_limit:60" ≡ returned (rate_limit none none none)
unfolding parse_policy builtins
positional_limit = refl

no_network :
    parse_policy (builtins conversions) "no_external_network"
    ≡ returned (block_list none none ("https?://" ∷ []))
unfolding parse_policy builtins
no_network = refl

parse_policy-allow_list_spec_example :
    parse_policy
      (builtins conversions)
      (allow_list_spec "search" ("calc" ∷ []) "wikipedia.org" ("a b" ∷ []))
    ≡ returned (allow_list (some ("search" ∷ "calc" ∷ [])) (some ("wikipedia.org" ∷ "a b" ∷ [])))
unfolding is_space
parse_policy-allow_list_spec_example =
    parse_policy-allow_list_spec conversions "search" ("calc" ∷ []) "wikipedia.org" ("a b" ∷ [])
      ((((refl, refl, refl), refl, refl), (((refl, refl, refl), refl, refl), tt)))
      ((((refl, refl, refl), refl, refl), (((refl, refl, refl), refl, refl), tt)))

abbrev idle : Policy (Unit {0})
idle = record { name = "idle"; check_pre = none; check_post = none }

abbrev known : Registry (Policy (Unit {0}))
known = ("idle", λ arg. returned idle) ∷ []

typo :
    resolve_each known (inl idle ∷ inr "idle" ∷ inr " typo : x" ∷ [])
    ≡ raised (exception "ValueError" "typo")
unfolding resolve_each
typo = refl
