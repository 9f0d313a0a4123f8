-- ===== src/Guardian/Dsl/Factories.antt =====
-- The factories of src/primal_ai/guardian/_builtins, and their registration. What a factory builds is
-- the class with its fields; those of a `RateLimit` are integers here, as `int` may answer a
-- negative one. `int` and `float` of a text, `lower`, `re.compile` and the match of the currency
-- pattern are Python's, parameters.
pub mod Pipes
use primal_core.Base.{
  String, Bool, true, false, Option, none, some, List, [], ◌∷◌, Outcome, returned, raised,
  exception, ◌>>=◌, str_eq, if◌then◌else◌, get_or, is_none, contains,
}
use primal_core.Base.Dict.{Dict, get}
use primal_core.Base.Int.{ℤ}
use primal_core.Base.Text.{strip, split}
use primal_core.Guardian.DollarCap.{DollarCap, init}
use primal_core.Guardian.Dsl.{Registry, register_policy, parse_kv, parse_currency_per_unit}

pub record Conversions : Type 0 where
  pub int_of : String → Outcome ℤ
  pub float_of : String → Outcome ℤ
  pub lower : String → String
  pub compile : String → Outcome (Unit {0})
  pub match_currency : String → Option (String × String)

pub data Built : Type 0 where
  rate_limit : Option ℤ → Option ℤ → Option ℤ → Built
  max_cost : DollarCap → Built
  allow_list : Option (List String) → Option (List String) → Built
  block_list : Option (List String) → Option (List String) → List String → Built
  schema : Built
  pii_redact : List String → List String → Built

-- `[v.strip() for v in value.split("|") if v.strip()]`
abbrev pub stripped : List String → List String
unfolding strip
stripped [] = []
stripped (v ∷ vs) = let rest = stripped vs in if str_eq (strip v) "" then rest else strip v ∷ rest

-- `_split_pipe`, which allow_list.py and block_list.py declare
unfoldable pub split_pipe : Option String → Option (List String)
unfolding strip split
split_pipe none = none
split_pipe (some value) = if str_eq value "" then none else some (stripped (split b'|' value))

unfoldable pub allow_list_factory : String → Outcome Built
unfolding parse_kv get split_pipe
allow_list_factory arg =
    let kv = parse_kv arg in
    returned (allow_list (split_pipe (get "tools" kv)) (split_pipe (get "domains" kv)))

-- `_DEFAULT_PATTERNS` of pii_redact.py, for e-mail addresses, phone numbers and SSNs
abbrev pub default_patterns : List String
default_patterns =
    "[A-Za-z0-9._%+\\-]+@[A-Za-z0-9.\\-]+\\.[A-Za-z]{2,}"
    ∷ "\\b\\(?\\d{3}\\)?[\\s.\\-]?\\d{3}[\\s.\\-]?\\d{4}\\b" ∷ "\\b\\d{3}-\\d{2}-\\d{4}\\b" ∷ []

unfoldable pub pii_redact_factory : String → Outcome Built
unfolding parse_kv get split_pipe
pii_redact_factory arg =
    returned (pii_redact (get_or (split_pipe (get "fields" (parse_kv arg))) []) default_patterns)

unfoldable pub schema_factory : String → Outcome Built
schema_factory arg = returned schema

module _ (cv : Conversions) where
  -- `if key in kv and kv[key] != "": kwargs[key] = number(kv[key])`
  unfoldable pub optional_number : (String → Outcome ℤ) → String → Dict String → Outcome (Option ℤ)
  unfolding get
  optional_number number key kv = elim (get key kv) [
    | none ↦ returned none
    | some text ↦ if str_eq text "" then returned none else (number text >>= λ n. returned (some n))
  ]

  unfoldable pub rate_limit_factory : String → Outcome Built
  unfolding parse_kv optional_number
  rate_limit_factory arg = do
    per_second ← optional_number cv.int_of "per_second" (parse_kv arg)
    per_minute ← optional_number cv.int_of "per_minute" (parse_kv arg)
    per_hour ← optional_number cv.int_of "per_hour" (parse_kv arg)
    returned (rate_limit per_second per_minute per_hour)

  -- The currency form of `max_cost`; the message of the error is the unit.
  unfoldable pub cap_per_unit : ℤ → String → Outcome Built
  unfolding init
  cap_per_unit amount unit =
      if contains (cv.lower unit) ("req" ∷ "request" ∷ "call" ∷ [])
      then returned (max_cost (init (some amount) none))
      else if contains (cv.lower unit) ("hr" ∷ "hour" ∷ [])
      then returned (max_cost (init none (some amount)))
      else raised (exception "ValueError" unit)

  abbrev pub cap_from : String → Option (ℤ × String) → Outcome Built
  unfolding cap_per_unit parse_kv optional_number init
  cap_from arg (some (amount, unit)) = cap_per_unit amount unit
  cap_from arg none = do
    per_call ← optional_number cv.float_of "max_per_call" (parse_kv arg)
    per_hour ← optional_number cv.float_of "max_per_hour" (parse_kv arg)
    returned (max_cost (init per_call per_hour))

  unfoldable pub dollar_cap_factory : String → Outcome Built
  unfolding parse_currency_per_unit cap_per_unit parse_kv optional_number init
  dollar_cap_factory arg =
      parse_currency_per_unit cv.match_currency cv.float_of arg >>= cap_from arg

  abbrev pub compile_all : List String → Outcome (Unit {0})
  compile_all [] = returned tt
  compile_all (p ∷ ps) = cv.compile p >>= λ _. compile_all ps

  -- `BlockList.__init__`
  unfoldable pub new_block_list :
      Option (List String) → Option (List String) → Option (List String) → Outcome Built
  new_block_list tools domains patterns = do
    compiled ← compile_all (get_or patterns [])
    returned (block_list tools domains (get_or patterns []))

  unfoldable pub block_list_factory : String → Outcome Built
  unfolding parse_kv get split_pipe new_block_list
  block_list_factory arg =
      let kv = parse_kv arg in
      new_block_list (split_pipe (get "tools" kv)) (split_pipe (get "domains" kv))
        (split_pipe (get "patterns" kv))

  unfoldable pub no_external_network_factory : String → Outcome Built
  unfolding new_block_list
  no_external_network_factory arg = new_block_list none none (some ("https?://" ∷ []))

  -- The registrations of _builtins/__init__.py
  unfoldable pub builtins : Registry Built
  unfolding register_policy rate_limit_factory dollar_cap_factory allow_list_factory
      block_list_factory schema_factory pii_redact_factory no_external_network_factory
  builtins = register_policy "no_external_network" no_external_network_factory (
      register_policy "pii_redact" pii_redact_factory (
        register_policy "schema" schema_factory (
          register_policy "block_list" block_list_factory (
            register_policy "allow_list" allow_list_factory (
              register_policy "max_cost" dollar_cap_factory
                (register_policy "rate_limit" rate_limit_factory []))))))
