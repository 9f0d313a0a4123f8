-- ===== src/Guardian/Lists.antt =====
-- src/primal_ai/guardian/_builtins/allow_list.py and block_list.py. The parameters are Python's:
-- `hostname` is `urlparse(u).hostname`, which may raise, an empty one being `none`; `search p t`
-- is whether the compiled pattern p is found in t; `to_text` is `str`.
pub mod Duality
use primal_core.Base.{
  String, Bool, true, false, Option, none, some, List, [], ◌∷◌, if◌then◌else◌, contains,
  PolicyViolation, ViolationReason, tool_not_allowed, domain_not_allowed, tool_blocked,
  domain_blocked, argument_matched, kwarg_matched, pre, Outcome, returned, raised, violation,
}
use primal_core.Base.Value.{Value, null, str, Items, nil, cons, Fields, end, field, field_of}
use primal_core.Guardian.Policy.{Call, is_null}

-- `value in xs`, for a list of texts
abbrev pub is_in : Value → List String → Bool
is_in (str s) xs = contains s xs
is_in v xs = false

-- `kwargs.get(k)`, where an absent key and `None` are the same
abbrev pub argument : String → Call → Option Value
argument k c = elim (field_of k c.kwargs) [
  | none ↦ none
  | some v ↦ if is_null v then none else some v
]

abbrev violates : String → ViolationReason → Outcome (Unit {0})
violates name reason =
    raised (violation (record { policy_name = name; reason = reason; phase = pre }))

-- `s1; s2`
abbrev pub next : Outcome (Unit {0}) → Outcome (Unit {0}) → Outcome (Unit {0})
next (returned _) rest = rest
next (raised e) rest = raised e

module _ (hostname : String → Outcome (Option String)) where
  -- The second half of `_extract_host`
  unfoldable pub raw_domain : Call → Outcome (Option Value)
  raw_domain c = elim (argument "domain" c) [
    | some v ↦ elim v [ str d ↦ returned (some (str d)) | _ ↦ returned none ]
    | none ↦ returned none
  ]

  -- `_extract_host`, which both files declare
  unfoldable pub extract_host : Call → Outcome (Option Value)
  extract_host c = elim (argument "url" c) [
    | none ↦ raw_domain c
    | some v ↦ elim v [
      | str u ↦ elim (hostname u) [
        | raised e ↦ raised e
        | returned h ↦ elim h [ some host ↦ returned (some (str host)) | none ↦ raw_domain c ]
      ]
      | _ ↦ raw_domain c
    ]
  ]

  -- One dimension of a list: nothing to check, or a value that is looked up
  abbrev pub check_value : Option Value → (Value → Outcome (Unit {0})) → Outcome (Unit {0})
  check_value none test = returned tt
  check_value (some v) test = test v

  abbrev pub check_host : Call → (Value → Outcome (Unit {0})) → Outcome (Unit {0})
  check_host c test = elim (extract_host c) [
    | raised e ↦ raised e
    | returned h ↦ check_value h test
  ]

  -- `AllowList.check_pre`
  unfoldable pub allow_pre : Option (List String) → Option (List String) → Call → Outcome (Unit {0})
  allow_pre tools domains c =
      next
        (elim tools [
          | none ↦ returned tt
          | some xs ↦
              check_value (argument "tool" c) (λ v.
                if is_in v xs then returned tt else violates "allow_list" (tool_not_allowed v))
        ])
        (elim domains [
          | none ↦ returned tt
          | some xs ↦ check_host c (λ v.
              if is_in v xs then returned tt else violates "allow_list" (domain_not_allowed v))
        ])

  module _ (search : String → String → Bool) (to_text : Value → String) where
    -- The inner loops of `BlockList.check_pre`, for one pattern
    unfoldable pub match_args : String → Items → Outcome (Unit {0}) → Outcome (Unit {0})
    match_args p nil rest = rest
    match_args p (cons v vs) rest =
        let more = match_args p vs rest in
        if search p (to_text v) then violates "block_list" (argument_matched p) else more

    unfoldable pub match_kwargs : String → Fields → Outcome (Unit {0}) → Outcome (Unit {0})
    match_kwargs p end rest = rest
    match_kwargs p (field k v fs) rest =
        let more = match_kwargs p fs rest in
        if search p (to_text v) then violates "block_list" (kwarg_matched k p) else more

    -- ... and its loop over the patterns
    unfoldable pub match_patterns : List String → Call → Outcome (Unit {0})
    match_patterns [] c = returned tt
    match_patterns (p ∷ ps) c = match_args p c.args (match_kwargs p c.kwargs (match_patterns ps c))

    -- `BlockList.check_pre`
    unfoldable pub block_pre :
        Option (List String) → Option (List String) → List String → Call → Outcome (Unit {0})
    block_pre tools domains patterns c =
        next
          (elim tools [
            | none ↦ returned tt
            | some xs ↦
                check_value (argument "tool" c)
                  (λ v. if is_in v xs then violates "block_list" (tool_blocked v) else returned tt)
          ])
          (next
            (elim domains [
              | none ↦ returned tt
              | some xs ↦ check_host c (λ v.
                  if is_in v xs then violates "block_list" (domain_blocked v) else returned tt)
            ])
            (match_patterns patterns c))
