-- ===== src/Guardian/SchemaValidator.antt =====
-- src/primal_ai/guardian/_builtins/schema_validator.py. `text_of` formats an error, as in Schema.
use primal_core.Base.{
  String, ◌≡◌, refl, ◌↔◌, Option, none, some, custom, Phase, pre, post, Outcome, returned, raised,
  violation, Option-cases, inl, inr, arith,
}
use primal_core.Base.Value.{Value, list, dict, field, end}
use primal_core.Schema.{Schema, Error, first_error}
use primal_core.Schema.Sound.{Clear, Conforms, first_error-Conforms}
use primal_core.Guardian.Policy.{Call}

module _ (text_of : Error → String) where
  -- What both hooks do with the schema and the value
  unfoldable pub check : Phase → Option Schema → Value → Outcome (Unit {0})
  check phase none v = returned tt
  check phase (some s) v = elim (first_error s v) [
    | none ↦ returned tt
    | some err ↦ raised (
        violation (record { policy_name = "schema"; reason = custom (text_of err); phase = phase }))
  ]

  -- `SchemaValidator.check_pre`
  unfoldable pub schema_pre : Option Schema → Call → Outcome (Unit {0})
  schema_pre pre_schema c =
      check pre pre_schema (dict (field "args" (list c.args) (field "kwargs" (dict c.kwargs) end)))

  -- `SchemaValidator.check_post`
  unfoldable pub schema_post : Option Schema → Call → Value → Outcome (Unit {0})
  schema_post post_schema c result = check post post_schema result

  check-none :
      (phase : Phase) (s : Schema) (v : Value)
      → (check phase (some s) v ≡ returned tt) ↔ (first_error s v ≡ none)
  unfolding check
  check-none phase s v = elim (Option-cases (first_error s v)) [
    | inl e ↦ rw (e, check) (λ _. refl, λ _. refl)
    | inr (err, e) ↦ rw (e, check) (ground arith)
  ]

  -- `SchemaValidator` lets a result through exactly when it conforms to the configured schema, if it
  -- meets none of the gaps of the validator.
  pub schema_post-Conforms :
      (s : Schema) (c : Call) (result : Value)
      → Clear s result
      → (schema_post (some s) c result ≡ returned tt) ↔ Conforms s result
  unfolding schema_post
  schema_post-Conforms s c result clear = (
    λ e. (first_error-Conforms s result clear).0 ((check-none post s result).0 e),
    λ f. (check-none post s result).1 ((first_error-Conforms s result clear).1 f),
  )
