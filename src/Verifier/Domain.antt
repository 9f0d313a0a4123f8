-- ===== src/Verifier/Domain.antt =====
-- src/primal_ai/verifier/domain.py. `search p text` is whether the compiled pattern p is found in
-- the text, and `to_text` is `str`: both are Python's, parameters.
use primal_core.Base.{
  String, Bool, true, false, not, ◌&&◌, ◌≡◌, refl, List, [], ◌∷◌, ◌++◌, none, some, if◌then◌else◌,
  all, arith,
}
use primal_core.Base.Value.{Value, end, str}
use primal_core.Base.Int.{pos}
use primal_core.Schema.{Schema, first_error}
use primal_core.Verifier.Verdict.{
  VerdictStatus, pass_status, fail_status, Reason, text_reason, schema_error, required_missing,
  forbidden_matched, Verdict,
}

abbrev verdict : String → VerdictStatus → List Reason → Verdict
verdict name status reasons = record {
  verifier_name = name;
  status = status;
  confidence = pos 1000000;
  reasons = reasons;
  details = end;
  cost = none;
  latency_ms = none;
}

-- `JSONSchemaVerifier.verify`; its details repeat the schema and are left out.
unfoldable pub json_schema_verify : String → Schema → Value → Verdict
json_schema_verify name expected target = elim (first_error expected target) [
  | none ↦ verdict name pass_status (text_reason "matches schema" ∷ [])
  | some err ↦ verdict name fail_status (schema_error err ∷ [])
]

module _ (search : String → String → Bool) (to_text : Value → String) where
  -- `text = target if isinstance(target, str) else str(target)`
  abbrev pub text_of : Value → String
  text_of (str t) = t
  text_of v = to_text v

  -- The two loops of `RegexMatchVerifier.verify`
  unfoldable pub missed : List String → String → List Reason
  missed [] text = []
  missed (p ∷ ps) text =
      let rest = missed ps text in if search p text then rest else required_missing p ∷ rest

  unfoldable pub hits : List String → String → List Reason
  hits [] text = []
  hits (p ∷ ps) text =
      let rest = hits ps text in if search p text then forbidden_matched p ∷ rest else rest

  -- `RegexMatchVerifier.verify`; its details repeat the patterns and are left out.
  unfoldable pub regex_match_verify : String → List String → List String → Value → Verdict
  regex_match_verify name must must_not target =
      elim (missed must (text_of target) ++ hits must_not (text_of target)) [
        | [] ↦
            verdict name pass_status (text_reason "all patterns matched/avoided as required" ∷ [])
        | r ∷ rs ↦ verdict name fail_status (r ∷ rs)
      ]

  -- What the layer checks, without the reasons
  abbrev pub agrees : List String → List String → String → Bool
  agrees must must_not text =
      all (λ p. search p text) must && all (λ p. not (search p text)) must_not

  abbrev nil? : List Reason → Bool
  nil? [] = true
  nil? (r ∷ rs) = false

  missed_nil :
      (ps : List String) (text : String) (rs : List Reason)
      → nil? (missed ps text ++ rs) ≡ (all (λ p. search p text) ps && nil? rs)
  unfolding missed
  missed_nil [] text rs = refl
  missed_nil (p ∷ ps) text rs = ground (arith, missed_nil ps text rs)

  hits_nil :
      (ps : List String) (text : String) → nil? (hits ps text) ≡ all (λ p. not (search p text)) ps
  unfolding hits
  hits_nil [] text = refl
  hits_nil (p ∷ ps) text = ground (arith, hits_nil ps text)

  status_of :
      (name : String) (must must_not : List String) (target : Value) (rs : List Reason)
      → (missed must (text_of target) ++ hits must_not (text_of target)) ≡ rs
      → (regex_match_verify name must must_not target).status
        ≡ (if nil? rs then pass_status else fail_status)
  unfolding regex_match_verify
  status_of name must must_not target [] e = rw (e, regex_match_verify) refl
  status_of name must must_not target (r ∷ rs) e = rw (e, regex_match_verify) refl

  -- `RegexMatchVerifier` passes exactly when every required pattern is found and no forbidden one
  -- is, and fails otherwise.
  pub regex_match_verify-agrees :
      (name : String) (must must_not : List String) (target : Value)
      → (regex_match_verify name must must_not target).status
        ≡ (if agrees must must_not (text_of target) then pass_status else fail_status)
  regex_match_verify-agrees name must must_not target =
      rw
        (
          status_of name must must_not target _ refl,
          missed_nil must (text_of target) (hits must_not (text_of target)),
          hits_nil must_not (text_of target),
        )
        refl
