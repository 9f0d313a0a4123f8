-- ===== src/Verifier/Rules.antt =====
-- src/primal_ai/verifier/rule_based.py. Stripping and upper case are Python's, a parameter.
use primal_core.Base.{
  String, Bool, true, false, not, ◌&&◌, List, [], ◌∷◌, none, ◌⊎◌, inl, inr, if◌then◌else◌, str_eq,
  Outcome, returned, ◌≡◌, refl, length,
}
use primal_core.Base.Value.{field, end, int, list, str, Items, nil, cons}
use primal_core.Base.Int.{pos}
use primal_core.Guardian.Policy.{and_then}
use primal_core.Verifier.Verdict.{
  status_value, VerdictStatus, pass_status, fail_status, uncertain_status, Reason, text_reason,
  Verdict, aggregate_status, aggregate_from, statuses,
}
use primal_core.Verifier.Audit.{Target}

-- The loop of `_aggregate`, from the two flags on
unfoldable pub aggregate_rules_from : Bool → Bool → List VerdictStatus → VerdictStatus
aggregate_rules_from saw_pass saw_uncertain [] =
    if saw_pass && not saw_uncertain then pass_status else uncertain_status
aggregate_rules_from saw_pass saw_uncertain (fail_status ∷ ss) = fail_status
aggregate_rules_from saw_pass saw_uncertain (pass_status ∷ ss) =
    aggregate_rules_from true saw_uncertain ss
aggregate_rules_from saw_pass saw_uncertain (uncertain_status ∷ ss) =
    aggregate_rules_from saw_pass true ss

-- `_aggregate`
unfoldable pub aggregate : List VerdictStatus → VerdictStatus
aggregate [] = uncertain_status
aggregate (s ∷ ss) = aggregate_rules_from false false (s ∷ ss)

module _ (strip_upper : String → String) where
  -- `_coerce`
  unfoldable pub coerce : VerdictStatus ⊎ String → VerdictStatus
  coerce (inl s) = s
  coerce (inr t) =
      let upper = strip_upper t in
      if str_eq upper "PASS"
      then pass_status
      else if str_eq upper "FAIL"
      then fail_status
      else uncertain_status

abbrev pub Rule : Type 0 → Type 0
Rule S = Target → S → Outcome ((VerdictStatus ⊎ String) × String) × S

-- `VerdictStatus.value`
abbrev pub status_values : List VerdictStatus → Items
status_values [] = nil
status_values (s ∷ ss) = cons (str (status_value s)) (status_values ss)

module _ (strip_upper : String → String) {S : Type 0} where
  -- The loop of `verify`: the statuses and the reasons
  unfoldable pub run_rules :
      List (Rule S) → Target → S → Outcome (List VerdictStatus × List Reason) × S
  run_rules [] target s = (returned ([], []), s)
  run_rules (rule ∷ rules) target s = and_then (rule target s) (λ answer s1.
      and_then (run_rules rules target s1) (λ rest s2.
        (returned (coerce strip_upper answer.0 ∷ rest.0, text_reason answer.1 ∷ rest.1), s2)))

  -- `RuleBasedVerifier.verify`
  unfoldable pub verify : String → List (Rule S) → Target → S → Outcome Verdict × S
  verify name [] target s = (
    returned (record {
      verifier_name = name;
      status = uncertain_status;
      confidence = pos 0;
      reasons = text_reason "no rules configured" ∷ [];
      details = field "rule_count" (int (pos 0)) end;
      cost = none;
      latency_ms = none;
    }),
    s,
  )
  verify name (r ∷ rs) target s = and_then (run_rules (r ∷ rs) target s) (λ answers s1. (
    returned (record {
      verifier_name = name;
      status = aggregate answers.0;
      confidence = pos 1000000;
      reasons = answers.1;
      details =
          field "rule_count" (int (pos (length (r ∷ rs))))
            (field "statuses" (list (status_values answers.0)) end);
      cost = none;
      latency_ms = none;
    }),
    s1,
  ))

aggregate_rules_from-aggregate_from :
    (p u : Bool) (ss : List VerdictStatus) → aggregate_rules_from p u ss ≡ aggregate_from p u ss
unfolding aggregate_rules_from aggregate_from
aggregate_rules_from-aggregate_from p u [] = refl
aggregate_rules_from-aggregate_from p u (pass_status ∷ ss) =
    aggregate_rules_from-aggregate_from true u ss
aggregate_rules_from-aggregate_from p u (fail_status ∷ ss) = refl
aggregate_rules_from-aggregate_from p u (uncertain_status ∷ ss) =
    aggregate_rules_from-aggregate_from p true ss

-- The copy of the rule in rule_based.py and the one of the facade agree on every list of verdicts.
pub aggregate-aggregate_status : (vs : List Verdict) → aggregate (statuses vs) ≡ aggregate_status vs
unfolding aggregate aggregate_status
aggregate-aggregate_status [] = refl
aggregate-aggregate_status (v ∷ vs) =
    aggregate_rules_from-aggregate_from false false (statuses (v ∷ vs))
