-- ===== src/Verifier/Verdict.antt =====
-- src/primal_ai/verifier/_verdict.py, and the aggregation of src/primal_ai/verifier/_core.py.
-- Confidences and costs are whole millionths.
pub mod Aggregation
use primal_core.Base.{
  ℕ, suc, String, Bool, true, false, not, ◌&&◌, Option, none, some, List, [], ◌∷◌, length,
  if◌then◌else◌,
}
use primal_core.Base.Value.{Fields}
use primal_core.Base.Int.{ℤ, pos, ◌+ℤ◌}
use primal_core.Schema.{Error}

pub data VerdictStatus : Type 0 where
  pass_status fail_status uncertain_status : VerdictStatus

-- A reason: a text, or a format with what it prints.
pub data Reason : Type 0 where
  text_reason : String → Reason
  layer_raised : String → String → String → Reason
  schema_error : Error → Reason
  required_missing forbidden_matched : String → Reason

pub record Verdict : Type 0 where
  pub verifier_name : String
  pub status : VerdictStatus
  pub confidence : ℤ
  pub reasons : List Reason
  pub details : Fields
  pub cost : Option ℤ
  pub latency_ms : Option ℕ

abbrev pub status_value : VerdictStatus → String
status_value pass_status = "PASS"
status_value fail_status = "FAIL"
status_value uncertain_status = "UNCERTAIN"

-- What `Verdict.to_dict` makes of a verdict
pub record VerdictDict : Type 0 where
  pub verifier_name : String
  pub status : String
  pub confidence : ℤ
  pub reasons : List Reason
  pub details : Fields
  pub cost : Option ℤ
  pub latency_ms : Option ℕ

abbrev pub to_dict : Verdict → VerdictDict
to_dict v = record {
  verifier_name = v.verifier_name;
  status = status_value v.status;
  confidence = v.confidence;
  reasons = v.reasons;
  details = v.details;
  cost = v.cost;
  latency_ms = v.latency_ms;
}

-- The loop of `_aggregate_status`, from the two flags on; its end is the last two statements.
unfoldable pub aggregate_from : Bool → Bool → List VerdictStatus → VerdictStatus
aggregate_from saw_pass saw_uncertain [] =
    if saw_pass && not saw_uncertain then pass_status else uncertain_status
aggregate_from saw_pass saw_uncertain (fail_status ∷ vs) = fail_status
aggregate_from saw_pass saw_uncertain (pass_status ∷ vs) = aggregate_from true saw_uncertain vs
aggregate_from saw_pass saw_uncertain (uncertain_status ∷ vs) = aggregate_from saw_pass true vs

-- `[v.status for v in verdicts]`
abbrev pub statuses : List Verdict → List VerdictStatus
statuses [] = []
statuses (v ∷ vs) = v.status ∷ statuses vs

unfoldable pub aggregate_status : List Verdict → VerdictStatus
aggregate_status [] = uncertain_status
aggregate_status (v ∷ vs) = aggregate_from false false (statuses (v ∷ vs))

-- `sum(v.confidence for v in verdicts)`
unfoldable pub sum_confidence : List Verdict → ℤ
sum_confidence [] = pos 0
sum_confidence (v ∷ vs) = v.confidence +ℤ sum_confidence vs

-- The mean as an exact fraction: its numerator and its denominator. The rounding of the division
-- of floats is not modelled.
unfoldable pub aggregate_confidence : List Verdict → ℤ × ℕ
aggregate_confidence [] = (pos 0, 1)
aggregate_confidence (v ∷ vs) = (sum_confidence (v ∷ vs), length (v ∷ vs))

-- `[v.cost for v in verdicts if v.cost is not None]`
unfoldable pub costs : List Verdict → List ℤ
costs [] = []
costs (v ∷ vs) = let rest = costs vs in elim v.cost [ none ↦ rest | some c ↦ c ∷ rest ]

abbrev pub sum : List ℤ → ℤ
sum [] = pos 0
sum (c ∷ cs) = c +ℤ sum cs

-- `sum(costs)`, or `None` when there are none
unfoldable pub aggregate_cost : List Verdict → Option ℤ
aggregate_cost vs = elim (costs vs) [ [] ↦ none | c ∷ cs ↦ some (sum (c ∷ cs)) ]
