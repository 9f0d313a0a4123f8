-- ===== src/Verifier/Verdict/Aggregation.antt =====
-- The rule that the header of src/primal_ai/verifier/_core.py documents: any FAIL gives FAIL, all
-- PASS gives PASS, otherwise UNCERTAIN.
use primal_core.Base.{
  ◌≡◌, refl, Bool, true, false, not, ◌&&◌, List, [], ◌∷◌, all, any, if◌then◌else◌, arith,
}
use primal_core.Verifier.Verdict.{
  VerdictStatus, pass_status, fail_status, uncertain_status, Verdict, aggregate_from,
  aggregate_status, statuses,
}

abbrev pub is_fail : VerdictStatus → Bool
is_fail fail_status = true
is_fail _ = false

abbrev pub is_pass : VerdictStatus → Bool
is_pass pass_status = true
is_pass _ = false

abbrev pub is_empty {ℓ} : {A : Type ℓ} → List A → Bool
is_empty [] = true
is_empty (x ∷ xs) = false

-- The documented rule, on the statuses of the layers
unfoldable pub rule : List VerdictStatus → VerdictStatus
rule ss =
    if any is_fail ss
    then fail_status
    else if all is_pass ss && not (is_empty ss)
    then pass_status
    else uncertain_status

-- What the loop decides, whatever it has seen
after : Bool → Bool → List VerdictStatus → VerdictStatus
after saw_pass saw_uncertain ss =
    if any is_fail ss
    then fail_status
    else if all is_pass ss && not saw_uncertain && not (is_empty ss && not saw_pass)
    then pass_status
    else uncertain_status

aggregate_from-after : (p u : Bool) (ss : List VerdictStatus) → aggregate_from p u ss ≡ after p u ss
unfolding aggregate_from after
aggregate_from-after p u [] = ground arith
aggregate_from-after p u (fail_status ∷ ss) = refl
aggregate_from-after p u (pass_status ∷ ss) = ground (arith, aggregate_from-after true u ss)
aggregate_from-after p u (uncertain_status ∷ ss) = ground (arith, aggregate_from-after p true ss)

-- `_aggregate_status` is the documented rule, on any list of verdicts: FAIL when some verdict fails;
-- else PASS when there are verdicts and all pass; else UNCERTAIN.
pub aggregate_status-rule : (vs : List Verdict) → aggregate_status vs ≡ rule (statuses vs)
unfolding aggregate_status rule after
aggregate_status-rule [] = refl
aggregate_status-rule (v ∷ vs) =
    ground (arith, aggregate_from-after false false (statuses (v ∷ vs)))
