-- ===== src/Guardian/Run/Blocking.antt =====
-- Enforcement (src/primal_ai/guardian/_core.py): what a violation does outside a dry run.
use primal_core.Base.{
  ◌≡◌, refl, ap, ◌∙◌, none, List, [], ◌∷◌, PolicyViolation, Outcome, raised, violation, ◌++◌,
}
use primal_core.Base.Value.{Value}
use primal_core.Guardian.Policy.{
  Call, Policy, policy_violation, Guard, and_then, catch_violation, lift, outside, with_state,
}
use primal_core.Guardian.Run.{run_post, handle_violation, escalate, build_sync_wrapper}
use primal_core.Guardian.Combinators.{all_of_pre}
use primal_core.Guardian.Combinators.Flat.{run_pre-hooks, handle_violation-stops}

module _ {S : Type 0} where
  -- Outside a dry run a violation of a pre-hook blocks the call: the first policy in order that
  -- raises one ends it, the agent and the later hooks do not run, the violation is escalated once,
  -- and the wrapper raises it again, unless the escalation handler raises something of its own.
  pub violation_blocks :
      (agent : Call → S → Outcome Value × S) (ps : List (Policy S)) (c : Call) (g : Guard S)
      (v : PolicyViolation) (s : S)
      → g.dry_run_violations ≡ none
      → all_of_pre ps c g.state ≡ (raised (violation v), s)
      → build_sync_wrapper agent ps c g
        ≡ and_then
            (escalate (policy_violation v) (with_state s g))
            (λ _ g'. (raised (violation v), g'))
  unfolding build_sync_wrapper
  violation_blocks agent ps c g v s off blocked =
      let k : Unit {0} → Guard S → Outcome Value × Guard S =
        λ _ g1. and_then (outside (agent c) g1) (λ result g2. run_post ps c result g2) in
      ap (λ o. and_then o k) (run_pre-hooks ps c g off)
      ∙ ap (λ o. and_then (catch_violation (lift o g) handle_violation) k) blocked
      ∙ handle_violation-stops v (with_state s g) k off

  -- With no handler set, a blocked call logs the violation once and changes nothing else but the
  -- callers' state.
  blocked_by_default :
      (agent : Call → S → Outcome Value × S) (ps : List (Policy S)) (c : Call) (g : Guard S)
      (v : PolicyViolation) (s : S)
      → g.dry_run_violations ≡ none
      → g.escalation_handler ≡ none
      → all_of_pre ps c g.state ≡ (raised (violation v), s)
      → build_sync_wrapper agent ps c g ≡ (
        raised (violation v),
        record g { state = s; warnings = g.warnings ++ policy_violation v ∷ [] },
      )
  unfolding escalate
  blocked_by_default agent ps c g v s off unset blocked =
      violation_blocks agent ps c g v s off blocked ∙ rw unset refl
