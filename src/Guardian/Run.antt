-- ===== src/Guardian/Run.antt =====
-- src/primal_ai/guardian/_core.py. A coroutine's `await` is the call of the agent: the wrappers for
-- coroutines and for plain callables are the same statements.
pub mod Blocking
pub mod DryRun
use primal_core.Base.{
  Bool, true, false, Option, none, some, List, [], ◌∷◌, ◌++◌, get_or, PolicyViolation, Outcome,
  returned, raised, violation, exception, base_exception,
}
use primal_core.Base.Value.{Value}
use primal_core.Guardian.Policy.{
  Call, Policy, Item, policy_violation, trajectory, other, Guard, and_then, catch_violation,
  replaced, outside, pre_hook, post_hook,
}

module _ {S : Type 0} where
  -- `with suppress(Exception)`
  abbrev pub suppress : Outcome (Unit {0}) × Guard S → Outcome (Unit {0}) × Guard S
  suppress (raised (violation v), g) = (returned tt, g)
  suppress (raised (exception c m), g) = (returned tt, g)
  suppress (raised (base_exception c m), g) = (raised (base_exception c m), g)
  suppress (returned u, g) = (returned u, g)

  -- The first statement of `escalate`: only a trajectory has `add_step`.
  abbrev pub mark_step : Item S → Guard S → Outcome (Unit {0}) × Guard S
  mark_step (trajectory add_step) g = suppress (outside add_step g)
  mark_step (policy_violation v) g = (returned tt, g)
  mark_step (other x) g = (returned tt, g)

  abbrev pub default_escalation_handler : Item S → Guard S → Outcome (Unit {0}) × Guard S
  default_escalation_handler item g = (returned tt, record g { warnings = g.warnings ++ item ∷ [] })

  -- `Guardian.escalate`
  unfoldable pub escalate : Item S → Guard S → Outcome (Unit {0}) × Guard S
  escalate item g = and_then (mark_step item g) (λ _ g'. elim g'.escalation_handler [
    | none ↦ default_escalation_handler item g'
    | some handler ↦ outside (handler item) g'
  ])

  -- `Guardian.set_escalation_handler`
  unfoldable pub set_escalation_handler :
      Option (Item S → S → Outcome (Unit {0}) × S) → Guard S → Guard S
  set_escalation_handler handler g = record g { escalation_handler = handler }

  -- `_handle_violation`: recorded in a dry run, escalated and raised again otherwise
  unfoldable pub handle_violation : PolicyViolation → Guard S → Outcome (Unit {0}) × Guard S
  handle_violation v g = elim g.dry_run_violations [
    | some buf ↦ (returned tt, record g { dry_run_violations = some (buf ++ v ∷ []) })
    | none ↦ and_then (escalate (policy_violation v) g) (λ _ g'. (raised (violation v), g'))
  ]

  -- `_run_pre`
  unfoldable pub run_pre : List (Policy S) → Call → Guard S → Outcome (Unit {0}) × Guard S
  run_pre [] c g = (returned tt, g)
  run_pre (p ∷ ps) c g =
      and_then (catch_violation (outside (pre_hook p c) g) handle_violation)
        (λ _ g'. run_pre ps c g')

  -- One turn of the loop of `_run_post`
  abbrev pub post_step : Policy S → Call → Value → Guard S → Outcome Value × Guard S
  post_step p c result g =
      catch_violation
        (and_then (outside (post_hook p c result) g)
          (λ replacement g'. (returned (replaced result replacement), g')))
        (λ v g'. and_then (handle_violation v g') (λ _ g''. (returned result, g'')))

  -- `_run_post`
  unfoldable pub run_post : List (Policy S) → Call → Value → Guard S → Outcome Value × Guard S
  run_post [] c result g = (returned result, g)
  run_post (p ∷ ps) c result g =
      and_then (post_step p c result g) (λ result' g'. run_post ps c result' g')

  -- The wrapper that `_build_sync_wrapper` returns
  unfoldable pub build_sync_wrapper :
      (Call → S → Outcome Value × S) → List (Policy S) → Call → Guard S → Outcome Value × Guard S
  build_sync_wrapper agent resolved c g =
      and_then (run_pre resolved c g)
        (λ _ g1. and_then (outside (agent c) g1) (λ result g2. run_post resolved c result g2))

  -- `with Guardian.dry_run() as buf: body`: the body's outcome with what `buf` holds at the end;
  -- the `finally` puts back the buffer that was there.
  unfoldable pub dry_run :
      {A : Type 0}
      → (Guard S → Outcome A × Guard S)
      → Guard S
      → (Outcome A × List PolicyViolation) × Guard S
  dry_run body g =
      let (o, g') = body (record g { dry_run_violations = some [] }) in
      (
        (o, get_or g'.dry_run_violations []),
        record g' { dry_run_violations = g.dry_run_violations },
      )

  -- `Guardian.get_dry_run_violations`
  unfoldable pub get_dry_run_violations : Guard S → List PolicyViolation
  get_dry_run_violations g = get_or g.dry_run_violations []
