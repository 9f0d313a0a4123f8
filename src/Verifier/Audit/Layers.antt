-- ===== src/Verifier/Audit/Layers.antt =====
-- `Verifier.audit` on layers that resolve (src/primal_ai/verifier/_core.py).
use primal_core.Base.{
  Option, ◌⊎◌, get_or, ℕ, String, ◌≡◌, refl, ap, ◌∙◌, Bool, true, false, not, ◌&&◌, any, all, some,
  List, [], ◌∷◌, map, Outcome, returned, raised, violation, exception, base_exception, All, arith,
}
use primal_core.Guardian.Policy.{and_then}
use mathlib.Core.Bool.{false≢true}
use primal_core.Verifier.Verdict.{
  Verdict, VerdictStatus, pass_status, fail_status, uncertain_status, statuses,
}
use primal_core.Verifier.Verdict.Aggregation.{
  rule, is_pass, is_fail, is_empty, aggregate_status-rule,
}
use primal_core.Verifier.Audit.{
  Target, Layer, Verifiers, report, judged, run_layer, Report, run_layers, resolve_layers, audit,
  target_for_layer, raised_verdict,
}

-- What one layer did: its name, its outcome and the milliseconds that it took
abbrev pub Answer : Type 0
Answer = String × (Outcome Verdict × ℕ)

-- The layer raised nothing that `except Exception` does not catch.
abbrev pub IsCaught : Outcome Verdict → Type 0
IsCaught (raised (base_exception cls message)) = ⊥
IsCaught _ = Unit

-- The layer returned a verdict that passes.
abbrev pub answered_pass : Answer → Bool
answered_pass (name, (returned v, elapsed)) = is_pass v.status
answered_pass (name, (raised e, elapsed)) = false

-- The verdict that stands for the answer; a layer that raised is uncertain.
unfoldable pub verdict_of : Answer → Verdict
verdict_of (name, (returned v, elapsed)) = record v {
  latency_ms = some (get_or v.latency_ms elapsed);
}
verdict_of (name, (raised (violation v), elapsed)) =
    raised_verdict name "PolicyViolation" v.policy_name elapsed
verdict_of (name, (raised (exception cls message), elapsed)) =
    raised_verdict name cls message elapsed
verdict_of (name, (raised (base_exception cls message), elapsed)) =
    raised_verdict name cls message elapsed

module _ {S : Type 0} where
  abbrev pub NeverEscapes : Layer S → Type 0
  NeverEscapes layer = (t : Target) (s : S) → IsCaught (layer.verify t s).0.0

  -- Every layer asked, one after the other, whatever the others answer
  unfoldable pub answers : List (Layer S) → Target → S → List Answer × S
  answers [] output s = ([], s)
  answers (layer ∷ layers) output s =
      let (o, s1) = layer.verify (target_for_layer layer output) s in
      let (rest, s2) = answers layers output s1 in ((layer.name, o) ∷ rest, s2)

  layer_turn :
      (o : (Outcome Verdict × ℕ) × S) (name : String) (layers : List (Layer S)) (output : Target)
      → IsCaught o.0.0
      → run_layers layers output o.1
        ≡ (returned (map verdict_of (answers layers output o.1).0), (answers layers output o.1).1)
      → and_then
          (judged name o.0, o.1)
          (λ v s1. and_then (run_layers layers output s1) (λ rest s2. (returned (v ∷ rest), s2)))
        ≡ (
          returned (verdict_of (name, o.0) ∷ map verdict_of (answers layers output o.1).0),
          (answers layers output o.1).1,
        )
  unfolding verdict_of
  layer_turn ((returned v, elapsed), s) name layers output t rest = rw rest refl
  layer_turn ((raised (violation v), elapsed), s) name layers output t rest = rw rest refl
  layer_turn ((raised (exception a m), elapsed), s) name layers output t rest = rw rest refl
  layer_turn ((raised (base_exception a m), elapsed), s) name layers output t rest = elim t [ ]

  run_layers-answers :
      (layers : List (Layer S)) (output : Target) (s : S)
      → All NeverEscapes layers
      → run_layers layers output s
        ≡ (returned (map verdict_of (answers layers output s).0), (answers layers output s).1)
  unfolding run_layers answers run_layer
  run_layers-answers [] output s t = refl
  run_layers-answers (layer ∷ layers) output s t =
      let o = layer.verify (target_for_layer layer output) s in
      layer_turn o layer.name layers output (t.0 (target_for_layer layer output) s)
        (run_layers-answers layers output o.1 t.1)

  -- `audit` never raises when the chosen layers resolve and none of them raises a `BaseException`
  -- that is not an `Exception`: every layer is asked, in order, and the report holds one verdict for
  -- each, its own when it returned one and an uncertain one when it raised.
  pub audit-answers :
      (chosen : Option (List (String ⊎ Layer S))) (layers : List (Layer S)) (output : Target)
      (vs vs1 : Verifiers S)
      → resolve_layers chosen vs ≡ (returned layers, vs1)
      → All NeverEscapes layers
      → audit output chosen vs ≡ (
        returned (report (map verdict_of (answers layers output vs1.state).0)),
        record vs1 { state = (answers layers output vs1.state).1 },
      )
  unfolding audit
  audit-answers chosen layers output vs vs1 e t =
      rw (e, run_layers-answers layers output vs1.state t) refl

all_pass-none_fails : (ss : List VerdictStatus) → all is_pass ss ≡ true → any is_fail ss ≡ false
all_pass-none_fails [] h = refl
all_pass-none_fails (pass_status ∷ ss) h = all_pass-none_fails ss h
all_pass-none_fails (fail_status ∷ ss) h = absurd (false≢true h)
all_pass-none_fails (uncertain_status ∷ ss) h = absurd (false≢true h)

passes_rule : (ss : List VerdictStatus) → is_pass (rule ss) ≡ (all is_pass ss && not (is_empty ss))
unfolding rule
passes_rule ss = ground (arith, all_pass-none_fails ss)

all_answers_pass :
    (given : List Answer) → all is_pass (statuses (map verdict_of given)) ≡ all answered_pass given
unfolding verdict_of
all_answers_pass [] = refl
all_answers_pass ((name, (returned v, elapsed)) ∷ given) =
    ap (λ b. is_pass v.status && b) (all_answers_pass given)
all_answers_pass ((name, (raised (violation v), elapsed)) ∷ given) = refl
all_answers_pass ((name, (raised (exception a m), elapsed)) ∷ given) = refl
all_answers_pass ((name, (raised (base_exception a m), elapsed)) ∷ given) = refl

empty_answers :
    {S : Type 0} (layers : List (Layer S)) (output : Target) (s : S)
    → is_empty (statuses (map verdict_of (answers layers output s).0)) ≡ is_empty layers
unfolding answers
empty_answers [] output s = refl
empty_answers (layer ∷ layers) output s = refl

-- When the layers to run, given by name, as objects or by the default chain, resolve, and none of
-- them raises a `BaseException` that is not an `Exception`, an audit returns a report. The report
-- passes exactly when there are layers and every one of them returned a verdict that passes: a layer
-- that raised, or that is not sure, keeps the audit from passing.
pub audit_passes :
    {S : Type 0} (chosen : Option (List (String ⊎ Layer S))) (layers : List (Layer S))
    (output : Target) (vs vs1 : Verifiers S)
    → resolve_layers chosen vs ≡ (returned layers, vs1)
    → All NeverEscapes layers
    → (r : Report) × (vs' : Verifiers S) × (audit output chosen vs ≡ (returned r, vs'))
      × (is_pass r.status
          ≡ (all answered_pass (answers layers output vs1.state).0 && not (is_empty layers)))
audit_passes chosen layers output vs vs1 e t =
    let given = (answers layers output vs1.state).0 in
    (
      report (map verdict_of given),
      record vs1 { state = (answers layers output vs1.state).1 },
      audit-answers chosen layers output vs vs1 e t,
      ap is_pass (aggregate_status-rule (map verdict_of given))
          ∙ passes_rule (statuses (map verdict_of given))
          ∙ ap (λ b. b && not (is_empty (statuses (map verdict_of given)))) (all_answers_pass given)
          ∙ ap (λ b. all answered_pass given && not b) (empty_answers layers output vs1.state),
    )
