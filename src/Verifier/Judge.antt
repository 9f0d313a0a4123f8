-- ===== src/Verifier/Judge.antt =====
-- src/primal_ai/verifier/llm_judge.py: a layer that asks the user's model and reads its answer. The
-- methods of `str`, `str.format` and the model are parameters.
pub mod Passing
mod Tests
use primal_core.Base.{
  ℕ, String, ◌<>◌, Bool, true, false, not, ◌&&◌, ◌||◌, Option, none, some, List, [], ◌∷◌, inr,
  Outcome, returned, raised, if◌then◌else◌, str_eq, ◌≡◌, refl, arith,
}
use primal_core.Base.Value.{Value, dict, field, end, str}
use primal_core.Base.Int.{ℤ, pos}
use primal_core.Verifier.Verdict.{
  VerdictStatus, pass_status, fail_status, uncertain_status, Reason, text_reason, Verdict,
  aggregate_status, aggregate_from, status_value,
}
use primal_core.Verifier.Verdict.Aggregation.{is_pass}
use primal_core.Verifier.Audit.{
  Target, raw, Layer, Verifiers, Report, report, audit, resolve_layers, resolve_each, run_layers,
  run_layer, target_for_layer,
}

-- What the judge calls of `str`: `first_line` is `s.partition("\n")` without the line break, and
-- `first_80` is `s[:80]`.
pub record TextMethods : Type 0 where
  pub strip : String → String
  pub upper : String → String
  pub lower : String → String
  pub first_line : String → String × String
  pub starts_with : String → String → Bool
  pub first_80 : String → String
  pub format : String → Target → Outcome String

pub record ByoLlmJudge (S : Type 0) : Type 0 where
  pub call_llm : String → S → (Outcome String × ℕ) × S
  pub prompt_template : String
  pub name : String
  pub per_call_cost : Option ℤ

module _ (m : TextMethods) where
  -- The test of the loop of `_parse_response`
  unfoldable pub says : String → VerdictStatus → Bool
  says token candidate =
      str_eq token (status_value candidate) || m.starts_with token (status_value candidate <> " ")

  -- The loop, with what follows it; `reason` is that of a status word.
  unfoldable pub read_status :
      List VerdictStatus → String → String → String → VerdictStatus × String
  unfolding says
  read_status [] token reason first =
      (uncertain_status, "unparseable LLM response: " <> m.first_80 first)
  read_status (candidate ∷ candidates) token reason first =
      let rest = read_status candidates token reason first in
      if says token candidate then (candidate, reason) else rest

  -- `first.strip().upper()`
  abbrev pub token_of : String → String
  token_of response = m.upper (m.strip (m.first_line (m.strip response)).0)

  -- `rest.strip() or token.lower()`
  abbrev pub reason_of : String → String
  reason_of response =
      let rest = m.strip (m.first_line (m.strip response)).1 in
      if str_eq rest "" then m.lower (token_of response) else rest

  unfoldable pub parse_response : String → VerdictStatus × String
  unfolding read_status
  parse_response response =
      if str_eq (m.strip response) ""
      then (uncertain_status, "empty LLM response")
      else read_status (pass_status ∷ fail_status ∷ uncertain_status ∷ []) (token_of response)
          (reason_of response) (m.first_line (m.strip response)).0

  abbrev pub confidence_of : VerdictStatus → ℤ
  confidence_of uncertain_status = pos 300000
  confidence_of _ = pos 800000

  module _ {S : Type 0} (judge : ByoLlmJudge S) where
    -- What `verify` builds from the answer
    abbrev pub judge_verdict : String → String → ℕ → Verdict
    unfolding parse_response
    judge_verdict prompt response latency =
        let (status, reason) = parse_response response in
        record {
          verifier_name = judge.name;
          status = status;
          confidence = confidence_of status;
          reasons = text_reason reason ∷ [];
          details = field "response" (str response) (field "prompt" (str prompt) end);
          cost = judge.per_call_cost;
          latency_ms = some latency;
        }

    abbrev pub answered : String → (Outcome String × ℕ) × S → (Outcome Verdict × ℕ) × S
    unfolding parse_response
    answered prompt ((returned response, elapsed), s) =
        ((returned (judge_verdict prompt response elapsed), elapsed), s)
    answered prompt ((raised e, elapsed), s) = ((raised e, elapsed), s)

    abbrev pub asked : Outcome String → S → (Outcome Verdict × ℕ) × S
    unfolding parse_response
    asked (returned prompt) s = answered prompt (judge.call_llm prompt s)
    asked (raised e) s = ((raised e, 0), s)

    -- `BYOLLMJudge.verify`
    unfoldable pub verify : Target → S → (Outcome Verdict × ℕ) × S
    unfolding parse_response
    verify target s = asked (m.format judge.prompt_template target) s

    -- The judge as a layer
    abbrev pub judge_layer : Layer S
    unfolding verify
    judge_layer = record { name = judge.name; accepts_trajectory = false; verify = verify }
