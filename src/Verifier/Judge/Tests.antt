-- ===== src/Verifier/Judge/Tests.antt =====
-- Runs of the judge (src/primal_ai/verifier/llm_judge.py) on models that answer a fixed text. The
-- methods of `str` but `startswith` are fixed too: every text is its own first line, as it stands.
use text.Mathlib.Text
use text.Mathlib.TextEquality
use primal_core.Base.{
  ℕ, suc, String, some, none, [], ◌∷◌, inr, returned, raised, exception, ◌≡◌, refl, ◌↔◌,
}
use primal_core.Base.Value.{null}
use primal_core.Verifier.Verdict.{pass_status, uncertain_status, fail_status}
use primal_core.Verifier.Audit.{raw, Verifiers, Report, audit}
use primal_core.Verifier.Judge.{
  TextMethods, ByoLlmJudge, says, read_status, parse_response, verify, judge_layer,
}
use primal_core.Verifier.Judge.Passing.{IsText, Answers, audit_judge}

abbrev plain : TextMethods
plain = record {
  strip = λ s. s;
  upper = λ s. s;
  lower = λ s. s;
  first_line = λ s. (s, "");
  starts_with = Text.starts_with;
  first_80 = λ s. s;
  format = λ template target. returned template;
}

abbrev answering : String → ByoLlmJudge ℕ
answering response = record {
  call_llm = λ prompt s. ((returned response, 7), suc s);
  prompt_template = "judge this";
  name = "byo_llm_judge";
  per_call_cost = none;
}

abbrev unreachable : ByoLlmJudge ℕ
unreachable = record (answering "") {
  call_llm = λ prompt s. ((raised (exception "TimeoutError" "down"), 9), suc s);
}

empty_answer : parse_response plain "" ≡ (uncertain_status, "empty LLM response")
unfolding parse_response
empty_answer = refl

no_status : parse_response plain "PASSED" ≡ (uncertain_status, "unparseable LLM response: PASSED")
unfolding parse_response read_status says
no_status = refl

one_word : parse_response plain "FAIL" ≡ (fail_status, "FAIL")
unfolding parse_response read_status says
one_word = refl

model_raises :
    verify plain unreachable (raw null) 0 ≡ ((raised (exception "TimeoutError" "down"), 9), 1)
unfolding verify
model_raises = refl

abbrev verifiers : Verifiers ℕ
verifiers = record { registry = []; default_layers = []; state = 0 }

plain-IsText : IsText plain
plain-IsText = record { starts_with_iff = TextEquality.starts_with_iff }

audit_judge_example :
    (r : Report) × (audit
        (raw null)
        (some (inr (judge_layer plain (answering "PASS looks correct")) ∷ []))
        verifiers
      ≡ (returned r, record verifiers { state = 1 }))
    × ((r.status ≡ pass_status) ↔ Answers plain "PASS" "PASS looks correct")
    × ((r.status ≡ fail_status) ↔ (
        (¬ Answers plain "PASS" "PASS looks correct") × Answers plain "FAIL" "PASS looks correct"))
audit_judge_example =
    audit_judge plain plain-IsText (answering "PASS looks correct") null verifiers "judge this"
      "PASS looks correct" 7 1 refl refl
