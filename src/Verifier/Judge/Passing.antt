-- ===== src/Verifier/Judge/Passing.antt =====
-- An audit by the judge of src/primal_ai/verifier/llm_judge.py alone.
use primal_core.Base.{
  ℕ, String, ◌<>◌, ◌↔◌, ◌⊎◌, ◌≢◌, inl, arith, true, false, eq_iff, Bool-cases, some, [], ◌∷◌, inr,
  returned, str_eq, ◌≡◌, refl, arith,
}
use primal_core.Base.Value.{Value}
use primal_core.Verifier.Verdict.{
  pass_status, fail_status, uncertain_status, aggregate_status, aggregate_from, VerdictStatus,
  status_value,
}
use primal_core.Verifier.Audit.{
  raw, Verifiers, Report, report, audit, resolve_layers, resolve_each, run_layers, run_layer,
  target_for_layer,
}
use primal_core.Verifier.Judge.{
  TextMethods, ByoLlmJudge, says, read_status, parse_response, judge_verdict, verify, judge_layer,
}

aggregate_from-one : (s : VerdictStatus) → aggregate_from false false (s ∷ []) ≡ s
unfolding aggregate_from
aggregate_from-one pass_status = refl
aggregate_from-one fail_status = refl
aggregate_from-one uncertain_status = refl

-- `s.startswith(p)` is true exactly if `s` is `p` with a rest.
pub record IsText (m : TextMethods) : Type 0 where
  pub starts_with_iff :
      (s p : String) → (m.starts_with s p ≡ true) ↔ ((rest : String) × (p <> rest ≡ s))

-- A line is a word alone, or the word with a space and anything behind it.
abbrev pub IsHeaded : String → String → Type 0
IsHeaded word line = (line ≡ word) ⊎ ((rest : String) × ((word <> " ") <> rest ≡ line))

-- The answer, when there is one but for white space, has this word at the head of its first line,
-- which is stripped and in upper case.
abbrev pub Answers : TextMethods → String → String → Type 0
Answers m word response =
    (m.strip response ≢ "") × IsHeaded word (m.upper (m.strip (m.first_line (m.strip response)).0))

module _ (m : TextMethods) (law : IsText m) where
  says-IsHeaded :
      (token : String) (c : VerdictStatus)
      → (says m token c ≡ true) ↔ IsHeaded (status_value c) token
  unfolding says
  says-IsHeaded token c = elim (Bool-cases (str_eq token (status_value c))) [
    | inl e ↦ rw e (λ t. inl ((eq_iff token (status_value c)).0 e), λ h. refl)
    | inr n ↦
        let (to, from) = law.starts_with_iff token (status_value c <> " ") in
        rw n (
          λ t. inr (to t),
          λ h. elim h [
            | inl e ↦ absurd (cc ((eq_iff token (status_value c)).1 e, n))
            | inr more ↦ from more
          ],
        )
  ]

  nonempty : (t : String) → (str_eq t "" ≡ false) ↔ (t ≢ "")
  nonempty t = let (to, from) = eq_iff t "" in grind (arith, to, from)

  parse_response-Answers :
      (response : String)
      → (((parse_response m response).0 ≡ pass_status) ↔ Answers m "PASS" response)
        × (((parse_response m response).0 ≡ fail_status)
            ↔ ((¬ Answers m "PASS" response) × Answers m "FAIL" response))
  unfolding parse_response read_status
  parse_response-Answers response =
      let token = m.upper (m.strip (m.first_line (m.strip response)).0) in
      let (some_text, text_some) = nonempty (m.strip response) in
      let (p, p') = says-IsHeaded token pass_status in
      let (f, f') = says-IsHeaded token fail_status in
      elim (Bool-cases (str_eq (m.strip response) "")) [
        | inl e ↦
            rw (e, parse_response)
              (
                (
                  (λ z. absurd (ground arith)),
                  (λ a. absurd (a.0 ((eq_iff (m.strip response) "").0 e))),
                ),
                (
                  (λ z. absurd (ground arith)),
                  (λ a. absurd (a.1.0 ((eq_iff (m.strip response) "").0 e))),
                ),
              )
        | inr e ↦ elim (Bool-cases (says m token pass_status)) [
          | inl y ↦
              rw (e, parse_response, y, read_status)
                (
                  ((λ z. (some_text e, p y)), (λ a. refl)),
                  ((λ z. absurd (ground arith)), (λ a. absurd (a.0 (some_text e, p y)))),
                )
          | inr n ↦ elim (Bool-cases (says m token fail_status)) [
            | inl y ↦
                rw (e, parse_response, n, read_status, y)
                  (
                    ((λ z. absurd (ground arith)), (λ a. absurd (cc (p' a.1, n)))),
                    ((λ z. ((λ a. absurd (cc (p' a.1, n))), (some_text e, f y))), (λ a. refl)),
                  )
            | inr nn ↦
                rw (e, parse_response, n, read_status, nn)
                  (
                    ((λ z. absurd (ground arith)), (λ a. absurd (cc (p' a.1, n)))),
                    ((λ z. absurd (ground arith)), (λ a. absurd (cc (f' a.1.1, nn)))),
                  )
          ]
        ]
      ]

  module _ {S : Type 0} (judge : ByoLlmJudge S) where
    audit-judge_layer :
        (v : Value) (vs : Verifiers S) (prompt response : String) (elapsed : ℕ) (s : S)
        → m.format judge.prompt_template (raw v) ≡ returned prompt
        → judge.call_llm prompt vs.state ≡ ((returned response, elapsed), s)
        → audit (raw v) (some (inr (judge_layer m judge) ∷ [])) vs ≡ (
          returned (report (judge_verdict m judge prompt response elapsed ∷ [])),
          record vs { state = s },
        )
    unfolding audit resolve_layers resolve_each run_layers run_layer target_for_layer verify
    audit-judge_layer v vs prompt response elapsed s e h = rw (e, h) refl

    -- An audit by a judge alone whose model answers returns a report. It passes exactly when the
    -- answer is more than white space and its first line, stripped and in upper case, is PASS, or is
    -- PASS with a space and anything behind it; it fails exactly when that is not so and the same
    -- holds of FAIL.
    pub audit_judge :
        (v : Value) (vs : Verifiers S) (prompt response : String) (elapsed : ℕ) (s : S)
        → m.format judge.prompt_template (raw v) ≡ returned prompt
        → judge.call_llm prompt vs.state ≡ ((returned response, elapsed), s)
        → (r : Report) × (audit (raw v) (some (inr (judge_layer m judge) ∷ [])) vs
            ≡ (returned r, record vs { state = s }))
          × ((r.status ≡ pass_status) ↔ Answers m "PASS" response)
          × ((r.status ≡ fail_status) ↔ ((¬ Answers m "PASS" response) × Answers m "FAIL" response))
    unfolding parse_response aggregate_status
    audit_judge v vs prompt response elapsed s e h =
        let verdict = judge_verdict m judge prompt response elapsed in
        let same = aggregate_from-one verdict.status in
        let (p, f) = parse_response-Answers response in
        (
          report (verdict ∷ []),
          audit-judge_layer v vs prompt response elapsed s e h,
          rw same p,
          rw same f,
        )
