-- ===== src/Guardian/DollarCap/Bound.antt =====
-- When a `DollarCap` with an hourly cap lets a call through, after any other calls
-- (src/primal_ai/guardian/_builtins/dollar_cap.py).
use primal_core.Base.{
  ℕ, ◌≤◌, String, ◌≡◌, ◌↔◌, refl, sym, ap, ◌∙◌, subst, true, Option, none, some, List, [], ◌∷◌,
  ◌++◌, returned, arith, Option-cases, inl, inr,
}
use mathlib.Core.List.{append-nil}
use primal_core.Base.Value.{Value}
use primal_core.Base.Int.{ℤ, ◌+ℤ◌, ◌≤ℤ◌, ltb_ℤ}
use primal_core.Guardian.DollarCap.{
  DollarCap, init, extract_cost, drop_old, total, check_post, is_over,
}
use primal_core.Guardian.DollarCap.Spending.{
  spent, Ordered-later, Mirrors, check_hour_capped, charged, hour_result-Mirrors,
  hour_result-passes, running,
}

-- The times of the calls go up, from `last` on, and end by `now`.
abbrev pub Ascends : ℕ → List (ℕ × Value) → ℕ → Type 0
Ascends last [] now = last ≤ now
Ascends last ((t, result) ∷ calls) now = (last ≤ t) × Ascends t calls now

module _ (cost_attribute : String → Option Value) (float_of_text : String → Option ℤ)
    (float_of_object : String → Option ℤ) where
  abbrev cost_of : Value → Option ℤ
  unfolding extract_cost
  cost_of result = extract_cost cost_attribute float_of_text float_of_object result

  -- The calls in turn, each with its result, and the log of the costs that were let through
  unfoldable pub check_calls :
      List (ℕ × Value) → List (ℕ × ℤ) → DollarCap → List (ℕ × ℤ) × DollarCap
  unfolding check_post extract_cost
  check_calls [] log d = (log, d)
  check_calls ((now, result) ∷ calls) log d =
      let (o, d') = check_post cost_attribute float_of_text float_of_object now result d in
      check_calls calls
        (log ++ charged now (extract_cost cost_attribute float_of_text float_of_object result) o) d'

  module _ (most : ℤ) (per_call : Option ℤ) where
    unlogged :
        (last now : ℕ) (log : List (ℕ × ℤ)) (d d' : DollarCap)
        → Mirrors most per_call last log d
        → last ≤ now
        → d'.max_per_hour ≡ d.max_per_hour
        → d'.max_per_call ≡ d.max_per_call
        → d'.history ≡ d.history
        → Mirrors most per_call now (log ++ []) d'
    unlogged last now log d d' m le hour call history = record {
      capped = hour ∙ m.capped;
      single = call ∙ m.single;
      ordered = rw history (Ordered-later last now d.history le m.ordered);
      same = λ t lt.
          ap (spent t) history ∙ m.same t (omega arith) ∙ ap (spent t) (sym (append-nil log));
    }

    check_post-Mirrors :
        (last now : ℕ) (result : Value) (log : List (ℕ × ℤ)) (d : DollarCap)
        → Mirrors most per_call last log d
        → last ≤ now
        → Mirrors most per_call now
            (log
              ++ charged now
                  (extract_cost cost_attribute float_of_text float_of_object result)
                  (check_post cost_attribute float_of_text float_of_object now result d).0)
            (check_post cost_attribute float_of_text float_of_object now result d).1
    unfolding check_post
    check_post-Mirrors last now result log d m le =
        elim (Option-cases (extract_cost cost_attribute float_of_text float_of_object result)) [
          | inl free ↦
              rw (free, check_post)
                (unlogged last now log d (record d { warned_missing_cost = true }) m le refl refl
                  refl)
          | inr (cost, priced) ↦ elim (Option-cases (is_over cost d.max_per_call)) [
            | inl below ↦
                rw (priced, check_post, below, check_hour_capped now cost most d m.capped)
                  (hour_result-Mirrors most per_call last now log cost d m le _)
            | inr (cap, above) ↦
                rw (priced, check_post, above) (unlogged last now log d d m le refl refl refl)
          ]
        ]

    check_calls-Mirrors :
        (last now : ℕ) (calls : List (ℕ × Value)) (log : List (ℕ × ℤ)) (d : DollarCap)
        → Mirrors most per_call last log d
        → Ascends last calls now
        → let (log', d') = check_calls calls log d in Mirrors most per_call now log' d'
    unfolding check_calls
    check_calls-Mirrors last now [] log d m le = record {
      capped = m.capped;
      single = m.single;
      ordered = Ordered-later last now d.history le m.ordered;
      same = λ t lt. m.same t (omega arith);
    }
    check_calls-Mirrors last now ((t, result) ∷ calls) log d m (le, up) =
        check_calls-Mirrors t now calls _ _ (check_post-Mirrors last t result log d m le) up

    passes :
        (now : ℕ) (cost x : ℤ) (result : Value) (d : DollarCap)
        → extract_cost cost_attribute float_of_text float_of_object result ≡ some cost
        → d.max_per_hour ≡ some most
        → total (drop_old now d.history) ≡ x
        → ((check_post cost_attribute float_of_text float_of_object now result d).0 ≡ returned tt)
          ↔ ((is_over cost d.max_per_call ≡ none) × (x +ℤ cost ≤ℤ most))
    unfolding check_post
    passes now cost x result d priced capped same =
        elim (Option-cases (is_over cost d.max_per_call)) [
          | inl below ↦
              rw (priced, check_post, below, check_hour_capped now cost most d capped, same)
                (grind (arith, hour_result-passes now cost most d (ltb_ℤ most (x +ℤ cost))))
          | inr (cap, above) ↦ rw (priced, check_post, above) (ground arith)
        ]

    -- A `DollarCap` with an hourly cap, on a result that reports a cost, after any calls at times that
    -- go up: it lets the call through exactly when the cost alone is not over the cap of a call, if
    -- there is one, and the costs that it has let through in the hour up to now, with this one, are
    -- not over the hourly cap.
    pub check_post-bound :
        (calls : List (ℕ × Value)) (now : ℕ) (result : Value) (cost : ℤ)
        → Ascends 0 calls now
        → extract_cost cost_attribute float_of_text float_of_object result ≡ some cost
        → let (log, d) = check_calls calls [] (init per_call (some most)) in
          ((check_post cost_attribute float_of_text float_of_object now result d).0 ≡ returned tt)
          ↔ ((is_over cost per_call ≡ none) × (spent now log +ℤ cost ≤ℤ most))
    unfolding init
    check_post-bound calls now result cost up priced =
        let start : Mirrors most per_call 0 [] (init per_call (some most)) = record {
          capped = refl;
          single = refl;
          ordered = tt;
          same = λ t lt. refl;
        } in
        let (log, d) = check_calls calls [] (init per_call (some most)) in
        let m = check_calls-Mirrors 0 now calls [] (init per_call (some most)) start up in
        subst
          (λ o.
            ((check_post cost_attribute float_of_text float_of_object now result d).0 ≡ returned tt)
            ↔ ((is_over cost o ≡ none) × (spent now log +ℤ cost ≤ℤ most)))
          m.single
          (passes now cost (spent now log) result d priced m.capped
            (running most per_call now now log cost d m (omega arith)))
