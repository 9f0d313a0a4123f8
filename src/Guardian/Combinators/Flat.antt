-- ===== src/Guardian/Combinators/Flat.antt =====
-- `AllOf` against the lists of policies that `_run_pre` and `_run_post` take
-- (src/primal_ai/guardian/_combinators.py, _core.py).
use primal_core.Base.{
  ◌≡◌, refl, sym, ap, ◌∙◌, Bool, true, false, none, List, [], ◌∷◌, PolicyViolation, Outcome,
  returned, raised, violation, exception, base_exception, inl, inr, arith, ◌||◌, not, Bool-cases,
}
use primal_core.Base.Value.{Value}
use primal_core.Guardian.Policy.{
  Call, Policy, Guard, policy_violation, and_then, catch_violation, outside, lift, with_state,
  pre_hook, post_hook, is_null, replaced,
}
use primal_core.Guardian.Run.{run_pre, run_post, handle_violation, escalate}
use primal_core.Guardian.Combinators.{all_of, all_of_pre, all_of_post, all_of_post_from}

and_then-pure : {G A : Type 0} (o : Outcome A × G) → and_then o (λ a g. (returned a, g)) ≡ o
and_then-pure (returned a, g) = refl
and_then-pure (raised e, g) = refl

-- What the loop of `AllOf.check_post` knows of `current` and `replaced`, from the result r on
IsCurrent : Bool → Value → Value → Type 0
IsCurrent true current r = is_null current ≡ false
IsCurrent false current r = current ≡ r

IsCurrent-replaced :
    (was : Bool) (current r replacement : Value)
    → IsCurrent was current r
    → IsCurrent (was || not (is_null replacement)) (replaced current replacement) r
unfolding IsCurrent
IsCurrent-replaced true current r replacement h = ground arith
IsCurrent-replaced false current r replacement h = elim (Bool-cases (is_null replacement)) [
  | inl e ↦ rw e h
  | inr e ↦ rw e e
]

module _ {S : Type 0} where
  -- Outside a dry run `_handle_violation` escalates and raises.
  handle_violation-raises :
      (v : PolicyViolation) (g : Guard S)
      → g.dry_run_violations ≡ none
      → handle_violation v g
        ≡ and_then (escalate (policy_violation v) g) (λ _ g'. (raised (violation v), g'))
  unfolding handle_violation
  handle_violation-raises v g off = rw off refl

  stops :
      {A B : Type 0} (v : PolicyViolation) (o : Outcome (Unit {0}) × Guard S)
      (k : A → Guard S → Outcome B × Guard S)
      → and_then (and_then {B = A} o (λ _ g'. (raised (violation v), g'))) k
        ≡ and_then o (λ _ g'. (raised (violation v), g'))
  stops v (returned u, g) k = refl
  stops v (raised e, g) k = refl

  pub handle_violation-stops :
      {A : Type 0} (v : PolicyViolation) (g : Guard S)
      (k : Unit {0} → Guard S → Outcome A × Guard S)
      → g.dry_run_violations ≡ none
      → and_then (handle_violation v g) k
        ≡ and_then (escalate (policy_violation v) g) (λ _ g'. (raised (violation v), g'))
  handle_violation-stops v g k off =
      ap (λ o. and_then o k) (handle_violation-raises v g off)
      ∙ stops v (escalate (policy_violation v) g) k

  run_pre-hooks_step :
      (o : Outcome (Unit {0}) × S) (ps : List (Policy S)) (c : Call) (g : Guard S)
      → g.dry_run_violations ≡ none
      → ((g' : Guard S)
          → g'.dry_run_violations ≡ none
          → run_pre ps c g' ≡ catch_violation (outside (all_of_pre ps c) g') handle_violation)
      → and_then (catch_violation (lift o g) handle_violation) (λ _ g'. run_pre ps c g')
        ≡ catch_violation (lift (and_then o (λ _ s. all_of_pre ps c s)) g) handle_violation
  run_pre-hooks_step (returned u, s) ps c g off rest = rest (with_state s g) off
  run_pre-hooks_step (raised (violation v), s) ps c g off rest =
      handle_violation-stops v (with_state s g) _ off
      ∙ sym (handle_violation-raises v (with_state s g) off)
  run_pre-hooks_step (raised (exception t m), s) ps c g off rest = refl
  run_pre-hooks_step (raised (base_exception t m), s) ps c g off rest = refl

  pub run_pre-hooks :
      (ps : List (Policy S)) (c : Call) (g : Guard S)
      → g.dry_run_violations ≡ none
      → run_pre ps c g ≡ catch_violation (outside (all_of_pre ps c) g) handle_violation
  unfolding run_pre all_of_pre
  run_pre-hooks [] c g off = refl
  run_pre-hooks (p ∷ ps) c g off =
      run_pre-hooks_step (pre_hook p c g.state) ps c g off (run_pre-hooks ps c)

  -- Outside a dry run, `_run_pre` on `AllOf(*ps)` is `_run_pre` on the policies themselves: the
  -- same hooks run, the same violation is escalated once and raised, and the state is the same.
  pub run_pre-all_of :
      (ps : List (Policy S)) (c : Call) (g : Guard S)
      → g.dry_run_violations ≡ none
      → run_pre (all_of ps ∷ []) c g ≡ run_pre ps c g
  unfolding all_of run_pre
  run_pre-all_of ps c g off =
      and_then-pure (catch_violation (outside (all_of_pre ps c) g) handle_violation)
      ∙ sym (run_pre-hooks ps c g off)

  -- The result that `_run_post` goes on with when the policy is `AllOf(*ps)`
  all_of_step : Value → Outcome Value × S → Guard S → Outcome Value × Guard S
  all_of_step r o g =
      catch_violation
        (and_then (lift o g) (λ replacement g'. (returned (replaced r replacement), g')))
        (λ v g'. and_then (handle_violation v g') (λ _ g''. (returned r, g'')))

  run_post-hooks_step :
      (o : Outcome Value × S) (ps : List (Policy S)) (c : Call) (was : Bool) (current r : Value)
      (g : Guard S)
      → g.dry_run_violations ≡ none
      → IsCurrent was current r
      → ((was' : Bool) (current' : Value) (g' : Guard S)
          → g'.dry_run_violations ≡ none
          → IsCurrent was' current' r
          → run_post ps c current' g'
            ≡ all_of_step r (all_of_post_from ps c current' was' g'.state) g')
      → and_then (all_of_step current o g) (λ result g'. run_post ps c result g')
        ≡ all_of_step r
            (and_then o (λ replacement s.
              all_of_post_from ps c
                (replaced current replacement)
                (was || not (is_null replacement))
                s))
            g
  unfolding all_of_step
  run_post-hooks_step (returned replacement, s) ps c was current r g off h rest =
      rest (was || not (is_null replacement)) (replaced current replacement) (with_state s g) off
        (IsCurrent-replaced was current r replacement h)
  run_post-hooks_step (raised (violation v), s) ps c was current r g off h rest =
      let g' = with_state s g in
      ap (λ o. and_then o (λ result g''. run_post ps c result g''))
        (handle_violation-stops v g' (λ _ g''. (returned current, g'')) off)
      ∙ stops v (escalate (policy_violation v) g') (λ result g''. run_post ps c result g'')
      ∙ sym (handle_violation-stops v g' (λ _ g''. (returned r, g'')) off)
  run_post-hooks_step (raised (exception t m), s) ps c was current r g off h rest = refl
  run_post-hooks_step (raised (base_exception t m), s) ps c was current r g off h rest = refl

  run_post-hooks :
      (ps : List (Policy S)) (c : Call) (r : Value) (was : Bool) (current : Value) (g : Guard S)
      → g.dry_run_violations ≡ none
      → IsCurrent was current r
      → run_post ps c current g ≡ all_of_step r (all_of_post_from ps c current was g.state) g
  unfolding run_post all_of_post_from all_of_step IsCurrent
  run_post-hooks [] c r true current g off h = rw h refl
  run_post-hooks [] c r false current g off h = ap (λ x. (returned x, g)) h
  run_post-hooks (p ∷ ps) c r was current g off h =
      run_post-hooks_step (post_hook p c current g.state) ps c was current r g off h
        (run_post-hooks ps c r)

  -- Outside a dry run, `_run_post` on `AllOf(*ps)` is `_run_post` on the policies themselves: the
  -- same replacements reach the same hooks, and the result, the exception and the state are the
  -- same.
  pub run_post-all_of :
      (ps : List (Policy S)) (c : Call) (result : Value) (g : Guard S)
      → g.dry_run_violations ≡ none
      → run_post (all_of ps ∷ []) c result g ≡ run_post ps c result g
  unfolding all_of run_post all_of_step IsCurrent
  run_post-all_of ps c result g off =
      and_then-pure (all_of_step result (all_of_post ps c result g.state) g)
      ∙ sym (run_post-hooks ps c result false result g off refl)
