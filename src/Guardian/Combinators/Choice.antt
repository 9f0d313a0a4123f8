-- ===== src/Guardian/Combinators/Choice.antt =====
-- `AnyOf` (src/primal_ai/guardian/_combinators.py) on policies whose hooks do not change the state.
use primal_core.Base.{
  ◌≡◌, refl, Bool, true, false, Option, none, some, List, [], ◌∷◌, ◌||◌, any, PolicyViolation,
  Outcome, returned, raised, violation, exception, base_exception, All, ap, ◌∙◌,
}
use primal_core.Guardian.Policy.{Call, Policy, catch_violation, pre_hook}
use primal_core.Guardian.Run.DryRun.{IsTame}
use primal_core.Guardian.Combinators.{any_of_pre_from, any_of}

abbrev pub is_returned : {A : Type 0} → Outcome A → Bool
is_returned (returned _) = true
is_returned (raised _) = false

module _ {S : Type 0} where
  -- The policy's pre-hook lets the call through in the state s.
  abbrev pub lets_through : Call → S → Policy S → Bool
  lets_through c s p = is_returned (pre_hook p c s).0

  -- In the state s, the pre-hook raises nothing but a violation, and leaves the state alone.
  abbrev pub IsPure : Call → S → Policy S → Type 0
  IsPure c s p = IsTame (pre_hook p c s).0 × ((pre_hook p c s).1 ≡ s)

  turn :
      (p : Policy S) (ps : List (Policy S)) (c : Call) (last : Option PolicyViolation) (s : S)
      → any_of_pre_from (p ∷ ps) c last s
        ≡ catch_violation (pre_hook p c s) (λ v s'. any_of_pre_from ps c (some v) s')
  unfolding any_of_pre_from
  turn p ps c last s =
      elim p.check_pre
        as (λ o.
          any_of_pre_from ((record p { check_pre = o }) ∷ ps) c last s
          ≡ catch_violation (pre_hook (record p { check_pre = o }) c s)
              (λ v s'. any_of_pre_from ps c (some v) s')) [ none ↦ refl | some hook ↦ refl ]

  turn_decides :
      (o : Outcome (Unit {0}) × S) (ps : List (Policy S)) (c : Call) (s : S)
      → IsTame o.0
      → o.1 ≡ s
      → ((v : PolicyViolation)
          → is_returned (any_of_pre_from ps c (some v) s).0 ≡ any (lets_through c s) ps)
      → is_returned (catch_violation o (λ v s'. any_of_pre_from ps c (some v) s')).0
        ≡ (is_returned o.0 || any (lets_through c s) ps)
  turn_decides (returned u, s') ps c s t e rest = refl
  turn_decides (raised (violation v), s') ps c s t e rest =
      ap (λ q. is_returned (any_of_pre_from ps c (some v) q).0) e ∙ rest v
  turn_decides (raised (exception a m), s') ps c s t e rest = elim t [ ]
  turn_decides (raised (base_exception a m), s') ps c s t e rest = elim t [ ]

  any_of_pre_from-any :
      (ps : List (Policy S)) (c : Call) (v : PolicyViolation) (s : S)
      → All (IsPure c s) ps
      → is_returned (any_of_pre_from ps c (some v) s).0 ≡ any (lets_through c s) ps
  unfolding any_of_pre_from
  any_of_pre_from-any [] c v s t = refl
  any_of_pre_from-any (p ∷ ps) c v s t =
      ap (λ o. is_returned o.0) (turn p ps c (some v) s)
      ∙ turn_decides (pre_hook p c s) ps c s t.0.0 t.0.1 (λ w. any_of_pre_from-any ps c w s t.1)

  -- `AnyOf` on at least one policy lets a call through exactly when some policy does, whatever
  -- their order: one without a pre-hook always does. The hooks must raise nothing but
  -- `PolicyViolation` and leave the state alone.
  pub any_of-any :
      (p : Policy S) (ps : List (Policy S)) (c : Call) (s : S)
      → All (IsPure c s) (p ∷ ps)
      → lets_through c s (any_of (p ∷ ps)) ≡ any (lets_through c s) (p ∷ ps)
  unfolding any_of
  any_of-any p ps c s t =
      ap (λ o. is_returned o.0) (turn p ps c none s)
      ∙ turn_decides (pre_hook p c s) ps c s t.0.0 t.0.1 (λ w. any_of_pre_from-any ps c w s t.1)
