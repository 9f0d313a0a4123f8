-- ===== src/Guardian/Combinators.antt =====
-- src/primal_ai/guardian/_combinators.py
pub mod Flat
pub mod Choice
use primal_core.Base.{
  Bool, true, false, Option, none, some, List, [], ◌∷◌, if◌then◌else◌, not, ◌||◌, PolicyViolation,
  Outcome, returned, raised, violation,
}
use primal_core.Base.Value.{Value, null}
use primal_core.Guardian.Policy.{
  Call, Policy, and_then, catch_violation, is_null, replaced, pre_hook, post_hook,
}

module _ {S : Type 0} where
  -- `AllOf.check_pre`
  unfoldable pub all_of_pre : List (Policy S) → Call → S → Outcome (Unit {0}) × S
  all_of_pre [] c s = (returned tt, s)
  all_of_pre (p ∷ ps) c s = and_then (pre_hook p c s) (λ _ s'. all_of_pre ps c s')

  -- The loop of `AllOf.check_post`, from `current` and `replaced` on
  unfoldable pub all_of_post_from : List (Policy S) → Call → Value → Bool → S → Outcome Value × S
  all_of_post_from [] c current was_replaced s =
      (returned (if was_replaced then current else null), s)
  all_of_post_from (p ∷ ps) c current was_replaced s =
      and_then (post_hook p c current s) (λ replacement s'.
        all_of_post_from ps c (replaced current replacement)
          (was_replaced || not (is_null replacement)) s')

  -- `AllOf.check_post`
  abbrev pub all_of_post : List (Policy S) → Call → Value → S → Outcome Value × S
  all_of_post ps c result s = all_of_post_from ps c result false s

  unfoldable pub all_of : List (Policy S) → Policy S
  all_of ps = record {
    name = "all_of";
    check_pre = some (all_of_pre ps);
    check_post = some (all_of_post ps);
  }

  -- What a loop of `AnyOf` ends with: `raise last`, or the value given
  abbrev pub raise_last : {A : Type 0} → Option PolicyViolation → A → S → Outcome A × S
  raise_last none a s = (returned a, s)
  raise_last (some v) a s = (raised (violation v), s)

  -- The loop of `AnyOf.check_pre`, from `last` on
  unfoldable pub any_of_pre_from :
      List (Policy S) → Call → Option PolicyViolation → S → Outcome (Unit {0}) × S
  any_of_pre_from [] c last s = raise_last last tt s
  any_of_pre_from (p ∷ ps) c last s = elim p.check_pre [
    | none ↦ (returned tt, s)
    | some hook ↦ catch_violation (hook c s) (λ v s'. any_of_pre_from ps c (some v) s')
  ]

  -- The loop of `AnyOf.check_post`, from `last` on
  unfoldable pub any_of_post_from :
      List (Policy S) → Call → Value → Option PolicyViolation → S → Outcome Value × S
  any_of_post_from [] c result last s = raise_last last null s
  any_of_post_from (p ∷ ps) c result last s = elim p.check_post [
    | none ↦ (returned null, s)
    | some hook ↦
        catch_violation (hook c result s) (λ v s'. any_of_post_from ps c result (some v) s')
  ]

  unfoldable pub any_of : List (Policy S) → Policy S
  any_of ps = record {
    name = "any_of";
    check_pre = some (λ c s. any_of_pre_from ps c none s);
    check_post = some (λ c result s. any_of_post_from ps c result none s);
  }
