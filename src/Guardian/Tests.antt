-- ===== src/Guardian/Tests.antt =====
-- Runs of the Guardian model on small policies: the theorems on src/primal_ai/guardian at concrete
-- inputs.
use primal_core.Base.{
  ℕ, suc, ◌≤◌, String, ◌≡◌, ◌↔◌, refl, any, Option, none, some, List, [], ◌∷◌, ◌++◌, Outcome,
  returned, raised, violation, PolicyViolation, custom, pre, arith, inl, All,
}
use primal_core.Base.Int.{ℤ, pos, ◌≤ℤ◌, ◌+ℤ◌}
use primal_core.Base.Value.{Value, str, float, dict, field, end, nil, cons, field_of}
use primal_core.Guardian.Policy.{Call, Policy, Guard, policy_violation, and_then, with_state}
use primal_core.Guardian.Run.{run_pre, escalate, build_sync_wrapper, dry_run}
use primal_core.Guardian.Run.Blocking.{violation_blocks}
use primal_core.Guardian.Run.DryRun.{HasTameHooks, all_pre, all_post, dry_run-never_blocks}
use primal_core.Guardian.Combinators.{all_of, any_of, all_of_pre}
use primal_core.Guardian.Combinators.Flat.{run_pre-all_of}
use primal_core.Guardian.Combinators.Choice.{lets_through, any_of-any}
use primal_core.Guardian.RateLimit.{check_all, windows, count_since}
use primal_core.Guardian.RateLimit
use primal_core.Guardian.RateLimit.Refinement.{decide_all, init-decide_all}
use primal_core.Guardian.RateLimit.Bound.{let_through, check_all-bound}
use primal_core.Guardian.DollarCap.{extract_cost, is_over}
use primal_core.Guardian.DollarCap
use primal_core.Guardian.DollarCap.Spending.{spent}
use primal_core.Guardian.DollarCap.Bound.{check_calls, check_post-bound}
use primal_core.Guardian.Redact
use primal_core.Guardian.Redact.Clean.{IsClean, check_post-IsClean}

abbrev stop : PolicyViolation
stop = record { policy_name = "closed"; reason = custom "no"; phase = pre }

abbrev counting : Policy ℕ
counting = record {
  name = "counting";
  check_pre = some (λ c s. (returned tt, suc s));
  check_post = some (λ c r s. (returned (str "seen"), suc s));
}

abbrev closed : Policy ℕ
closed = record {
  name = "closed";
  check_pre = some (λ c s. (raised (violation stop), s));
  check_post = none;
}

abbrev open_policy : Policy ℕ
open_policy = record { name = "open"; check_pre = none; check_post = none }

abbrev two : List (Policy ℕ)
two = counting ∷ closed ∷ []

abbrev ask : Call
ask = record { args = cons (str "rm") nil; kwargs = field "tool" (str "shell") end }

abbrev idle : Guard ℕ
idle = record { state = 0; dry_run_violations = none; escalation_handler = none; warnings = [] }

abbrev agent : Call → ℕ → Outcome Value × ℕ
agent c s = (returned (str "done"), suc s)

violation_blocks_example :
    build_sync_wrapper agent two ask idle
    ≡ and_then
        (escalate (policy_violation stop) (with_state 1 idle))
        (λ _ g'. (raised (violation stop), g'))
unfolding all_of_pre
violation_blocks_example = violation_blocks agent two ask idle stop 1 refl refl

tame : All HasTameHooks two
tame = (
  record { pre_tame = λ c s. tt; post_tame = λ c r s. tt },
  (record { pre_tame = λ c s. tt; post_tame = λ c r s. tt }, tt),
)

dry_run-never_blocks_example : dry_run (build_sync_wrapper agent two ask) idle ≡ (
  (
    returned (all_post two ask (str "done") 2).0,
    (all_pre two ask 0).0 ++ (all_post two ask (str "done") 2).1,
  ),
  with_state (all_post two ask (str "done") 2).2 idle,
)
unfolding all_pre
dry_run-never_blocks_example = dry_run-never_blocks agent two ask idle (str "done") 2 tame refl

run_pre-all_of_example : run_pre (all_of two ∷ []) ask idle ≡ run_pre two ask idle
run_pre-all_of_example = run_pre-all_of two ask idle refl

any_of-any_example :
    lets_through ask 0 (any_of (closed ∷ open_policy ∷ []))
    ≡ any (lets_through ask 0) (closed ∷ open_policy ∷ [])
any_of-any_example = any_of-any closed (open_policy ∷ []) ask 0 ((tt, refl), ((tt, refl), tt))

init-decide_all_example :
    check_all (0 ∷ 10 ∷ 20 ∷ 2000 ∷ []) (RateLimit.init (some 2) none none)
    ≡ decide_all (windows (RateLimit.init (some 2) none none)) (0 ∷ 10 ∷ 20 ∷ 2000 ∷ []) []
init-decide_all_example =
    init-decide_all (some 2) none none (0 ∷ 10 ∷ 20 ∷ 2000 ∷ [])
      (omega arith, (omega arith, (omega arith, (omega arith, tt))))

check_all-bound_example :
    count_since 30 1000 (
      let_through
        (check_all (0 ∷ 10 ∷ 20 ∷ []) (RateLimit.init (some 2) none none))
        (0 ∷ 10 ∷ 20 ∷ []))
    ≤ 2
unfolding RateLimit.init
check_all-bound_example =
    check_all-bound (some 2) none none (0 ∷ 10 ∷ 20 ∷ []) 1000 2 30
      (omega arith, (omega arith, (omega arith, tt))) (inl (refl, refl))
      (omega arith, (omega arith, (omega arith, tt)))

abbrev no_value : String → Option Value
no_value c = none

abbrev no_float : String → Option ℤ
no_float t = none

abbrev priced : Value
priced = dict (field "cost" (float (pos 500000)) end)

-- Half a dollar now, and twice before, once more than an hour ago
abbrev before : List (ℕ × Value)
before = (0, priced) ∷ (3000000, priced) ∷ []

check_post-bound_example :
    let (log, d) =
      check_calls no_value no_float no_float before [] (DollarCap.init none (some (pos 1000000))) in
    ((DollarCap.check_post no_value no_float no_float 4000000 priced d).0 ≡ returned tt)
    ↔ ((is_over (pos 500000) none ≡ none) × (spent 4000000 log +ℤ pos 500000 ≤ℤ pos 1000000))
unfolding extract_cost field_of
check_post-bound_example =
    check_post-bound no_value no_float no_float (pos 1000000) none before 4000000 priced
      (pos 500000) (omega arith, (omega arith, omega arith)) refl

abbrev no_host : String → Outcome (Option String)
no_host u = returned none

abbrev text : Value → String
text (str t) = t
text _ = ""

abbrev answer : Value
answer = dict (field "user" (dict (field "ssn" (str "123") end)) end)

check_post-IsClean_example :
    IsClean ("ssn" ∷ []) (Redact.check_post (λ p t. t) [] ("ssn" ∷ []) ask answer)
check_post-IsClean_example = check_post-IsClean (λ p t. t) [] ("ssn" ∷ []) ask answer
