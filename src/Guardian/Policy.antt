-- ===== src/Guardian/Policy.antt =====
-- src/primal_ai/guardian/_policy.py, and the state that src/primal_ai/guardian/_core.py keeps.
-- Policies, agents and escalation handlers are the caller's code: `S` is the state they work on.
use primal_core.Base.{
  String, Bool, true, false, Option, none, some, List, PolicyViolation, Outcome, returned, raised,
  violation, exception, base_exception, if◌then◌else◌,
}
use primal_core.Base.Value.{Value, null, Items, Fields}

-- The arguments of one call of the wrapped agent
pub record Call : Type 0 where
  pub args : Items
  pub kwargs : Fields

-- A hook that the policy does not define is `none`. A post-hook that returns `null` leaves the
-- result as it is.
pub record Policy (S : Type 0) : Type 0 where
  pub name : String
  pub check_pre : Option (Call → S → Outcome (Unit {0}) × S)
  pub check_post : Option (Call → Value → S → Outcome Value × S)

-- What `escalate` is given: a violation, a trajectory (anything with `add_step`) or another value.
pub data Item (S : Type 0) : Type 0 where
  policy_violation : PolicyViolation → Item S
  trajectory : (S → Outcome (Unit {0}) × S) → Item S
  other : Value → Item S

-- The globals of _core.py: `_dry_run_violations`, `_escalation_handler`, and the warnings that the
-- default handler has logged, in order.
pub record Guard (S : Type 0) : Type 0 where
  pub state : S
  pub dry_run_violations : Option (List PolicyViolation)
  pub escalation_handler : Option (Item S → S → Outcome (Unit {0}) × S)
  pub warnings : List (Item S)

-- Statements in sequence: what raises ends them.
module _ {ℓ} {G : Type ℓ} {A B : Type 0} where
  abbrev pub and_then : Outcome A × G → (A → G → Outcome B × G) → Outcome B × G
  and_then (returned a, g) k = k a g
  and_then (raised e, g) k = (raised e, g)

-- `try: ... except PolicyViolation as v: ...`
module _ {ℓ} {G : Type ℓ} {A : Type 0} where
  abbrev pub catch_violation : Outcome A × G → (PolicyViolation → G → Outcome A × G) → Outcome A × G
  catch_violation (returned a, g) k = (returned a, g)
  catch_violation (raised (violation v), g) k = k v g
  catch_violation (raised (exception c m), g) k = (raised (exception c m), g)
  catch_violation (raised (base_exception c m), g) k = (raised (base_exception c m), g)

abbrev pub is_null : Value → Bool
is_null null = true
is_null _ = false

-- `replacement` when there is one, else the result so far
abbrev pub replaced : Value → Value → Value
replaced result replacement = if is_null replacement then result else replacement

module _ {S : Type 0} where
  abbrev pub with_state : S → Guard S → Guard S
  with_state s g = record g { state = s }

  -- The caller's code, run from the guard's state
  abbrev pub lift : {A : Type 0} → Outcome A × S → Guard S → Outcome A × Guard S
  lift (o, s) g = (o, with_state s g)

  abbrev pub outside : {A : Type 0} → (S → Outcome A × S) → Guard S → Outcome A × Guard S
  outside f g = lift (f g.state) g

  -- `hook = getattr(p, "check_pre", None)`, and the hook's call when there is one
  abbrev pub pre_hook : Policy S → Call → S → Outcome (Unit {0}) × S
  pre_hook p c s = elim p.check_pre [ none ↦ (returned tt, s) | some hook ↦ hook c s ]

  -- The same for `check_post`; without one nothing is replaced.
  abbrev pub post_hook : Policy S → Call → Value → S → Outcome Value × S
  post_hook p c result s = elim p.check_post [
    | none ↦ (returned null, s)
    | some hook ↦ hook c result s
  ]
