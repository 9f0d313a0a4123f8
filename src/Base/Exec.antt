-- ===== src/Base/Exec.antt =====
-- What a call of Python code can do: return, or raise. An exception is a `PolicyViolation`, another
-- `Exception` or a `BaseException` that `except Exception` does not catch; the texts are the names
-- of its class and its message.
use Prim.Native.Nat.{ℕ}
use Prim.Native.String.{String}
use primal_core.Base.Int.{ℤ}
use primal_core.Base.Value.{Value}
use mathlib.Core.Path.{◌≡◌, refl}
use mathlib.Core.Logic.{◌⊎◌, inl, inr}

-- guardian/_policy.py: `Phase` and `PolicyViolation`; its `context` repeats data of the policy.
pub data Phase : Type 0 where
  pre post : Phase

-- The text of a reason, as the format of the built-in policy that raises it with the values that it
-- prints; `custom` is the text of any other policy.
pub data ViolationReason : Type 0 where
  rate_limit_exceeded : ℕ → ℕ → ℕ → ViolationReason
  call_cost_exceeds hourly_cost_exceeds : ℤ → ℤ → ViolationReason
  tool_not_allowed domain_not_allowed tool_blocked domain_blocked : Value → ViolationReason
  argument_matched : String → ViolationReason
  kwarg_matched : String → String → ViolationReason
  custom : String → ViolationReason

pub record PolicyViolation : Type 0 where
  pub policy_name : String
  pub reason : ViolationReason
  pub phase : Phase

pub data Exc : Type 0 where
  violation : PolicyViolation → Exc
  exception : String → String → Exc
  base_exception : String → String → Exc

pub data Outcome {ℓ} (A : Type ℓ) : Type ℓ where
  returned : A → Outcome A
  raised : Exc → Outcome A

pub Outcome-cases {ℓ} :
    {A : Type ℓ} (r : Outcome A) → ((a : A) × (r ≡ returned a)) ⊎ ((e : Exc) × (r ≡ raised e))
Outcome-cases (returned a) = inl (a, refl)
Outcome-cases (raised e) = inr (e, refl)

-- Statements in sequence, where nothing but the outcome is kept.
infixl 5 ◌>>=◌
abbrev pub ◌>>=◌ {ℓ κ} : {A : Type ℓ} {B : Type κ} → Outcome A → (A → Outcome B) → Outcome B
returned a >>= f = f a
raised e >>= f = raised e
