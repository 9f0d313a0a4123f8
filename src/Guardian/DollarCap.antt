-- ===== src/Guardian/DollarCap.antt =====
-- src/primal_ai/guardian/_builtins/dollar_cap.py. Dollars are whole millionths; times are ticks of
-- `time.monotonic()`, a tick being a millisecond. The attribute `cost` of an instance of a class, and
-- the float of a text or of such an instance, are Python's, parameters.
pub mod Spending
pub mod Bound
use primal_core.Base.{
  ℕ, String, suc, ◌+◌, ◌-◌, ◌*◌, Bool, true, false, Option, none, some, List, [], ◌∷◌, ◌++◌,
  if◌then◌else◌, ltb, PolicyViolation, ViolationReason, call_cost_exceeds, hourly_cost_exceeds,
  post, Outcome, returned, raised, violation,
}
use primal_core.Base.Value.{Value, null, bool, int, float, str, list, tuple, dict, object, field_of}
use primal_core.Base.Int.{ℤ, pos, negsuc, ◌+ℤ◌, ltb_ℤ}

pub record DollarCap : Type 0 where
  pub max_per_call : Option ℤ
  pub max_per_hour : Option ℤ
  pub history : List (ℕ × ℤ)
  pub warned_missing_cost : Bool

-- `DollarCap.__init__`
unfoldable pub init : Option ℤ → Option ℤ → DollarCap
init per_call per_hour = record {
  max_per_call = per_call;
  max_per_hour = per_hour;
  history = [];
  warned_missing_cost = false;
}

-- A number of dollars in millionths
abbrev pub dollars : ℤ → ℤ
dollars (pos n) = pos (n * 1000000)
dollars (negsuc n) = negsuc (suc n * 1000000 - 1)

-- `while self._history and self._history[0][0] < cutoff`, the cutoff being an hour ago
unfoldable pub drop_old : ℕ → List (ℕ × ℤ) → List (ℕ × ℤ)
drop_old now [] = []
drop_old now ((t, c) ∷ h) = if ltb (t + 3600000) now then drop_old now h else (t, c) ∷ h

-- `sum(c for _, c in self._history)`
unfoldable pub total : List (ℕ × ℤ) → ℤ
total [] = pos 0
total ((t, c) ∷ h) = c +ℤ total h

abbrev pub exceeds : (ℤ → ℤ → ViolationReason) → ℤ → ℤ → Outcome (Unit {0})
exceeds reason x most =
    raised (violation (record { policy_name = "max_cost"; reason = reason x most; phase = post }))

-- The hourly part of `check_post`
unfoldable pub check_hour : ℕ → ℤ → DollarCap → Outcome (Unit {0}) × DollarCap
check_hour now cost d = elim d.max_per_hour [
  | none ↦ (returned tt, d)
  | some most ↦
      let kept = drop_old now d.history in
      let running = total kept +ℤ cost in
      if ltb_ℤ most running
      then (exceeds hourly_cost_exceeds running most, record d { history = kept })
      else (returned tt, record d { history = kept ++ (now, cost) ∷ [] })
]

-- `max_per_call is not None and cost > max_per_call`
abbrev pub is_over : ℤ → Option ℤ → Option ℤ
is_over cost none = none
is_over cost (some most) = if ltb_ℤ most cost then some most else none

module _ (cost_attribute : String → Option Value) (float_of_text : String → Option ℤ)
    (float_of_object : String → Option ℤ) where
  -- `float(raw)`, `none` where it raises `TypeError` or `ValueError`
  abbrev pub to_float : Value → Option ℤ
  to_float (bool true) = some (dollars (pos 1))
  to_float (bool false) = some (pos 0)
  to_float (int n) = some (dollars n)
  to_float (float x) = some x
  to_float (str t) = float_of_text t
  to_float (object c) = float_of_object c
  to_float _ = none

  -- `result.get("cost")` of a dict, `getattr(result, "cost", None)` of anything else
  abbrev pub raw_cost : Value → Option Value
  raw_cost (dict fs) = field_of "cost" fs
  raw_cost (object c) = cost_attribute c
  raw_cost _ = none

  -- `_extract_cost`
  unfoldable pub extract_cost : Value → Option ℤ
  extract_cost result = elim (raw_cost result) [ none ↦ none | some raw ↦ to_float raw ]

  -- `DollarCap.check_post`
  unfoldable pub check_post : ℕ → Value → DollarCap → Outcome (Unit {0}) × DollarCap
  check_post now result d = elim (extract_cost result) [
    | none ↦ (returned tt, record d { warned_missing_cost = true })
    | some cost ↦ elim (is_over cost d.max_per_call) [
      | some most ↦ (exceeds call_cost_exceeds cost most, d)
      | none ↦ check_hour now cost d
    ]
  ]
