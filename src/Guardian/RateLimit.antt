-- ===== src/Guardian/RateLimit.antt =====
-- src/primal_ai/guardian/_builtins/rate_limit.py. Times are ticks of `time.monotonic()`, a tick
-- being a millisecond; `check_pre` takes the reading that it makes. `t < now - w` is written
-- `t + w < now`, since subtraction of natural numbers stops at 0.
pub mod Refinement
pub mod Bound
use primal_core.Base.{
  ℕ, suc, ◌+◌, Bool, true, false, Option, none, some, List, [], ◌∷◌, ◌++◌, ltb, leb, if◌then◌else◌,
  PolicyViolation, pre, rate_limit_exceeded, Outcome, returned, raised, violation,
}

pub record RateLimit : Type 0 where
  pub per_second : Option ℕ
  pub per_minute : Option ℕ
  pub per_hour : Option ℕ
  pub calls : List ℕ

-- `RateLimit.__init__`
unfoldable pub init : Option ℕ → Option ℕ → Option ℕ → RateLimit
init per_second per_minute per_hour = record {
  per_second = per_second;
  per_minute = per_minute;
  per_hour = per_hour;
  calls = [];
}

abbrev pub windows : RateLimit → List (ℕ × Option ℕ)
windows r = (1000, r.per_second) ∷ (60000, r.per_minute) ∷ (3600000, r.per_hour) ∷ []

-- The largest active window; the windows come in increasing order, so it is the last active one.
unfoldable pub oldest_relevant_window : RateLimit → Option ℕ
oldest_relevant_window r = elim r.per_hour [
  | some _ ↦ some 3600000
  | none ↦ elim r.per_minute [
    | some _ ↦ some 60000
    | none ↦ elim r.per_second [ some _ ↦ some 1000 | none ↦ none ]
  ]
]

-- `while self._calls and self._calls[0] < cutoff: popleft()`, the cutoff being `now - window`
unfoldable pub popleft_before : ℕ → ℕ → List ℕ → List ℕ
popleft_before now window [] = []
popleft_before now window (t ∷ ts) =
    if ltb (t + window) now then popleft_before now window ts else t ∷ ts

-- `sum(1 for t in self._calls if t >= now - window)`
unfoldable pub count_since : ℕ → ℕ → List ℕ → ℕ
count_since now window [] = 0
count_since now window (t ∷ ts) =
    let rest = count_since now window ts in if leb now (t + window) then suc rest else rest

-- The `for` over the windows: the violation of the first one that is full.
unfoldable pub first_full : ℕ → List ℕ → List (ℕ × Option ℕ) → Option PolicyViolation
first_full now calls [] = none
first_full now calls ((window, none) ∷ ws) = first_full now calls ws
first_full now calls ((window, some limit) ∷ ws) =
    if leb limit (count_since now window calls)
    then some (record {
      policy_name = "rate_limit";
      reason = rate_limit_exceeded (count_since now window calls + 1) window limit;
      phase = pre;
    })
    else first_full now calls ws

unfoldable pub trim : ℕ → RateLimit → RateLimit
trim now r = elim (oldest_relevant_window r) [
  | none ↦ r
  | some w ↦ record r { calls = popleft_before now w r.calls }
]

-- A call that is refused is not remembered; the trimming stays.
unfoldable pub check_pre : ℕ → RateLimit → Outcome (Unit {0}) × RateLimit
check_pre now r =
    let r' = trim now r in
    elim (first_full now r'.calls (windows r')) [
      | some v ↦ (raised (violation v), r')
      | none ↦ (returned tt, record r' { calls = r'.calls ++ now ∷ [] })
    ]

abbrev pub accepts : Outcome (Unit {0}) → Bool
accepts (returned _) = true
accepts (raised _) = false

-- Calls at the given times, one after the other: which were let through.
unfoldable pub check_all : List ℕ → RateLimit → List Bool
check_all [] r = []
check_all (t ∷ ts) r = let (o, r') = check_pre t r in accepts o ∷ check_all ts r'
