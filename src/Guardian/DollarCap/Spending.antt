-- ===== src/Guardian/DollarCap/Spending.antt =====
-- What a `DollarCap` lets through over any calls (src/primal_ai/guardian/_builtins/dollar_cap.py):
-- its history, which is pruned, against the log of all accepted costs.
use primal_core.Base.{
  ℕ, ◌+◌, ◌≤◌, ◌≡◌, ◌↔◌, refl, sym, ap, ◌∙◌, Bool, true, false, Option, none, some, List, [], ◌∷◌,
  ◌++◌, if◌then◌else◌, Outcome, returned, arith, hourly_cost_exceeds, ltb, All, Bool-cases, inl,
  inr,
}
use mathlib.Core.List.{append-nil}
use primal_core.Base.Int.{ℤ, pos, ◌+ℤ◌, ltb_ℤ, int_laws}
use primal_core.Guardian.DollarCap.{DollarCap, drop_old, total, check_hour, exceeds}

-- The costs of a log that are at most an hour old, whatever their order
abbrev pub spent : ℕ → List (ℕ × ℤ) → ℤ
spent now [] = pos 0
spent now ((t, c) ∷ h) = let rest = spent now h in if ltb (t + 3600000) now then rest else c +ℤ rest

pub spent-append : (now : ℕ) (h g : List (ℕ × ℤ)) → spent now (h ++ g) ≡ spent now h +ℤ spent now g
spent-append now [] g = grind int_laws
spent-append now ((t, d) ∷ h) g = elim (Bool-cases (ltb (t + 3600000) now)) [
  | inl old ↦ rw old (spent-append now h g)
  | inr new ↦ rw new (grind (int_laws, spent-append now h g))
]

pub spent_now : (now : ℕ) (c : ℤ) → spent now ((now, c) ∷ []) ≡ c
spent_now now c = elim (Bool-cases (ltb (now + 3600000) now)) [
  | inl old ↦ absurd (ground arith)
  | inr new ↦ rw new (grind int_laws)
]

-- The times of a history go up, and end by `last`.
abbrev pub Ordered : ℕ → List (ℕ × ℤ) → Type 0
Ordered last [] = Unit
Ordered last ((t, c) ∷ h) = (t ≤ last) × All (λ e. t ≤ e.0) h × Ordered last h

All-recent :
    (now t : ℕ) (h : List (ℕ × ℤ))
    → ltb (t + 3600000) now ≡ false
    → All (λ e. t ≤ e.0) h
    → total h ≡ spent now h
unfolding total
All-recent now t [] new le = refl
All-recent now t ((s, c) ∷ h) new (le, les) = ground (arith, All-recent now t h)

drop_old-total :
    (now last : ℕ) (h : List (ℕ × ℤ)) → Ordered last h → total (drop_old now h) ≡ spent now h
unfolding drop_old total
drop_old-total now last [] o = refl
drop_old-total now last ((t, c) ∷ h) (le, les, o) = elim (Bool-cases (ltb (t + 3600000) now)) [
  | inl old ↦ rw (old) (drop_old-total now last h o)
  | inr new ↦ rw (new, total) (ap (λ x. c +ℤ x) (All-recent now t h new les))
]

drop_old-spent :
    (now later : ℕ) (h : List (ℕ × ℤ)) → now ≤ later → spent later (drop_old now h) ≡ spent later h
unfolding drop_old
drop_old-spent now later [] le = refl
drop_old-spent now later ((t, c) ∷ h) le = ground (arith, drop_old-spent now later h)

pub Ordered-later : (last now : ℕ) (h : List (ℕ × ℤ)) → last ≤ now → Ordered last h → Ordered now h
Ordered-later last now [] le o = tt
Ordered-later last now ((t, c) ∷ h) le (lt, les, o) =
    (omega arith, les, Ordered-later last now h le o)

All-snoc :
    (t now : ℕ) (h : List (ℕ × ℤ)) (c : ℤ)
    → t ≤ now
    → All (λ e. t ≤ e.0) h
    → All (λ e. t ≤ e.0) (h ++ (now, c) ∷ [])
All-snoc t now [] c le a = (le, tt)
All-snoc t now ((s, d) ∷ h) c le (b, a) = (b, All-snoc t now h c le a)

Ordered-snoc :
    (now : ℕ) (h : List (ℕ × ℤ)) (c : ℤ) → Ordered now h → Ordered now (h ++ (now, c) ∷ [])
Ordered-snoc now [] c o = (omega arith, tt, tt)
Ordered-snoc now ((t, d) ∷ h) c (lt, les, o) =
    (lt, All-snoc t now h c lt les, Ordered-snoc now h c o)

drop_old-Ordered :
    (now last : ℕ) (h : List (ℕ × ℤ)) → last ≤ now → Ordered last h → Ordered now (drop_old now h)
unfolding drop_old
drop_old-Ordered now last [] le o = tt
drop_old-Ordered now last ((t, c) ∷ h) le (lt, les, o) = elim (Bool-cases (ltb (t + 3600000) now)) [
  | inl old ↦ rw old (drop_old-Ordered now last h le o)
  | inr new ↦ rw new (omega arith, les, Ordered-later last now h le o)
]

-- The policy after calls up to `last`, the log having all accepted costs: its history is ordered, and
-- from `last` on it counts for as much in any hour as the log.
pub record Mirrors (most : ℤ) (per_call : Option ℤ) (last : ℕ) (log : List (ℕ × ℤ)) (d : DollarCap)
    : Type 0 where
  pub capped : d.max_per_hour ≡ some most
  pub single : d.max_per_call ≡ per_call
  pub ordered : Ordered last d.history
  pub same : (t : ℕ) → last ≤ t → spent t d.history ≡ spent t log

-- The hourly check when there is a cap
abbrev pub hour_result : ℕ → ℤ → ℤ → DollarCap → Bool → Outcome (Unit {0}) × DollarCap
unfolding drop_old
hour_result now cost most d over =
    let kept = drop_old now d.history in
    if over
    then (exceeds hourly_cost_exceeds (total kept +ℤ cost) most, record d { history = kept })
    else (returned tt, record d { history = kept ++ (now, cost) ∷ [] })

pub hour_result-passes :
    (now : ℕ) (cost most : ℤ) (d : DollarCap) (over : Bool)
    → ((hour_result now cost most d over).0 ≡ returned tt) ↔ (over ≡ false)
unfolding hour_result
hour_result-passes now cost most d true = ground arith
hour_result-passes now cost most d false = (λ e. refl, λ e. refl)

pub check_hour_capped :
    (now : ℕ) (cost most : ℤ) (d : DollarCap)
    → d.max_per_hour ≡ some most
    → check_hour now cost d
      ≡ hour_result now cost most d (ltb_ℤ most (total (drop_old now d.history) +ℤ cost))
unfolding check_hour hour_result
check_hour_capped now cost most d capped =
    let kept = drop_old now d.history in
    ap
      (λ o. elim o as (λ q. Outcome (Unit {0}) × DollarCap) [
        | none ↦ (returned tt, d)
        | some m ↦
            if ltb_ℤ m (total kept +ℤ cost)
            then (exceeds hourly_cost_exceeds (total kept +ℤ cost) m, record d { history = kept })
            else (returned tt, record d { history = kept ++ (now, cost) ∷ [] })
      ])
      capped

-- What an accepted or refused cost adds to the log
abbrev pub charged : ℕ → Option ℤ → Outcome (Unit {0}) → List (ℕ × ℤ)
charged now (some c) (returned u) = (now, c) ∷ []
charged now _ _ = []

module _ (most : ℤ) (per_call : Option ℤ) (last now : ℕ) (log : List (ℕ × ℤ)) (cost : ℤ)
    (d : DollarCap) (m : Mirrors most per_call last log d) (le : last ≤ now) where
  kept_same : (t : ℕ) → now ≤ t → spent t (drop_old now d.history) ≡ spent t log
  kept_same t lt = drop_old-spent now t d.history lt ∙ m.same t (omega arith)

  pub hour_result-Mirrors :
      (over : Bool)
      → Mirrors most per_call now
          (log ++ charged now (some cost) (hour_result now cost most d over).0)
          (hour_result now cost most d over).1
  unfolding hour_result
  hour_result-Mirrors true = record {
    capped = m.capped;
    single = m.single;
    ordered = drop_old-Ordered now last d.history le m.ordered;
    same = λ t lt. kept_same t lt ∙ ap (spent t) (sym (append-nil log));
  }
  hour_result-Mirrors false = record {
    capped = m.capped;
    single = m.single;
    ordered =
        Ordered-snoc now (drop_old now d.history) cost
          (drop_old-Ordered now last d.history le m.ordered);
    same = λ t lt.
        spent-append t (drop_old now d.history) ((now, cost) ∷ [])
        ∙ ap (λ x. x +ℤ spent t ((now, cost) ∷ [])) (kept_same t lt)
        ∙ sym (spent-append t log ((now, cost) ∷ []));
  }

  pub running : total (drop_old now d.history) ≡ spent now log
  running = drop_old-total now last d.history m.ordered ∙ m.same now le
