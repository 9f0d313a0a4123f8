-- ===== src/Trajectory/Occurrences.antt =====
-- Counting the starts, the ends and the open spans in what src/primal_ai/trajectory/_core.py does.
use primal_core.Base.{
  ℕ, ◌+◌, ◌≤◌, ◌≡◌, refl, String, none, some, List, [], ◌∷◌, ◌++◌, arith, str_eq, eq_iff,
  if◌then◌else◌,
}
use primal_core.Base.Dict.{Dict, get, put, pop}
use primal_core.Base.Value.{Fields, end, field}
use primal_core.Trajectory.{SpanEvent, step_started, step_ended, attributes}
use primal_core.Trajectory.Session.{orphans, kind_attributes}

-- How often the span of a step is started, and how often it is ended
abbrev pub starts : String → List SpanEvent → ℕ
starts id [] = 0
starts id (step_started name attrs j ∷ es) = (if str_eq j id then 1 else 0) + starts id es
starts id (_ ∷ es) = starts id es

abbrev pub ends : String → List SpanEvent → ℕ
ends id [] = 0
ends id (step_ended j ∷ es) = (if str_eq j id then 1 else 0) + ends id es
ends id (_ ∷ es) = ends id es

pub starts_append :
    (id : String) (xs ys : List SpanEvent) → starts id (xs ++ ys) ≡ starts id xs + starts id ys
starts_append id [] ys = omega arith
starts_append id (step_started name attrs j ∷ es) ys = omega (arith, starts_append id es ys)
starts_append id (_ ∷ es) ys = starts_append id es ys

pub ends_append :
    (id : String) (xs ys : List SpanEvent) → ends id (xs ++ ys) ≡ ends id xs + ends id ys
ends_append id [] ys = omega arith
ends_append id (step_ended j ∷ es) ys = omega (arith, ends_append id es ys)
ends_append id (_ ∷ es) ys = ends_append id es ys

-- How many open spans have an id
abbrev pub occurrences : String → Dict String → ℕ
occurrences id [] = 0
occurrences id ((j, name) ∷ spans) = (if str_eq j id then 1 else 0) + occurrences id spans

pub occurrences-put :
    (k id name : String) (d : Dict String)
    → get k d ≡ none
    → occurrences id (put k name d) ≡ occurrences id d + (if str_eq k id then 1 else 0)
unfolding get put
occurrences-put k id name [] h = omega arith
occurrences-put k id name ((j, v) ∷ d) h = ground (arith, occurrences-put k id name d, eq_iff j k)

pub occurrences_absent : (k : String) (d : Dict String) → get k d ≡ none → occurrences k d ≡ 0
unfolding get
occurrences_absent k [] h = refl
occurrences_absent k ((j, v) ∷ d) h = ground (arith, occurrences_absent k d)

pub occurrences_present : (k v : String) (d : Dict String) → get k d ≡ some v → 1 ≤ occurrences k d
unfolding get
occurrences_present k v [] h = cc
occurrences_present k v ((j, w) ∷ d) h = ground (arith, occurrences_present k v d)

pub occurrences-pop :
    (k id : String) (d : Dict String)
    → occurrences id (pop k d) ≡ (if str_eq k id then 0 else occurrences id d)
unfolding pop
occurrences-pop k id [] = ground arith
occurrences-pop k id ((j, v) ∷ d) =
    ground (arith, occurrences-pop k id d, eq_iff j k, eq_iff k id, eq_iff j id)

pub starts-attributes :
    (id j : String) (fs : Fields)
    → (starts id (attributes j fs) ≡ 0) × (ends id (attributes j fs) ≡ 0)
starts-attributes id j end = (refl, refl)
starts-attributes id j (field k v fs) = ground (arith, starts-attributes id j fs)

pub starts-orphans :
    (id : String) (d : Dict String)
    → (starts id (orphans d) ≡ 0) × (ends id (orphans d) ≡ occurrences id d)
starts-orphans id [] = (refl, refl)
starts-orphans id ((j, v) ∷ d) = ground (arith, starts-orphans id d)

pub starts_attribute_lists :
    (lower : String → String) (id : String) (kinds : Dict ℕ)
    → (starts id (kind_attributes lower kinds) ≡ 0) × (ends id (kind_attributes lower kinds) ≡ 0)
starts_attribute_lists lower id [] = (refl, refl)
starts_attribute_lists lower id ((k, n) ∷ kinds) = starts_attribute_lists lower id kinds
