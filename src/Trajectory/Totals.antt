-- ===== src/Trajectory/Totals.antt =====
-- What `summary` of src/primal_ai/trajectory/_core.py counts, said without its loop.
use primal_core.Base.{
  ℕ, ◌+◌, ◌≡◌, refl, sym, ap, String, true, false, Option, none, some, List, [], ◌∷◌, length, keep,
  head?, returned, ◌>>=◌, get_or, is_none, str_eq, if◌then◌else◌, All, arith, eq_iff, ◌&&◌,
}
use primal_core.Base.Dict.{Dict, get, get-put}
use primal_core.Base.Int.{ℤ, pos, ◌+ℤ◌, int_laws}
use primal_core.Base.Value.{Value, null, bool, int, float, str, list, tuple, dict, object, Fields}
use primal_core.Trajectory.Steps.{Step}
use primal_core.Trajectory.{Trajectory, find_steps}
use primal_core.Trajectory.Counts.{
  Tally, no_steps, count_in, add_cost, tally, Summary, summary, price, IsPriced, spent, of_kind,
  summarised,
}

abbrev pub first_error : Option Fields → Step → Option Fields
first_error e s = if is_none e then if str_eq s.kind "ERROR" then some s.data_ else none else e

-- One step of the loop, where the cost is a number
abbrev pub counted : Step → Tally → Tally
counted s a = record {
  kinds = count_in s.kind a.kinds;
  total_cost = a.total_cost +ℤ get_or (price s.cost) (pos 0);
  error = first_error a.error s;
}

abbrev pub counted_all : List Step → Tally → Tally
counted_all [] a = a
counted_all (s ∷ steps) a = counted_all steps (counted s a)

add_zero : (x : ℤ) → x +ℤ pos 0 ≡ x
add_zero x = omega int_laws

add_cost-price :
    (total : ℤ) (cost : Value)
    → is_none (price cost) ≡ false
    → add_cost total cost ≡ returned (total +ℤ get_or (price cost) (pos 0))
unfolding add_cost
add_cost-price total null h = ap returned (sym (add_zero total))
add_cost-price total (float x) h = refl
add_cost-price total (int n) h = refl
add_cost-price total (bool b) h = refl
add_cost-price total (str s) h = cc
add_cost-price total (list xs) h = cc
add_cost-price total (tuple xs) h = cc
add_cost-price total (dict fs) h = cc
add_cost-price total (object c) h = cc

tally-counted_all :
    (steps : List Step) (a : Tally)
    → All IsPriced steps
    → tally steps a ≡ returned (counted_all steps a)
unfolding tally
tally-counted_all [] a h = refl
tally-counted_all (s ∷ steps) a (h, hs) =
    rw (add_cost-price a.total_cost s.cost h) (tally-counted_all steps (counted s a) hs)

get-count_in :
    (k j : String) (kinds : Dict ℕ)
    → get_or (get j (count_in k kinds)) 0 ≡ get_or (get j kinds) 0 + (if str_eq k j then 1 else 0)
unfolding count_in
get-count_in k j kinds = ground (arith, eq_iff k j, get-put k j (get_or (get k kinds) 0 + 1) kinds)

kinds-counted_all :
    (k : String) (steps : List Step) (a : Tally)
    → get_or (get k (counted_all steps a).kinds) 0
      ≡ get_or (get k a.kinds) 0 + length (of_kind k steps)
kinds-counted_all k [] a = omega arith
kinds-counted_all k (s ∷ steps) a =
    ground (arith, kinds-counted_all k steps (counted s a), get-count_in s.kind k a.kinds)

total-counted_all :
    (steps : List Step) (a : Tally) → (counted_all steps a).total_cost ≡ spent a.total_cost steps
total-counted_all [] a = refl
total-counted_all (s ∷ steps) a = total-counted_all steps (counted s a)

abbrev pub data_of : Option Step → Option Fields
data_of none = none
data_of (some s) = some s.data_

error-counted_all :
    (steps : List Step) (a : Tally)
    → (counted_all steps a).error
      ≡ (if is_none a.error then data_of (head? (of_kind "ERROR" steps)) else a.error)
error-counted_all [] a = ground arith
error-counted_all (s ∷ steps) a = ground (arith, error-counted_all steps (counted s a))

keep_kind : (k : String) (t : Trajectory) → find_steps (some k) none t ≡ of_kind k t.steps
unfolding find_steps
keep_kind k t = go t.steps
  where
    go : (steps : List Step) → keep (λ s. str_eq s.kind k && true) steps ≡ of_kind k steps
    go [] = refl
    go (s ∷ steps) = ground (arith, go steps)

pub summary-summarised :
    (now : ℤ) (t : Trajectory)
    → All IsPriced t.steps
    → summary now t ≡ returned (summarised now t (counted_all t.steps no_steps))
unfolding summary
summary-summarised now t h =
    ap (λ r. r >>= λ a. returned (summarised now t a)) (tally-counted_all t.steps no_steps h)

-- When every cost is absent or a number, `summary` returns; its step count is the number of steps,
-- the counter of each kind is the number of steps that `find_steps` gives for it, its total is the
-- sum of the costs, and its error is the data of the first ERROR step, if there is one.
pub summary_totals :
    (now : ℤ) (t : Trajectory)
    → All IsPriced t.steps
    → (s : Summary) × (summary now t ≡ returned s)
      × (s.step_count ≡ length t.steps)
      × ((k : String) → get_or (get k s.step_kinds) 0 ≡ length (find_steps (some k) none t))
      × (s.total_cost ≡ spent (pos 0) t.steps)
      × (s.error ≡ data_of (head? (find_steps (some "ERROR") none t)))
unfolding summary get
summary_totals now t h = (
  summarised now t (counted_all t.steps no_steps),
  summary-summarised now t h,
  refl,
  (λ k. rw (keep_kind k t) (omega (arith, kinds-counted_all k t.steps no_steps))),
  total-counted_all t.steps no_steps,
  rw (keep_kind "ERROR" t) (error-counted_all t.steps no_steps),
)
