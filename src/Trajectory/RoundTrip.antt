-- ===== src/Trajectory/RoundTrip.antt =====
-- Serialising a trajectory (src/primal_ai/trajectory/_core.py and _step.py) and reading it back.
use primal_core.Base.{
  ℕ, suc, ◌≡◌, refl, String, false, Option, none, some, List, [], ◌∷◌, returned, raised, exception,
  ◌>>=◌, str_eq, All, eq_iff,
}
use primal_core.Base.Int.{ℤ, is_zero}
use primal_core.Base.Value.{dict, str, float, list, nil}
use primal_core.Base.Python.{Python, IsPython, either_or}
use primal_core.Base.Python.Kept.{number_kept, text_kept, dict_kept}
use primal_core.Storage.{Storage, IsLawful}
use primal_core.Trajectory.Steps as Steps
use primal_core.Trajectory.Steps.{Step, Stamp}
use primal_core.Trajectory.{Trajectory, TrajectoryStatus, running, success, failed, escalated}
use primal_core.Trajectory.Serial.{
  value_of, status_of, of_time, step_items, to_dict, items_of, time_of, steps_from, from_dict, save,
  load, trajectory_key,
}

-- A step whose id is not empty and whose two times are not 0.0, which `from_dict` would replace
abbrev pub IsStamped : Step → Type 0
IsStamped s =
    (str_eq s.step_id "" ≡ false) × (is_zero s.timestamp ≡ false) × (is_zero s.monotonic ≡ false)

-- What is stored of a trajectory: all but the monotonic times and the state of the recorder
abbrev pub stored : Trajectory → Trajectory
stored t = record t {
  monotonic_start = none;
  monotonic_end = none;
  context_token = none;
  otel = false;
  open_step_spans = [];
  trace = [];
}

module _ (py : Python) (lawful : IsPython py) where
  step_kept :
      (w : Stamp) (s : Step) → IsStamped s → Steps.from_dict py w (Steps.to_dict s) ≡ returned s
  unfolding Steps.from_dict Steps.to_dict
  step_kept w s (h, k, l) =
      rw
        (
          dict_kept py s.data_,
          number_kept py s.timestamp (float w.timestamp) k,
          ◌>>=◌,
          number_kept py s.monotonic (float w.monotonic) l,
          lawful.str_of-str s.kind,
          text_kept py lawful s.step_id (str w.step_id) h,
        )
        refl

  steps_kept :
      (stamps : ℕ → Stamp) (n : ℕ) (steps : List Step)
      → All IsStamped steps
      → steps_from py stamps n (step_items steps) ≡ returned steps
  unfolding steps_from step_items
  steps_kept stamps n [] h = refl
  steps_kept stamps n (s ∷ steps) (h, hs) =
      rw (step_kept (stamps n) s h, ◌>>=◌, steps_kept stamps (suc n) steps hs) refl

  status_kept : (x : TrajectoryStatus) → status_of (str (value_of x)) ≡ returned x
  unfolding status_of value_of
  status_kept running = refl
  status_kept success = refl
  status_kept failed = refl
  status_kept escalated = refl

  wall_kept : (x : Option ℤ) → time_of py (of_time x) ≡ returned x
  unfolding time_of
  wall_kept none = refl
  wall_kept (some x) = refl

  items_kept :
      (steps : List Step)
      → items_of (either_or (list (step_items steps)) (list nil)) ≡ returned (step_items steps)
  unfolding either_or step_items
  items_kept [] = refl
  items_kept (s ∷ steps) = refl

  -- A trajectory with an id whose steps have an id and times that are not 0.0 is read back from its
  -- dict: its ids, agent, parent, status, wall-clock times and all its steps in order, each with its
  -- data, cost, latency, parent, id and times. What the recorder keeps besides is fresh.
  pub from_dict-to_dict :
      (fresh : String) (stamps : ℕ → Stamp) (t : Trajectory)
      → str_eq t.trajectory_id "" ≡ false
      → All IsStamped t.steps
      → from_dict py fresh stamps (to_dict t) ≡ returned (stored t)
  unfolding from_dict to_dict
  from_dict-to_dict fresh stamps t h hs =
      rw
        (
          status_kept t.status,
          ◌>>=◌,
          wall_kept t.started_at,
          ◌>>=◌,
          wall_kept t.ended_at,
          ◌>>=◌,
          items_kept t.steps,
          ◌>>=◌,
          steps_kept stamps 0 t.steps hs,
          lawful.str_of-str t.trajectory_id,
          h,
        )
        refl

-- What `save` puts in a lawful store `load` finds there and reads back, whatever was in the store,
-- for a trajectory as in `from_dict-to_dict`; a key that was deleted raises `KeyError`.
pub load-save :
    (py : Python) (lawful : IsPython py) (T : Storage) (L : IsLawful T) (fresh : String)
    (stamps : ℕ → Stamp) (t : Trajectory) (s : T.State)
    → str_eq t.trajectory_id "" ≡ false
    → All IsStamped t.steps
    → (load T py fresh stamps t.trajectory_id (save T t s) ≡ returned (stored t))
      × (load T py fresh stamps t.trajectory_id
            (T.delete (trajectory_key t.trajectory_id) (save T t s))
          ≡ raised (exception "KeyError" t.trajectory_id))
unfolding load save
load-save py lawful T L fresh stamps t s h hs = (
  rw
      (
        L.get-put (trajectory_key t.trajectory_id) (trajectory_key t.trajectory_id)
            (dict (to_dict t)) s,
        (eq_iff (trajectory_key t.trajectory_id) (trajectory_key t.trajectory_id)).1 refl,
      )
      (from_dict-to_dict py lawful fresh stamps t h hs),
  rw
      (
        L.get-delete (trajectory_key t.trajectory_id) (trajectory_key t.trajectory_id)
            (T.put (trajectory_key t.trajectory_id) (dict (to_dict t)) s),
        (eq_iff (trajectory_key t.trajectory_id) (trajectory_key t.trajectory_id)).1 refl,
      )
      refl,
)
