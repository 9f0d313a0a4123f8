-- ===== src/Trajectory/Session.antt =====
-- src/primal_ai/trajectory/_core.py: `__enter__` and `__exit__`, the default store and the active
-- trajectory of _trajectory_context.py. `World` is what these calls change besides the trajectory.
use primal_core.Base.{
  ℕ, String, ◌<>◌, true, false, Option, none, some, List, [], ◌∷◌, ◌++◌, Outcome, returned, raised,
  Exc, if◌then◌else◌,
}
use primal_core.Base.Dict.{Dict}
use primal_core.Base.Int.{ℤ, pos}
use primal_core.Base.Value.{bool, dict, int, float, str}
use primal_core.Base.Python.{either_or}
use primal_core.Storage.{Storage}
use primal_core.Guardian.Policy.{and_then}
use primal_core.Trajectory.Steps.{Stamp}
use primal_core.Trajectory.{
  Trajectory, running, success, failed, SpanEvent, session_started, session_attribute,
  session_error, session_ended, step_attribute, step_ended, ExcInfo, record_error,
}
use primal_core.Trajectory.Counts.{Summary, summary}
use primal_core.Trajectory.Serial.{value_of, save, to_dict}

pub record World (T : Storage) : Type 0 where
  pub current_trajectory : Option String
  pub default_store : Option T.State

-- What `time.time()` and `time.monotonic()` answer
pub record Instant : Type 0 where
  pub wall : ℤ
  pub monotonic : ℤ

-- The loop over the open spans: each is marked as orphaned and ended.
abbrev pub orphans : Dict String → List SpanEvent
orphans [] = []
orphans ((id, name) ∷ spans) =
    step_attribute id "primal.trajectory.orphaned" (bool true) ∷ step_ended id ∷ orphans spans

abbrev pub kind_attributes : (String → String) → Dict ℕ → List SpanEvent
kind_attributes lower [] = []
kind_attributes lower ((k, n) ∷ kinds) =
    session_attribute ("primal.trajectory.step_kinds." <> lower k) (int (pos n))
    ∷ kind_attributes lower kinds

abbrev pub duration_attribute : Option ℤ → List SpanEvent
duration_attribute none = []
duration_attribute (some d) = session_attribute "primal.trajectory.duration_ms" (float d) ∷ []

-- What is written on the session span before it is closed
unfoldable pub decorations :
    (String → String) → Trajectory → Option ExcInfo → Summary → List SpanEvent
unfolding value_of
decorations lower t exc s =
    session_attribute "primal.trajectory.status" (str (value_of t.status))
    ∷ session_attribute "primal.trajectory.step_count" (int (pos s.step_count))
    ∷ (duration_attribute s.duration_ms
        ++ (session_attribute "primal.trajectory.total_cost" (float s.total_cost)
            ∷ (kind_attributes lower s.step_kinds
                ++ (elim exc [ none ↦ [] | some e ↦ session_error e.message ∷ [] ]))))

-- The two branches on `exc`
abbrev pub close_status : Stamp → Option ExcInfo → Trajectory → Trajectory
unfolding record_error
close_status stamp exc t = elim exc [
  | none ↦ record t { status = success }
  | some e ↦ record (record_error stamp e t) { status = failed }
]

abbrev pub close_spans : Trajectory → Trajectory
close_spans t = record t { trace = t.trace ++ orphans t.open_step_spans; open_step_spans = [] }

module _ {T : Storage} where
  unfoldable pub set_default_store : Option T.State → World T → World T
  set_default_store store w = record w { default_store = store }

  unfoldable pub enter : Instant → Trajectory × World T → Trajectory × World T
  unfolding either_or
  enter now (t, w) = (
    record t {
      started_at = some now.wall;
      monotonic_start = some now.monotonic;
      status = running;
      otel = true;
      trace =
          t.trace
          ++ (session_started t.trajectory_id (either_or t.agent_id (str ""))
                (either_or t.parent_trajectory_id (str ""))
              ∷ []);
      context_token = some w.current_trajectory;
    },
    record w { current_trajectory = some t.trajectory_id },
  )

  -- `current_trajectory.reset(self._context_token)`, if there is a token
  abbrev pub reset_to : Option (Option String) → Trajectory × World T → Trajectory × World T
  reset_to none (t, w) = (t, w)
  reset_to (some before) (t, w) =
      (record t { context_token = none }, record w { current_trajectory = before })

  abbrev pub reset_context : Trajectory × World T → Trajectory × World T
  reset_context (t, w) = reset_to t.context_token (t, w)

  -- The block on the session span; `summary` may raise.
  unfoldable pub close_session :
      (String → String)
      → Option ExcInfo
      → Instant
      → Trajectory × World T
      → Outcome (Unit {0}) × (Trajectory × World T)
  unfolding decorations summary
  close_session lower exc now (t, w) =
      if t.otel
      then elim (summary now.monotonic t) [
        | raised e ↦ (raised e, (t, w))
        | returned s ↦
            let t' = record t {
              otel = false;
              trace = t.trace ++ (decorations lower t exc s ++ (session_ended ∷ []));
            } in
            (returned tt, (t', w))
      ]
      else (returned tt, (t, w))

  -- `self.save(store)`, by what the store's `put` raises
  abbrev pub save_in :
      Option Exc → T.State → Trajectory × World T → Outcome (Unit {0}) × (Trajectory × World T)
  unfolding save
  save_in none s (t, w) = (returned tt, (t, record w { default_store = some (save T t s) }))
  save_in (some e) s tw = (raised e, tw)

  -- `self.save(store)`, if there is a default store
  abbrev pub auto_save : Trajectory × World T → Outcome (Unit {0}) × (Trajectory × World T)
  unfolding save to_dict
  auto_save (t, w) = elim w.default_store [
    | none ↦ (returned tt, (t, w))
    | some s ↦ save_in (T.refuses (dict (to_dict t))) s (t, w)
  ]

  -- What `__exit__` does once the active trajectory is reset
  unfoldable pub leave :
      (String → String)
      → Stamp
      → Option ExcInfo
      → Instant
      → Trajectory × World T
      → Outcome (Unit {0}) × (Trajectory × World T)
  unfolding close_session record_error save to_dict
  leave lower stamp exc now (t, w) =
      let t' = record (close_status stamp exc t) {
        ended_at = some now.wall;
        monotonic_end = some now.monotonic;
      } in
      and_then (close_session lower exc now (close_spans t', w)) (λ _ tw'. auto_save tw')

  unfoldable pub exit :
      (String → String)
      → Stamp
      → Option ExcInfo
      → Instant
      → Trajectory × World T
      → Outcome (Unit {0}) × (Trajectory × World T)
  unfolding leave
  exit lower stamp exc now tw = leave lower stamp exc now (reset_context tw)
