-- ===== src/Trajectory/Blocks.antt =====
-- A whole `with Trajectory.record(...) as tr:` block of src/primal_ai/trajectory/_core.py: entering,
-- any sequence of recording calls, and leaving with or without an exception.
use primal_core.Base.{
  ◌≡◌, refl, ap, ◌∙◌, sym, subst, String, true, false, Option, none, some, List, [], ◌∷◌, ◌++◌, map,
  Outcome, returned, raised, Exc, ◌⊎◌, All, arith, Option-cases, inl, inr,
}
use mathlib.Core.List.{append-nil}
use primal_core.Storage.{Storage}
use primal_core.Base.Value.{dict}
use primal_core.Guardian.Policy.{and_then}
use primal_core.Trajectory.Steps.{Step, Stamp}
use primal_core.Trajectory.{
  Trajectory, TrajectoryStatus, success, failed, session_ended, ExcInfo, record_error,
}
use primal_core.Trajectory.Counts.{IsPriced, summarised, no_steps}
use primal_core.Trajectory.Totals.{summary-summarised, counted_all}
use primal_core.Trajectory.Serial.{save, to_dict, trajectory_key}
use primal_core.Trajectory.Session.{
  World, Instant, enter, exit, close_session, close_spans, close_status, decorations, save_in,
  auto_save, reset_to, leave,
}
use primal_core.Trajectory.Ops.{Op, perform_all, error_step, step_of, perform_all-steps}

abbrev pub last_steps : Stamp → Option ExcInfo → List Step
last_steps w none = []
last_steps w (some e) = error_step w e ∷ []

abbrev pub final_status : Option ExcInfo → TrajectoryStatus
final_status none = success
final_status (some e) = failed

All-append : (xs ys : List Step) → All IsPriced xs → All IsPriced ys → All IsPriced (xs ++ ys)
All-append [] ys h k = k
All-append (x ∷ xs) ys (p, h) k = (p, All-append xs ys h k)

-- The trajectory that is to be closed, just before its session span is
abbrev pub closing : Stamp → Option ExcInfo → Instant → Trajectory → Trajectory
closing w exc now t =
    close_spans (record (close_status w exc t) {
      ended_at = some now.wall;
      monotonic_end = some now.monotonic;
    })

closing-steps :
    (w : Stamp) (exc : Option ExcInfo) (now : Instant) (t : Trajectory)
    → ((closing w exc now t).steps ≡ t.steps ++ last_steps w exc)
      × ((closing w exc now t).otel ≡ t.otel)
      × ((closing w exc now t).trajectory_id ≡ t.trajectory_id)
      × ((closing w exc now t).status ≡ final_status exc)
      × ((closing w exc now t).context_token ≡ t.context_token)
unfolding record_error
closing-steps w none now t = (sym (append-nil t.steps), refl, refl, refl, refl)
closing-steps w (some e) now t = ground arith

last_steps-IsPriced : (w : Stamp) (exc : Option ExcInfo) → All IsPriced (last_steps w exc)
last_steps-IsPriced w none = tt
last_steps-IsPriced w (some e) = (refl, tt)

-- What closing the session span leaves of the trajectory
abbrev pub closed : (String → String) → Option ExcInfo → Instant → Trajectory → Trajectory
closed lower exc now t = record t {
  otel = false;
  trace =
      t.trace
      ++ (decorations lower t exc (summarised now.monotonic t (counted_all t.steps no_steps))
          ++ (session_ended ∷ []));
}

-- Leaving with the outcome `r` saves the trajectory: without a store there is nothing to do; a store
-- that takes the trajectory then has it under its key; one that refuses it raises, and is as it was.
abbrev pub Saves :
    (T : Storage) → Trajectory → Option T.State → Outcome (Unit {0}) → Option T.State → Type 0
Saves T t none r after = (r ≡ returned tt) × (after ≡ none)
Saves T t (some s) r after =
    ((T.refuses (dict (to_dict t)) ≡ none)
      × (r ≡ returned tt)
      × (after ≡ some (T.put (trajectory_key t.trajectory_id) (dict (to_dict t)) s)))
    ⊎ ((e : Exc) × (T.refuses (dict (to_dict t)) ≡ some e) × (r ≡ raised e) × (after ≡ some s))

module _ {T : Storage} where
  close_session-closed :
      (lower : String → String) (exc : Option ExcInfo) (now : Instant) (t : Trajectory)
      (w : World T)
      → t.otel ≡ true
      → All IsPriced t.steps
      → close_session lower exc now (t, w) ≡ (returned tt, (closed lower exc now t, w))
  unfolding close_session
  close_session-closed lower exc now t w h p = rw (h, summary-summarised now.monotonic t p) refl

  leave-closed :
      (lower : String → String) (stamp : Stamp) (exc : Option ExcInfo) (now : Instant)
      (t : Trajectory) (w : World T)
      → t.otel ≡ true
      → All IsPriced t.steps
      → leave lower stamp exc now (t, w)
        ≡ auto_save (closed lower exc now (closing stamp exc now t), w)
  unfolding leave
  leave-closed lower stamp exc now t w o p =
      let k = closing-steps stamp exc now t in
      ap (λ r. and_then r (λ _ tw. auto_save tw))
        (close_session-closed lower exc now (closing stamp exc now t) w (k.1 ∙ o) (
          subst (All IsPriced) (sym k.0)
            (All-append t.steps (last_steps stamp exc) p (last_steps-IsPriced stamp exc))))

  unfoldable pub with_block :
      (String → String)
      → Instant
      → List Op
      → Stamp
      → Option ExcInfo
      → Instant
      → Trajectory × World T
      → Outcome (Unit {0}) × (Trajectory × World T)
  unfolding enter exit perform_all
  with_block lower start ops w exc stop tw =
      let (t, world) = enter start tw in exit lower w exc stop (perform_all ops t, world)

  save_in-Saves :
      (refused : Option Exc) (s : T.State) (t : Trajectory) (w : World T)
      → T.refuses (dict (to_dict t)) ≡ refused
      → w.default_store ≡ some s
      → let (r, (t', w')) = save_in refused s (t, w) in
        (t' ≡ t)
        × (w'.current_trajectory ≡ w.current_trajectory)
        × Saves T t (some s) r w'.default_store
  unfolding save
  save_in-Saves none s t w e f = (refl, refl, inl (e, refl, refl))
  save_in-Saves (some x) s t w e f = (refl, refl, inr (x, e, refl, f))

  pub auto_save-fields :
      (t : Trajectory) (w : World T)
      → let (r, (t', w')) = auto_save (t, w) in
        (t' ≡ t)
        × (w'.current_trajectory ≡ w.current_trajectory)
        × Saves T t w.default_store r w'.default_store
  unfolding save
  auto_save-fields t w = elim (Option-cases w.default_store) [
    | inl e ↦ rw e (refl, refl, (refl, refl))
    | inr (s, e) ↦ rw e (
        save_in-Saves (T.refuses (dict (to_dict t))) s t (record w { default_store = some s }) refl
          refl)
  ]

  exit-closed :
      (lower : String → String) (stamp : Stamp) (exc : Option ExcInfo) (now : Instant)
      (t : Trajectory) (w : World T) (before : Option String)
      → t.context_token ≡ some before
      → t.otel ≡ true
      → All IsPriced t.steps
      → exit lower stamp exc now (t, w)
        ≡ auto_save (
          closed lower exc now (closing stamp exc now (record t { context_token = none })),
          record w { current_trajectory = before },
        )
  unfolding exit
  exit-closed lower stamp exc now t w before c o p =
      ap (λ k. leave lower stamp exc now (reset_to k (t, w))) c
      ∙ leave-closed lower stamp exc now (record t { context_token = none })
          (record w { current_trajectory = before }) o p

  -- What a block leaves: the outcome, the trajectory and the world
  abbrev pub Left :
      List Step
      → Stamp
      → Option ExcInfo
      → Trajectory
      → World T
      → Outcome (Unit {0}) × (Trajectory × World T)
      → Type 0
  Left recorded stamp exc t w (r, (t', w')) =
      Saves T t' w.default_store r w'.default_store
      × (t'.steps ≡ t.steps ++ recorded ++ last_steps stamp exc)
      × (t'.status ≡ final_status exc)
      × (t'.open_step_spans ≡ [])
      × (t'.otel ≡ false)
      × (w'.current_trajectory ≡ w.current_trajectory)

  -- The trajectory and the world when the block has run, before `__exit__`
  abbrev pub run_block : Instant → List Op → Trajectory → World T → Trajectory
  run_block start ops t w = record (perform_all ops (enter start (t, w)).0) { context_token = none }

  pub with_block-closed :
      (lower : String → String) (start : Instant) (ops : List Op) (stamp : Stamp)
      (exc : Option ExcInfo) (stop : Instant) (t : Trajectory) (w : World T)
      → All IsPriced t.steps
      → All IsPriced (map step_of ops)
      → with_block lower start ops stamp exc stop (t, w)
        ≡ auto_save (closed lower exc stop (closing stamp exc stop (run_block start ops t w)), w)
  unfolding with_block
  with_block-closed lower start ops stamp exc stop t w p q =
      let (t0, w0) : Trajectory × World T = enter start (t, w) in
      let (s, (i, c, o)) = perform_all-steps ops t0 in
      exit-closed lower stamp exc stop (perform_all ops t0) w0 w.current_trajectory c o
        (subst (All IsPriced) (sym s) (All-append t.steps (map step_of ops) p q))

  -- A `with` block, whatever is recorded in it, when every cost is absent or a number. When it is
  -- left, the trajectory has its old steps, one for each recording call in order, and an ERROR step
  -- if an exception ended the block; its status is FAILED then and SUCCESS otherwise; no span is
  -- open; and the trajectory that was active before is active again. Leaving it returns when there is
  -- no default store, or when the store takes the trajectory as it is then, which is then saved in
  -- it; when the store refuses it, leaving raises the store's exception, and the store is as before.
  pub with_block-Left :
      (lower : String → String) (start : Instant) (ops : List Op) (stamp : Stamp)
      (exc : Option ExcInfo) (stop : Instant) (t : Trajectory) (w : World T)
      → All IsPriced t.steps
      → All IsPriced (map step_of ops)
      → Left (map step_of ops) stamp exc t w (with_block lower start ops stamp exc stop (t, w))
  unfolding with_block
  with_block-Left lower start ops stamp exc stop t w p q =
      let (t0, w0) : Trajectory × World T = enter start (t, w) in
      let (s, (i, c, o)) = perform_all-steps ops t0 in
      let u = run_block start ops t w in
      let (steps, otel, same, status, token) = closing-steps stamp exc stop u in
      let end = closed lower exc stop (closing stamp exc stop u) in
      let left = auto_save {T = T} (end, w) in
      let (a, b, d) = auto_save-fields end w in
      subst (Left (map step_of ops) stamp exc t w)
        (sym (with_block-closed lower start ops stamp exc stop t w p q))
        (
          subst (λ t'. Saves T t' w.default_store left.0 left.1.1.default_store) (sym a) d,
          ap (λ t'. t'.steps) a ∙ steps ∙ ap (λ l. l ++ last_steps stamp exc) s,
          ap (λ t'. t'.status) a ∙ status,
          ap (λ t'. t'.open_step_spans) a,
          ap (λ t'. t'.otel) a,
          b,
        )
