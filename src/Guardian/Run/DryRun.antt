-- ===== src/Guardian/Run/DryRun.antt =====
-- Dry runs (src/primal_ai/guardian/_core.py): what the wrapper does while violations are recorded.
use primal_core.Base.{
  ◌≡◌, refl, sym, ap, ◌∙◌, some, List, [], ◌∷◌, ◌++◌, PolicyViolation, Outcome, returned, raised,
  violation, exception, base_exception, All,
}
use primal_core.Base.Value.{Value}
use primal_core.Guardian.Policy.{
  Call, Policy, Guard, and_then, catch_violation, lift, with_state, pre_hook, post_hook, replaced,
}
use primal_core.Guardian.Run.{run_pre, run_post, handle_violation, build_sync_wrapper, dry_run}
use mathlib.Core.List.{append_assoc, append-nil}

-- What a hook may do here: return, or raise a `PolicyViolation`.
abbrev pub IsTame : {A : Type 0} → Outcome A → Type 0
IsTame (returned a) = Unit
IsTame (raised (violation v)) = Unit
IsTame (raised (exception c m)) = ⊥
IsTame (raised (base_exception c m)) = ⊥

-- The violation of a hook, if it raised one
abbrev pub violation_of : {A : Type 0} → Outcome A → List PolicyViolation
violation_of (raised (violation v)) = v ∷ []
violation_of _ = []

-- The result after a post-hook: a violation keeps the one so far.
abbrev pub result_after : Value → Outcome Value → Value
result_after result (returned replacement) = replaced result replacement
result_after result (raised e) = result

module _ {S : Type 0} where
  pub record HasTameHooks (p : Policy S) : Type 0 where
    pub pre_tame : (c : Call) (s : S) → IsTame (pre_hook p c s).0
    pub post_tame : (c : Call) (r : Value) (s : S) → IsTame (post_hook p c r s).0

  -- Every pre-hook, one after the other: what they raise, in order, and the state they leave
  unfoldable pub all_pre : List (Policy S) → Call → S → List PolicyViolation × S
  all_pre [] c s = ([], s)
  all_pre (p ∷ ps) c s =
      let (o, s') = pre_hook p c s in let (vs, s'') = all_pre ps c s' in (violation_of o ++ vs, s'')

  -- Every post-hook: the last result, what they raise, and the state they leave
  unfoldable pub all_post : List (Policy S) → Call → Value → S → Value × List PolicyViolation × S
  all_post [] c r s = (r, [], s)
  all_post (p ∷ ps) c r s =
      let (o, s') = post_hook p c r s in
      let (r', vs, s'') = all_post ps c (result_after r o) s' in (r', violation_of o ++ vs, s'')

  -- The guard in a dry run that has recorded `vs`
  abbrev pub recording : List PolicyViolation → S → Guard S → Guard S
  recording vs s g = record g { state = s; dry_run_violations = some vs }

  pre_turn :
      (o : Outcome (Unit {0}) × S) (ps : List (Policy S)) (c : Call) (buf : List PolicyViolation)
      (g : Guard S)
      → IsTame o.0
      → ((buf' : List PolicyViolation) (s : S)
          → run_pre ps c (recording buf' s g)
            ≡ (returned tt, recording (buf' ++ (all_pre ps c s).0) (all_pre ps c s).1 g))
      → and_then
          (catch_violation (lift o (recording buf g.state g)) handle_violation)
          (λ _ g'. run_pre ps c g')
        ≡ (
          returned tt,
          recording (buf ++ (violation_of o.0 ++ (all_pre ps c o.1).0)) (all_pre ps c o.1).1 g,
        )
  unfolding handle_violation
  pre_turn (returned u, s) ps c buf g t rest = rest buf s
  pre_turn (raised (violation v), s) ps c buf g t rest =
      rest (buf ++ v ∷ []) s
      ∙ ap (λ vs. (returned tt, recording vs (all_pre ps c s).1 g))
          (append_assoc buf (v ∷ []) (all_pre ps c s).0)
  pre_turn (raised (exception a m), s) ps c buf g t rest = elim t [ ]
  pre_turn (raised (base_exception a m), s) ps c buf g t rest = elim t [ ]

  run_pre-recording :
      (ps : List (Policy S)) (c : Call) (g : Guard S) (buf : List PolicyViolation) (s : S)
      → All HasTameHooks ps
      → run_pre ps c (recording buf s g)
        ≡ (returned tt, recording (buf ++ (all_pre ps c s).0) (all_pre ps c s).1 g)
  unfolding run_pre all_pre
  run_pre-recording [] c g buf s t =
      ap (λ vs. (returned tt, recording vs s g)) (sym (append-nil buf))
  run_pre-recording (p ∷ ps) c g buf s t =
      pre_turn (pre_hook p c s) ps c buf (record g { state = s }) (t.0.pre_tame c s)
        (λ buf' s'. run_pre-recording ps c g buf' s' t.1)

  post_turn :
      (o : Outcome Value × S) (ps : List (Policy S)) (c : Call) (r : Value)
      (buf : List PolicyViolation) (g : Guard S)
      → IsTame o.0
      → ((r' : Value) (buf' : List PolicyViolation) (s : S)
          → let (q, vs, s') = all_post ps c r' s in
            run_post ps c r' (recording buf' s g) ≡ (returned q, recording (buf' ++ vs) s' g))
      → let (q, vs, s') = all_post ps c (result_after r o.0) o.1 in
        and_then
          (catch_violation
            (and_then
              (lift o (recording buf g.state g))
              (λ replacement g'. (returned (replaced r replacement), g')))
            (λ v g'. and_then (handle_violation v g') (λ _ g''. (returned r, g''))))
          (λ r' g'. run_post ps c r' g')
        ≡ (returned q, recording (buf ++ (violation_of o.0 ++ vs)) s' g)
  unfolding handle_violation
  post_turn (returned replacement, s) ps c r buf g t rest = rest (replaced r replacement) buf s
  post_turn (raised (violation v), s) ps c r buf g t rest =
      let (q, vs, s') = all_post ps c r s in
      rest r (buf ++ v ∷ []) s
      ∙ ap (λ ws. (returned q, recording ws s' g)) (append_assoc buf (v ∷ []) vs)
  post_turn (raised (exception a m), s) ps c r buf g t rest = elim t [ ]
  post_turn (raised (base_exception a m), s) ps c r buf g t rest = elim t [ ]

  run_post-recording :
      (ps : List (Policy S)) (c : Call) (r : Value) (g : Guard S) (buf : List PolicyViolation)
      (s : S)
      → All HasTameHooks ps
      → let (q, vs, s') = all_post ps c r s in
        run_post ps c r (recording buf s g) ≡ (returned q, recording (buf ++ vs) s' g)
  unfolding run_post all_post
  run_post-recording [] c r g buf s t =
      ap (λ vs. (returned r, recording vs s g)) (sym (append-nil buf))
  run_post-recording (p ∷ ps) c r g buf s t =
      post_turn (post_hook p c r s) ps c r buf (record g { state = s }) (t.0.post_tame c r s)
        (λ r' buf' s'. run_post-recording ps c r' g buf' s' t.1)

  -- A dry run blocks nothing and escalates nothing: when the hooks raise nothing but
  -- `PolicyViolation` and the agent returns, the wrapped call returns the agent's result with the
  -- replacements of the post-hooks that passed, the buffer holds every violation of every hook, in
  -- order, and afterwards only the callers' state has changed.
  pub dry_run-never_blocks :
      (agent : Call → S → Outcome Value × S) (ps : List (Policy S)) (c : Call) (g : Guard S)
      (answer : Value) (s : S)
      → All HasTameHooks ps
      → agent c (all_pre ps c g.state).1 ≡ (returned answer, s)
      → dry_run (build_sync_wrapper agent ps c) g ≡ (
        (
          returned (all_post ps c answer s).0,
          (all_pre ps c g.state).0 ++ (all_post ps c answer s).1,
        ),
        with_state (all_post ps c answer s).2 g,
      )
  unfolding dry_run build_sync_wrapper
  dry_run-never_blocks agent ps c g answer s t ran =
      rw
        (
          run_pre-recording ps c g [] g.state t,
          ran,
          run_post-recording ps c answer g (all_pre ps c g.state).0 s t,
        )
        refl
