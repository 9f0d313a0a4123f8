-- ===== src/Trajectory/Spans.antt =====
-- The step spans of src/primal_ai/trajectory/_core.py: each that is started is ended once.
use primal_core.Base.{
  ◌+◌, ◌≤◌, ◌≡◌, refl, ap, ◌∙◌, sym, subst, String, Bool, true, false, Option, none, some, List, [],
  ◌∷◌, ◌++◌, map, arith, eq_iff, if◌then◌else◌, All,
}
use primal_core.Base.Int.{ℤ}
use primal_core.Base.Dict.{get}
use primal_core.Base.Value.{Fields}
use primal_core.Trajectory.Steps.{Step, Stamp}
use primal_core.Trajectory.{
  Trajectory, SpanEvent, session_error, session_ended, step_recorded, step_started, step_ended,
  attributes, start_step_span, record_error, end_step_span, end_entry, append, emit, is_paired,
  record_call, record_result, result_attributes, add_step, ExcInfo,
}
use primal_core.Trajectory.Session.{
  orphans, decorations, kind_attributes, duration_attribute, Instant, World, enter, close_status,
  close_spans,
}
use primal_core.Storage.{Storage}
use primal_core.Trajectory.Counts.{Summary, IsPriced, summarised, no_steps}
use primal_core.Trajectory.Totals.{counted_all}
use primal_core.Trajectory.Ops.{
  Op, input, output, tool_call, tool_result, llm_call, llm_result, error, add, step_of, perform,
  perform_all,
}
use primal_core.Trajectory.Blocks.{
  closing, closed, run_block, with_block, with_block-closed, auto_save-fields,
}
use primal_core.Trajectory.Occurrences.{
  starts, ends, starts_append, ends_append, occurrences, occurrences-put, occurrences_absent,
  occurrences_present, occurrences-pop, starts-attributes, starts-orphans, starts_attribute_lists,
}

-- The open spans are those that were started and not ended, and none is open twice.
abbrev pub IsBalanced : Trajectory → Type 0
IsBalanced t =
    (id : String)
    → (starts id t.trace ≡ ends id t.trace + occurrences id t.open_step_spans)
      × (occurrences id t.open_step_spans ≤ 1)

start-IsBalanced :
    (name : String) (attrs : Fields) (id : String) (t : Trajectory)
    → IsBalanced t
    → get id t.open_step_spans ≡ none
    → IsBalanced (start_step_span name attrs id t)
unfolding start_step_span
start-IsBalanced name attrs id t b h j = ground (
  arith,
  b j,
  b id,
  eq_iff id j,
  occurrences_absent id t.open_step_spans h,
  occurrences-put id j name t.open_step_spans h,
  starts_append j t.trace (step_started name attrs id ∷ []),
  ends_append j t.trace (step_started name attrs id ∷ []),
)

end_entry-IsBalanced :
    (entry : Option String) (id : String) (attrs : Fields) (t : Trajectory)
    → get id t.open_step_spans ≡ entry
    → IsBalanced t
    → IsBalanced (end_entry entry id attrs t)
unfolding end_entry
end_entry-IsBalanced none id attrs t h b j = b j
end_entry-IsBalanced (some name) id attrs t h b j = ground (
  arith,
  b j,
  b id,
  eq_iff id j,
  occurrences_present id name t.open_step_spans h,
  occurrences-pop id j t.open_step_spans,
  starts_append j t.trace (attributes id attrs ++ (step_ended id ∷ [])),
  ends_append j t.trace (attributes id attrs ++ (step_ended id ∷ [])),
  starts_append j (attributes id attrs) (step_ended id ∷ []),
  ends_append j (attributes id attrs) (step_ended id ∷ []),
  starts-attributes j id attrs,
)

end-IsBalanced :
    (id : String) (attrs : Fields) (t : Trajectory)
    → IsBalanced t
    → IsBalanced (end_step_span id attrs t)
unfolding end_step_span
end-IsBalanced id attrs t b = end_entry-IsBalanced (get id t.open_step_spans) id attrs t refl b

-- Another event leaves the balance as it is.
abbrev IsQuiet : List SpanEvent → Type 0
IsQuiet es = (id : String) → (starts id es ≡ 0) × (ends id es ≡ 0)

quiet-IsBalanced :
    (es : List SpanEvent) (t : Trajectory)
    → IsQuiet es
    → IsBalanced t
    → IsBalanced (record t { trace = t.trace ++ es })
quiet-IsBalanced es t q b id =
    ground (arith, b id, q id, starts_append id t.trace es, ends_append id t.trace es)

choice-IsBalanced :
    (c : Bool) (u t : Trajectory) → IsBalanced u → IsBalanced t → IsBalanced (if c then u else t)
choice-IsBalanced true u t h k = h
choice-IsBalanced false u t h k = k

add_step-IsBalanced : (s : Step) (t : Trajectory) → IsBalanced t → IsBalanced (add_step s t)
unfolding add_step
add_step-IsBalanced s t b = choice-IsBalanced (is_paired s.kind) (append s t) _ b (
    choice-IsBalanced t.otel (emit (step_recorded s.kind s.step_id) (append s t)) (append s t)
      (quiet-IsBalanced (step_recorded s.kind s.step_id ∷ []) (append s t) (λ id. (refl, refl)) b)
      b)

-- The id of a call is not that of a call whose span is still open.
abbrev pub IsFresh : Op → Trajectory → Type 0
IsFresh (tool_call w tool args) t = get w.step_id t.open_step_spans ≡ none
IsFresh (llm_call w model messages) t = get w.step_id t.open_step_spans ≡ none
IsFresh _ t = Unit

result-IsBalanced :
    (id : String) (s : Step) (t : Trajectory) → IsBalanced t → IsBalanced (record_result id s t)
unfolding record_result
result-IsBalanced id s t b =
    choice-IsBalanced t.otel (end_step_span id (result_attributes s) t) t
      (end-IsBalanced id (result_attributes s) t b) b

call-IsBalanced :
    (name : String) (attrs : Fields) (s : Step) (t : Trajectory)
    → get s.step_id t.open_step_spans ≡ none
    → IsBalanced t
    → IsBalanced (record_call name attrs s t)
unfolding record_call
call-IsBalanced name attrs s t f b =
    choice-IsBalanced t.otel (start_step_span name attrs s.step_id t) t
      (start-IsBalanced name attrs s.step_id t b f) b

perform-IsBalanced :
    (o : Op) (t : Trajectory) → IsFresh o t → IsBalanced t → IsBalanced (perform o t)
unfolding perform
perform-IsBalanced (input w fs) t f b = add_step-IsBalanced (step_of (input w fs)) t b
perform-IsBalanced (output w fs) t f b = add_step-IsBalanced (step_of (output w fs)) t b
perform-IsBalanced (tool_call w tool args) t f b =
    call-IsBalanced _ _ (step_of (tool_call w tool args)) t f b
perform-IsBalanced (tool_result w id result cost latency) t f b =
    result-IsBalanced id (step_of (tool_result w id result cost latency)) t b
perform-IsBalanced (llm_call w model messages) t f b =
    call-IsBalanced _ _ (step_of (llm_call w model messages)) t f b
perform-IsBalanced (llm_result w id response cost tokens latency) t f b =
    result-IsBalanced id (step_of (llm_result w id response cost tokens latency)) t b
perform-IsBalanced (error w e) t f b = add_step-IsBalanced (step_of (error w e)) t b
perform-IsBalanced (add s) t f b = add_step-IsBalanced s t b

abbrev pub AllFresh : List Op → Trajectory → Type 0
AllFresh [] t = Unit
AllFresh (o ∷ ops) t = IsFresh o t × AllFresh ops (perform o t)

perform_all-IsBalanced :
    (ops : List Op) (t : Trajectory)
    → AllFresh ops t
    → IsBalanced t
    → IsBalanced (perform_all ops t)
unfolding perform_all
perform_all-IsBalanced [] t f b = b
perform_all-IsBalanced (o ∷ ops) t (f, fs) b =
    perform_all-IsBalanced ops (perform o t) fs (perform-IsBalanced o t f b)

append-IsQuiet : (xs ys : List SpanEvent) → IsQuiet xs → IsQuiet ys → IsQuiet (xs ++ ys)
append-IsQuiet xs ys h k id =
    omega (arith, h id, k id, starts_append id xs ys, ends_append id xs ys)

duration-IsQuiet : (d : Option ℤ) → IsQuiet (duration_attribute d)
duration-IsQuiet none id = (refl, refl)
duration-IsQuiet (some d) id = (refl, refl)

decorations-IsQuiet :
    (lower : String → String) (t : Trajectory) (exc : Option ExcInfo) (s : Summary)
    → IsQuiet (decorations lower t exc s)
unfolding decorations
decorations-IsQuiet lower t none s =
    append-IsQuiet (duration_attribute s.duration_ms) _ (duration-IsQuiet s.duration_ms) (
      append-IsQuiet (kind_attributes lower s.step_kinds) []
        (λ id. starts_attribute_lists lower id s.step_kinds) (λ id. (refl, refl)))
decorations-IsQuiet lower t (some e) s =
    append-IsQuiet (duration_attribute s.duration_ms) _ (duration-IsQuiet s.duration_ms) (
      append-IsQuiet (kind_attributes lower s.step_kinds) (session_error e.message ∷ [])
        (λ id. starts_attribute_lists lower id s.step_kinds) (λ id. (refl, refl)))

-- After the spans are closed every start has its end.
abbrev pub IsPaired : Trajectory → Type 0
IsPaired t = (id : String) → starts id t.trace ≡ ends id t.trace

close_status-IsBalanced :
    (stamp : Stamp) (exc : Option ExcInfo) (t : Trajectory)
    → IsBalanced t
    → IsBalanced (close_status stamp exc t)
unfolding record_error
close_status-IsBalanced stamp none t b = b
close_status-IsBalanced stamp (some e) t b = add_step-IsBalanced (step_of (error stamp e)) t b

close_spans-IsPaired : (t : Trajectory) → IsBalanced t → IsPaired (close_spans t)
close_spans-IsPaired t b id = omega (
  arith,
  b id,
  starts_append id t.trace (orphans t.open_step_spans),
  ends_append id t.trace (orphans t.open_step_spans),
  starts-orphans id t.open_step_spans,
)

quiet-IsPaired :
    (es : List SpanEvent) (t : Trajectory)
    → IsQuiet es
    → IsPaired t
    → (id : String) → starts id (t.trace ++ es) ≡ ends id (t.trace ++ es)
quiet-IsPaired es t q b id =
    omega (arith, b id, q id, starts_append id t.trace es, ends_append id t.trace es)

closed-IsPaired :
    (lower : String → String) (stamp : Stamp) (exc : Option ExcInfo) (now : Instant)
    (t : Trajectory)
    → IsBalanced t
    → IsPaired (closed lower exc now (closing stamp exc now t))
closed-IsPaired lower stamp exc now t b =
    let u = closing stamp exc now t in
    let s = summarised now.monotonic u (counted_all u.steps no_steps) in
    quiet-IsPaired (decorations lower u exc s ++ (session_ended ∷ [])) u
      (append-IsQuiet (decorations lower u exc s) (session_ended ∷ [])
        (decorations-IsQuiet lower u exc s) (λ id. (refl, refl)))
      (close_spans-IsPaired (close_status stamp exc t) (close_status-IsBalanced stamp exc t b))

-- A `with` block on a trajectory whose open spans are those started and not ended (a new one has
-- none), whatever is recorded in it, provided that no call is given the id of a call that is still
-- open and that every cost is absent or a number: when it is left, normally or by an exception, the
-- span of every call has been ended exactly as often as it was started.
pub with_block-IsPaired :
    {T : Storage} (lower : String → String) (start : Instant) (ops : List Op) (stamp : Stamp)
    (exc : Option ExcInfo) (stop : Instant) (t : Trajectory) (w : World T)
    → All IsPriced t.steps
    → All IsPriced (map step_of ops)
    → IsBalanced t
    → AllFresh ops (enter start (t, w)).0
    → IsPaired (with_block lower start ops stamp exc stop (t, w)).1.0
unfolding enter
with_block-IsPaired {T} lower start ops stamp exc stop t w p q b f =
    let u = run_block start ops t w in
    let (t0, w0) : Trajectory × World T = enter start (t, w) in
    let e = with_block-closed lower start ops stamp exc stop t w p q in
    let t' = closed lower exc stop (closing stamp exc stop u) in
    subst IsPaired (sym (ap (λ r. r.1.0) e ∙ (auto_save-fields t' w).0)) (
      closed-IsPaired lower stamp exc stop u
        (perform_all-IsBalanced ops t0 f (quiet-IsBalanced _ t (λ id. (refl, refl)) b)))
