-- ===== src/Conductor/Delegate/Traces.antt =====
-- What `Conductor.delegate` leaves on the bus and on the active trajectory
-- (src/primal_ai/conductor/_core.py).
use primal_core.Base.{
  ℕ, String, ◌≡◌, refl, sym, ap, ◌∙◌, subst, ◌++◌, Bool, true, false, Option, none, some, List, [],
  ◌∷◌, ltb, if◌then◌else◌, Outcome, returned, raised, violation, exception, base_exception, inl,
  inr, Sum-cases, Outcome-cases,
}
use primal_core.Base.Value.{Value}
use primal_core.Conductor.Card.{
  Agent, DelegationStatus, success, failed, refused, timeout, DelegationReason, DelegationResult,
}
use primal_core.Conductor.Delegate.{
  Conductor, ConductorEvent, Handoff, publish, record_handoff, resolve_target, invoke_target,
  direct, joined, refuse, finish, delegate, delegation_started, delegation_completed,
  delegation_failed, handoff_of,
}
use primal_core.Conductor.Delegate.Outcomes.{
  refused_by, ran_by, result_from, started, value_or, raised_is_no_return,
}

-- The trajectory with the handoff of the result, when one is active
abbrev pub with_handoff : DelegationResult → Option (List Handoff) → Option (List Handoff)
with_handoff r none = none
with_handoff r (some steps) = some (handoff_of r ∷ steps)

-- The events of a whole delegation with that result: a refused one never starts.
abbrev pub events_of : DelegationResult → List ConductorEvent
events_of r = elim r.status [
  | refused ↦ delegation_failed r ∷ []
  | success ↦
      delegation_completed r ∷ delegation_started r.from_agent r.to_agent r.capability r.task ∷ []
  | failed ↦
      delegation_failed r ∷ delegation_started r.from_agent r.to_agent r.capability r.task ∷ []
  | timeout ↦
      delegation_failed r ∷ delegation_started r.from_agent r.to_agent r.capability r.task ∷ []
]

-- The status of an invocation, as what is published at its end
IsRun : DelegationStatus → Type 0
IsRun refused = ⊥
IsRun _ = Unit

direct-IsRun :
    (o : Outcome Value) (told : DelegationStatus × Value × Option DelegationReason)
    → direct o ≡ returned told
    → IsRun told.0
unfolding IsRun
direct-IsRun (returned v) told e = subst (λ q. IsRun (value_or told q).0) e tt
direct-IsRun (raised (violation v)) told e = subst (λ q. IsRun (value_or told q).0) e tt
direct-IsRun (raised (exception a m)) told e = subst (λ q. IsRun (value_or told q).0) e tt
direct-IsRun (raised (base_exception a m)) told e = absurd (raised_is_no_return _ told e)

joined-IsRun :
    (o : Outcome Value) (late : Bool) (x : Value) (why : Option DelegationReason)
    → IsRun (if late then (timeout, x, why) else joined o).0
unfolding IsRun
joined-IsRun (returned v) true x why = tt
joined-IsRun (returned v) false x why = tt
joined-IsRun (raised (violation v)) true x why = tt
joined-IsRun (raised (violation v)) false x why = tt
joined-IsRun (raised (exception a m)) true x why = tt
joined-IsRun (raised (exception a m)) false x why = tt
joined-IsRun (raised (base_exception a m)) true x why = tt
joined-IsRun (raised (base_exception a m)) false x why = tt

module _ {S : Type 0} where
  invoke_target-IsRun :
      (target : Agent S) (input : Value) (budget : Option ℕ) (s : S)
      (told : DelegationStatus × Value × Option DelegationReason)
      → (invoke_target target input budget s).0 ≡ returned told
      → IsRun told.0
  unfolding invoke_target
  invoke_target-IsRun target input none s told e = direct-IsRun (target.invoke input s).0.0 told e
  invoke_target-IsRun target input (some budget) s told e =
      subst (λ q. IsRun (value_or told q).0) e
        (joined-IsRun (target.invoke input s).0.0 (ltb budget (target.invoke input s).0.1) _ _)

  -- What a delegation leaves behind
  abbrev pub Leaves : DelegationResult → Conductor S → Conductor S → Type 0
  Leaves r c c' =
      (c'.events ≡ events_of r ++ c.events)
      × (c'.trajectory ≡ with_handoff r c.trajectory)
      × (c'.agents ≡ c.agents)

  refuse-Leaves :
      (task : String) (input : Value) (capability from_agent : Option String)
      (reason : DelegationReason) (c : Conductor S)
      → Leaves
          (refuse task input capability from_agent reason c).0
          c
          (refuse task input capability from_agent reason c).1
  unfolding refuse publish record_handoff
  refuse-Leaves task input capability from_agent reason c =
      elim c.trajectory
        as (λ t.
          Leaves (refuse task input capability from_agent reason (record c { trajectory = t })).0
            (record c { trajectory = t })
            (refuse task input capability from_agent reason (record c { trajectory = t })).1) [
              | none ↦ (refl, refl, refl)
              | some steps ↦ (refl, refl, refl)
            ]

  noted :
      (r : DelegationResult) (c : Conductor S)
      → ((record_handoff r c).events ≡ c.events)
        × ((record_handoff r c).trajectory ≡ with_handoff r c.trajectory)
        × ((record_handoff r c).agents ≡ c.agents)
  unfolding record_handoff
  noted r c =
      elim c.trajectory
        as (λ t.
          ((record_handoff r (record c { trajectory = t })).events ≡ c.events)
          × ((record_handoff r (record c { trajectory = t })).trajectory ≡ with_handoff r t)
          × ((record_handoff r (record c { trajectory = t })).agents ≡ c.agents)) [
            | none ↦ (refl, refl, refl)
            | some steps ↦ (refl, refl, refl)
          ]

  finish-Leaves :
      (task : String) (capability : Option String) (input : Value) (from_agent : Option String)
      (target : Agent S) (told : DelegationStatus × Value × Option DelegationReason)
      (c : Conductor S) (s : S)
      → IsRun told.0
      → Leaves
          (result_from task capability input from_agent target told)
          c
          (finish
            (result_from task capability input from_agent target told)
            (record (started task capability from_agent target c) { state = s })).1
  unfolding finish publish record_handoff IsRun
  finish-Leaves task capability input from_agent target (success, out, why) c s t =
      let r = result_from task capability input from_agent target (success, out, why) in
      let (same, steps, agents) =
        noted r (record (started task capability from_agent target c) { state = s }) in
      (ap (λ es. delegation_completed r ∷ es) same, steps, agents)
  finish-Leaves task capability input from_agent target (failed, out, why) c s t =
      let r = result_from task capability input from_agent target (failed, out, why) in
      let (same, steps, agents) =
        noted r (record (started task capability from_agent target c) { state = s }) in
      (ap (λ es. delegation_failed r ∷ es) same, steps, agents)
  finish-Leaves task capability input from_agent target (timeout, out, why) c s t =
      let r = result_from task capability input from_agent target (timeout, out, why) in
      let (same, steps, agents) =
        noted r (record (started task capability from_agent target c) { state = s }) in
      (ap (λ es. delegation_failed r ∷ es) same, steps, agents)
  finish-Leaves task capability input from_agent target (refused, out, why) c s t = elim t [ ]

  -- A delegation leaves a complete trace. When it returns a result, the bus has got exactly the
  -- events of that result: a start for every delegation that is not refused, then one end, completed
  -- for a success and failed otherwise. The active trajectory has got exactly one handoff, the
  -- result's, and the registry is as it was.
  pub delegate-Leaves :
      (task : String) (agents : Option (List (Agent S))) (capability : Option String)
      (input : Value) (budget : Option ℕ) (from_agent : Option String) (c : Conductor S)
      (r : DelegationResult) (c' : Conductor S)
      → delegate task agents capability input budget from_agent c ≡ (returned r, c')
      → Leaves r c c'
  delegate-Leaves task agents capability input budget from_agent c r c' e =
      elim (Sum-cases (resolve_target agents capability input c.agents)) [
        | inr (reason, none_picked) ↦
            let same =
              sym (refused_by task agents capability input budget from_agent c reason none_picked)
              ∙ e in
            subst (λ o. Leaves (value_or r o.0) c o.1) same
              (refuse-Leaves task input capability from_agent reason c)
        | inl (target, picked) ↦
            let run = invoke_target target input budget c.state in
            elim (Outcome-cases run.0) [
              | inl (told, ran) ↦
                  let both = ap (λ o. (o, run.1)) ran in
                  let same =
                    sym (
                      ran_by task agents capability input budget from_agent c target (returned told)
                        run.1 picked both)
                    ∙ e in
                  subst (λ o. Leaves (value_or r o.0) c o.1) same
                    (finish-Leaves task capability input from_agent target told c run.1
                      (invoke_target-IsRun target input budget c.state told ran))
              | inr (x, escaped) ↦
                  let both = ap (λ o. (o, run.1)) escaped in
                  absurd (
                    raised_is_no_return x r (
                      sym (
                        ap (λ o. o.0)
                          (ran_by task agents capability input budget from_agent c target (raised x)
                            run.1 picked both))
                      ∙ ap (λ o. o.0) e))
            ]
      ]
