-- ===== src/Conductor/Delegate/Outcomes.antt =====
-- What `Conductor.delegate` answers (src/primal_ai/conductor/_core.py).
use primal_core.Base.{
  ℕ, String, ◌≡◌, refl, sym, ap, ◌∙◌, subst, Bool, false, Option, none, some, List, [], ◌∷◌, ltb,
  if◌then◌else◌, Outcome, returned, raised, violation, exception, base_exception, Exc, ◌⊎◌, inl,
  inr, Sum-cases, Outcome-cases, arith,
}
use primal_core.Base.Value.{Value, null}
use primal_core.Schema.{Error, Schema}
use primal_core.Schema.Sound.{Clear, Conforms, first_error-Conforms}
use primal_core.Guardian.Policy.{and_then}
use primal_core.Conductor.Card.{
  Agent, Capability, DelegationStatus, success, refused, timeout, DelegationReason, input_rejected,
  DelegationResult,
}
use primal_core.Conductor.Registry.{AgentRegistry}
use primal_core.Conductor.Delegate.{
  Conductor, publish, record_handoff, candidates, gate, resolve_target, schema_gate,
  find_capability, invoke_target, direct, joined, refuse, finish, delegate, delegation_started,
}

direct_success :
    (o : Outcome Value) (told : DelegationStatus × Value × Option DelegationReason)
    → direct o ≡ returned told
    → told.0 ≡ success
    → o ≡ returned told.1
direct_success (returned v) (st, out, why) e ok = ground arith
direct_success (raised (violation v)) (st, out, why) e ok = ground arith
direct_success (raised (exception a m)) (st, out, why) e ok = ground arith
direct_success (raised (base_exception a m)) (st, out, why) e ok = ground arith

joined_success :
    (o : Outcome Value) (told : DelegationStatus × Value × Option DelegationReason) (late : Bool)
    (why : Option DelegationReason)
    → (if late then (timeout, null, why) else joined o) ≡ told
    → told.0 ≡ success
    → (o ≡ returned told.1) × (late ≡ false)
joined_success (returned v) (st, out, w) late why e ok = ground arith
joined_success (raised (violation v)) (st, out, w) late why e ok = ground arith
joined_success (raised (exception a m)) (st, out, w) late why e ok = ground arith
joined_success (raised (base_exception a m)) (st, out, w) late why e ok = ground arith

-- What is returned, or `a`
abbrev pub value_or : {A : Type 0} → A → Outcome A → A
value_or a (returned b) = b
value_or a (raised e) = a

pub raised_is_no_return : {A : Type 0} (x : Exc) (a : A) → raised x ≡ returned a → ⊥
raised_is_no_return x a e = ground arith

statuses_differ : refused ≡ success → ⊥
statuses_differ e = ground arith

refused_is_no_success :
    (x r : DelegationResult) → returned x ≡ returned r → x.status ≡ refused → r.status ≡ success → ⊥
refused_is_no_success x r e declined ok =
    let same : x.status ≡ r.status = ap (λ o. (value_or r o).status) e in
    statuses_differ (sym declined ∙ same ∙ ok)

module _ {S : Type 0} where
  -- With a time budget, `delegate` never raises, whatever the agent does.
  pub delegate_timed_returns :
      (task : String) (agents : Option (List (Agent S))) (capability : Option String)
      (input : Value) (budget : ℕ) (from_agent : Option String) (c : Conductor S)
      → (r : DelegationResult) × (c' : Conductor S) × (delegate task agents capability input
            (some budget)
            from_agent
            c
          ≡ (returned r, c'))
  unfolding delegate invoke_target finish refuse
  delegate_timed_returns task agents capability input budget from_agent c =
      elim (Sum-cases (resolve_target agents capability input c.agents)) [
        | inl (target, e) ↦ rw (e, delegate) (_, _, refl)
        | inr (reason, e) ↦ rw (e, delegate) (_, _, refl)
      ]

  gate_inl :
      (o : Option Error) (t target : Agent S)
      → (elim o as (λ q. Agent S ⊎ DelegationReason) [
        | none ↦ inl t
        | some err ↦ inr (input_rejected err)
      ])
        ≡ inl target
      → (o ≡ none) × (t ≡ target)
  gate_inl none t target e = (refl, cc)
  gate_inl (some err) t target e = ground arith

  opens :
      (targets : List (Agent S)) (name : String) (input : Value) (target : Agent S)
      → gate targets (some name) input ≡ inl target
      → schema_gate target.card name input ≡ none
  unfolding gate
  opens [] name input target e = ground arith
  opens (t ∷ ts) name input target e =
      let (shut, same) = gate_inl (schema_gate t.card name input) t target e in
      subst (λ a. schema_gate a.card name input ≡ none) same shut

  -- An agent that is resolved for a capability gets no input that the schema of that capability
  -- rejects: when the first capability of that name on its card has an input schema, the input
  -- conforms to it, if it meets none of the gaps of the validator.
  pub resolve_target-Conforms :
      (agents : Option (List (Agent S))) (name : String) (input : Value) (r : AgentRegistry S)
      (target : Agent S) (ability : Capability) (s : Schema)
      → resolve_target agents (some name) input r ≡ inl target
      → find_capability name target.card.capabilities ≡ some ability
      → ability.input_schema ≡ some s
      → Clear s input
      → Conforms s input
  unfolding resolve_target schema_gate
  resolve_target-Conforms agents name input r target ability s chosen there has clear =
      (first_error-Conforms s input clear).0 (
        sym (rw (there, has, schema_gate) refl)
        ∙ opens (candidates agents (some name) r) name input target chosen)

  pub refused_by :
      (task : String) (agents : Option (List (Agent S))) (capability : Option String)
      (input : Value) (budget : Option ℕ) (from_agent : Option String) (c : Conductor S)
      (reason : DelegationReason)
      → resolve_target agents capability input c.agents ≡ inr reason
      → delegate task agents capability input budget from_agent c ≡ (
        returned (refuse task input capability from_agent reason c).0,
        (refuse task input capability from_agent reason c).1,
      )
  unfolding delegate refuse
  refused_by task agents capability input budget from_agent c reason e = rw (e, delegate) refl

  -- The result of a delegation to the target
  abbrev pub result_from :
      String
      → Option String
      → Value
      → Option String
      → Agent S
      → DelegationStatus × Value × Option DelegationReason
      → DelegationResult
  result_from task capability input from_agent target told = record {
    from_agent = from_agent;
    to_agent = target.name;
    capability = capability;
    task = task;
    input = input;
    output = told.1;
    status = told.0;
    reason = told.2;
  }

  -- The conductor when the target is about to run, and when it has run
  abbrev pub started : String → Option String → Option String → Agent S → Conductor S → Conductor S
  started task capability from_agent target c =
      publish (delegation_started from_agent target.name capability task) c

  pub ran_by :
      (task : String) (agents : Option (List (Agent S))) (capability : Option String)
      (input : Value) (budget : Option ℕ) (from_agent : Option String) (c : Conductor S)
      (target : Agent S) (o : Outcome (DelegationStatus × Value × Option DelegationReason)) (s : S)
      → resolve_target agents capability input c.agents ≡ inl target
      → invoke_target target input budget c.state ≡ (o, s)
      → delegate task agents capability input budget from_agent c
        ≡ and_then
            (o, record (started task capability from_agent target c) { state = s })
            (λ told c2. (
              returned (result_from task capability input from_agent target told),
              (finish (result_from task capability input from_agent target told) c2).1,
            ))
  unfolding publish finish delegate record_handoff
  ran_by task agents capability input budget from_agent c target o s picked ran =
      rw (picked, delegate) (rw ran refl)

  told_success :
      (target : Agent S) (input : Value) (budget : Option ℕ) (s : S)
      (told : DelegationStatus × Value × Option DelegationReason)
      → (invoke_target target input budget s).0 ≡ returned told
      → told.0 ≡ success
      → (target.invoke input s).0.0 ≡ returned told.1
  unfolding invoke_target
  told_success target input none s told e ok = direct_success (target.invoke input s).0.0 told e ok
  told_success target input (some budget) s told e ok =
      (joined_success (target.invoke input s).0.0 told (ltb budget (target.invoke input s).0.1) _
        (ap (value_or told) e) ok).0

  -- A delegation that succeeds was run by the agent that `_resolve_target` picked: the result names
  -- that agent, and the output is what its `invoke` returned on the given input.
  pub success_from_target :
      (task : String) (agents : Option (List (Agent S))) (capability : Option String)
      (input : Value) (budget : Option ℕ) (from_agent : Option String) (c : Conductor S)
      (r : DelegationResult) (c' : Conductor S)
      → delegate task agents capability input budget from_agent c ≡ (returned r, c')
      → r.status ≡ success
      → (target : Agent S) × (resolve_target agents capability input c.agents ≡ inl target)
        × (r.to_agent ≡ target.name)
        × ((target.invoke input c.state).0.0 ≡ returned r.output)
  unfolding refuse
  success_from_target task agents capability input budget from_agent c r c' e ok =
      elim (Sum-cases (resolve_target agents capability input c.agents)) [
        | inl (target, picked) ↦
            let run = invoke_target target input budget c.state in
            elim (Outcome-cases run.0) [
              | inl (told, ran) ↦
                  let both = ap (λ o. (o, run.1)) ran in
                  let answer =
                    sym (
                      ap (λ o. o.0)
                        (ran_by task agents capability input budget from_agent c target
                          (returned told) run.1 picked both))
                    ∙ ap (λ o. o.0) e in
                  (
                    target,
                    picked,
                    sym (ap (λ o. (value_or r o).to_agent) answer),
                    told_success target input budget c.state told ran
                          (ap (λ o. (value_or r o).status) answer ∙ ok)
                        ∙ ap (λ o. returned (value_or r o).output) answer,
                  )
              | inr (x, escaped) ↦
                  let both = ap (λ o. (o, run.1)) escaped in
                  absurd (
                    raised_is_no_return x r (
                      sym (
                        ap (λ o. o.0)
                          (ran_by task agents capability input budget from_agent c target (raised x)
                            run.1 picked both))
                      ∙ ap (λ o. o.0) e))
            ]
        | inr (reason, none_picked) ↦ absurd (
            refused_is_no_success (refuse task input capability from_agent reason c).0 r
              (sym (
                  ap (λ o. o.0)
                    (refused_by task agents capability input budget from_agent c reason
                      none_picked))
                ∙ ap (λ o. o.0) e)
              refl ok)
      ]
