-- ===== src/Events/Delivery.antt =====
-- What subscribers see of a published event (src/primal_ai/_events.py).
use primal_core.Base.{
  String, ◌≡◌, refl, Option, List, [], ◌∷◌, keep, All, Outcome, returned, raised, violation,
  exception, base_exception, Bool-cases, inl, inr, ap, ◌∙◌,
}
use primal_core.Base.Dict.{values}
use primal_core.Guardian.Policy.{and_then}
use primal_core.Events.{Event, Handler, EventBus, takes, suppress, dispatch, publish}

-- The handler raises nothing that `except Exception` does not catch.
abbrev pub IsCaught : Outcome (Unit {0}) → Type 0
IsCaught (raised (base_exception cls message)) = ⊥
IsCaught _ = Unit

module _ {S : Type 0} where
  abbrev pub NeverEscapes : Option String × Handler S → Type 0
  NeverEscapes (kind, handler) = (e : Event) (s : S) → IsCaught (handler e s).0

  -- The subscribers of the event, in order of registration
  abbrev pub subscribers : Event → EventBus S → List (Option String × Handler S)
  subscribers e bus = keep (λ sub. takes sub.0 e) (values bus)

  -- Each handler given the event once, whatever it raises
  unfoldable pub deliver : List (Option String × Handler S) → Event → S → S
  deliver [] e s = s
  deliver ((kind, handler) ∷ more) e s = deliver more e (handler e s).1

  suppressed : (o : Outcome (Unit {0}) × S) → IsCaught o.0 → suppress o ≡ (returned tt, o.1)
  suppressed (returned u, s) t = refl
  suppressed (raised (violation v), s) t = refl
  suppressed (raised (exception c m), s) t = refl
  suppressed (raised (base_exception c m), s) t = elim t [ ]

  dispatch-deliver :
      (subs : List (Option String × Handler S)) (e : Event) (s : S)
      → All NeverEscapes subs
      → dispatch subs e s ≡ (returned tt, deliver (keep (λ sub. takes sub.0 e) subs) e s)
  unfolding dispatch deliver
  dispatch-deliver [] e s t = refl
  dispatch-deliver ((kind, handler) ∷ more) e s t = elim (Bool-cases (takes kind e)) [
    | inl yes_ ↦
        rw (yes_, dispatch)
          (ap (λ o. and_then o (λ _ s'. dispatch more e s')) (suppressed (handler e s) (t.0 e s))
            ∙ dispatch-deliver more e (handler e s).1 t.1)
    | inr no_ ↦ rw (no_, dispatch) (dispatch-deliver more e s t.1)
  ]

  -- `publish` never raises and gives the event, once and in order of registration, to every handler
  -- that subscribed to its kind or to all kinds, and to no other, whatever the handlers raise, short
  -- of a `BaseException` that is not an `Exception`.
  pub publish-deliver :
      (e : Event) (bus : EventBus S) (s : S)
      → All NeverEscapes (values bus)
      → publish e bus s ≡ (returned tt, deliver (subscribers e bus) e s)
  unfolding publish
  publish-deliver e bus s t = dispatch-deliver (values bus) e s t
