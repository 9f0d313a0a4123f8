-- ===== src/Events.antt =====
-- src/primal_ai/_events.py: the bus that Conductor, Atlas and the other parts publish on. Handlers
-- are the subscribers' code, on a state `S`; subscription ids are the caller's choice here, where
-- the code draws fresh ones.
pub mod Delivery
pub mod Serial
mod Tests
use primal_core.Base.{
  String, Bool, true, false, Option, none, some, List, [], ◌∷◌, if◌then◌else◌, str_eq, Outcome,
  returned, raised, violation, exception, base_exception,
}
use primal_core.Base.Int.{ℤ}
use primal_core.Base.Value.{Fields}
use primal_core.Base.Dict.{Dict, put, pop, values}
use primal_core.Guardian.Policy.{and_then}

pub record Event : Type 0 where
  pub kind : String
  pub payload : Fields
  pub event_id : String
  pub timestamp : ℤ
  pub monotonic : ℤ

abbrev pub Handler : Type 0 → Type 0
Handler S = Event → S → Outcome (Unit {0}) × S

-- `_subscriptions`: the kind, `none` for all, with the handler
abbrev pub EventBus : Type 0 → Type 0
EventBus S = Dict (Option String × Handler S)

-- `kind_value is None or kind_value == event.kind`
abbrev pub takes : Option String → Event → Bool
takes none e = true
takes (some k) e = str_eq k e.kind

module _ {S : Type 0} where
  unfoldable pub subscribe : String → Option String → Handler S → EventBus S → EventBus S
  subscribe sub_id kind handler bus = put sub_id (kind, handler) bus

  unfoldable pub unsubscribe : String → EventBus S → EventBus S
  unsubscribe sub_id bus = pop sub_id bus

  -- `with suppress(Exception): handler(event)`
  abbrev pub suppress : Outcome (Unit {0}) × S → Outcome (Unit {0}) × S
  suppress (returned u, s) = (returned u, s)
  suppress (raised (violation v), s) = (returned tt, s)
  suppress (raised (exception c m), s) = (returned tt, s)
  suppress (raised (base_exception c m), s) = (raised (base_exception c m), s)

  -- The loop of `publish` over the snapshot
  unfoldable pub dispatch : List (Option String × Handler S) → Event → S → Outcome (Unit {0}) × S
  dispatch [] e s = (returned tt, s)
  dispatch ((kind, handler) ∷ more) e s = elim (takes kind e) [
    | false ↦ dispatch more e s
    | true ↦ and_then (suppress (handler e s)) (λ _ s'. dispatch more e s')
  ]

  unfoldable pub publish : Event → EventBus S → S → Outcome (Unit {0}) × S
  publish e bus s = dispatch (values bus) e s
