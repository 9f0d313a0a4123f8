-- ===== src/Events/Tests.antt =====
-- A run of the bus (src/primal_ai/_events.py) with a handler that raises and one that counts.
use primal_core.Base.{ℕ, suc, ◌≡◌, none, some, [], ◌∷◌, returned, raised, exception}
use primal_core.Base.Dict.{values}
use primal_core.Base.Int.{pos}
use primal_core.Base.Value.{end}
use primal_core.Events.{Event, Handler, EventBus, publish}
use primal_core.Events.Delivery.{deliver, subscribers, publish-deliver}

abbrev failing : Handler ℕ
failing e s = (raised (exception "RuntimeError" "down"), s)

abbrev counter : Handler ℕ
counter e s = (returned tt, suc s)

abbrev bus : EventBus ℕ
bus = ("1", (none, failing)) ∷ ("2", (some "READY", counter)) ∷ ("3", (some "OTHER", counter)) ∷ []

abbrev ready : Event
ready = record {
  kind = "READY";
  payload = end;
  event_id = "e1";
  timestamp = pos 5;
  monotonic = pos 7;
}

publish-deliver_example :
    publish ready bus 0 ≡ (returned tt, deliver (subscribers ready bus) ready 0)
unfolding values
publish-deliver_example =
    publish-deliver ready bus 0 ((λ e s. tt), ((λ e s. tt), ((λ e s. tt), tt)))
