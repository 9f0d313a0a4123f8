-- ===== src/Events/Serial.antt =====
-- src/primal_ai/_events.py: an event as a dict, and what is rebuilt from one. A default that is drawn
-- anew is the one of an event `fresh`.
use primal_core.Base.{◌≡◌, refl, true, false, Outcome, returned, ◌>>=◌, str_eq}
use primal_core.Base.Int.{is_zero}
use primal_core.Base.Value.{str, float, dict, Fields, field, end}
use primal_core.Base.Python.{
  Python, IsPython, either_or, value_at, item_at, to_float, to_dict_value,
}
use primal_core.Base.Python.Kept.{number_kept, number_lost, text_kept, dict_kept}
use primal_core.Events.{Event}

unfoldable pub to_dict : Event → Fields
to_dict e = field "event_id" (str e.event_id) (
    field "kind" (str e.kind) (
      field "payload" (dict e.payload)
        (field "timestamp" (float e.timestamp) (field "monotonic" (float e.monotonic) end))))

unfoldable pub from_dict : Python → Event → Fields → Outcome Event
unfolding value_at item_at either_or to_float to_dict_value
from_dict py fresh payload = do
  kind ← item_at "kind" payload
  fields ← to_dict_value py (either_or (value_at "payload" payload) (dict end))
  timestamp ← to_float py (either_or (value_at "timestamp" payload) (float fresh.timestamp))
  monotonic ← to_float py (either_or (value_at "monotonic" payload) (float fresh.monotonic))
  returned (record {
    kind = py.str_of kind;
    payload = fields;
    event_id = py.str_of (either_or (value_at "event_id" payload) (str fresh.event_id));
    timestamp = timestamp;
    monotonic = monotonic;
  })

-- An event with an id and with times that are not 0.0 is read back from its dict as it was; nothing
-- drawn anew takes the place of what it carries.
from_dict-to_dict :
    (py : Python) (lawful : IsPython py) (fresh e : Event)
    → str_eq e.event_id "" ≡ false
    → is_zero e.timestamp ≡ false
    → is_zero e.monotonic ≡ false
    → from_dict py fresh (to_dict e) ≡ returned e
unfolding from_dict to_dict
from_dict-to_dict py lawful fresh e h k l =
    rw
      (
        dict_kept py e.payload,
        number_kept py e.timestamp (float fresh.timestamp) k,
        ◌>>=◌,
        number_kept py e.monotonic (float fresh.monotonic) l,
        lawful.str_of-str e.kind,
        text_kept py lawful e.event_id (str fresh.event_id) h,
      )
      refl

-- An event of the time 0.0 does not: it is rebuilt with the time drawn anew.
from_dict-zero_time :
    (py : Python) (lawful : IsPython py) (fresh e : Event)
    → str_eq e.event_id "" ≡ false
    → is_zero e.timestamp ≡ true
    → is_zero e.monotonic ≡ false
    → from_dict py fresh (to_dict e) ≡ returned (record e { timestamp = fresh.timestamp })
unfolding from_dict to_dict
from_dict-zero_time py lawful fresh e h k l =
    rw
      (
        dict_kept py e.payload,
        number_lost py e.timestamp fresh.timestamp k,
        ◌>>=◌,
        number_kept py e.monotonic (float fresh.monotonic) l,
        lawful.str_of-str e.kind,
        text_kept py lawful e.event_id (str fresh.event_id) h,
      )
      refl
