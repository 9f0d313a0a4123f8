-- ===== src/Base/Python.antt =====
-- What the program calls of Python itself when it rebuilds an object from a dict. `str` of a value
-- that is no text, `float` of a text, `dict` of a value that is no dict, and the lower case of a
-- text are parameters.
pub mod Kept
use Prim.Native.String.{String}
use mathlib.Core.Path.{◌≡◌}
use mathlib.Core.Bool.{Bool, true, false, not}
use mathlib.Core.Option.{Option, none, some}
use primal_core.Base.Tests.{if◌then◌else◌, str_eq, get_or}
use primal_core.Base.Int.{ℤ, pos, scale, is_zero}
use primal_core.Base.Value.{
  Value, null, bool, int, float, str, list, tuple, dict, object, nil, cons, Fields, end, field,
  field_of,
}
use primal_core.Base.Exec.{Outcome, returned, raised, exception}

pub record Python : Type 0 where
  pub str_of : Value → String
  pub parse_float : String → Outcome ℤ
  pub dict_of : Value → Outcome Fields
  pub lower : String → String

-- `str(s)` is `s` for a text.
pub record IsPython (py : Python) : Type 0 where
  pub str_of-str : (s : String) → py.str_of (str s) ≡ s

-- `bool(value)`
unfoldable pub truthy : Value → Bool
truthy null = false
truthy (bool b) = b
truthy (int n) = not (is_zero n)
truthy (float x) = not (is_zero x)
truthy (str s) = not (str_eq s "")
truthy (list nil) = false
truthy (list (cons x xs)) = true
truthy (tuple nil) = false
truthy (tuple (cons x xs)) = true
truthy (dict end) = false
truthy (dict (field k v fs)) = true
truthy (object c) = true

-- `a or b`
unfoldable pub either_or : Value → Value → Value
unfolding truthy
either_or a b = if truthy a then a else b

-- `payload.get(k)`
unfoldable pub value_at : String → Fields → Value
unfolding field_of
value_at k fs = get_or (field_of k fs) null

-- `payload[k]`
unfoldable pub item_at : String → Fields → Outcome Value
unfolding field_of
item_at k fs = elim (field_of k fs) [ none ↦ raised (exception "KeyError" k) | some v ↦ returned v ]

-- `payload[k]` on a value that may be no dict
abbrev pub as_fields : Value → Outcome Fields
as_fields (dict fs) = returned fs
as_fields _ = raised (exception "TypeError" "not a dict")

-- `value.get` and `value.items` on a value that may be no dict
abbrev pub with_methods : Value → Outcome Fields
with_methods (dict fs) = returned fs
with_methods _ = raised (exception "AttributeError" "not a dict")

module _ (py : Python) where
  -- `float(value)`; a float is a whole number of millionths.
  unfoldable pub to_float : Value → Outcome ℤ
  unfolding scale
  to_float (float x) = returned x
  to_float (int n) = returned (scale 1000000 n)
  to_float (bool b) = returned (pos (if b then 1000000 else 0))
  to_float (str s) = py.parse_float s
  to_float _ = raised (exception "TypeError" "float() argument")

  -- `dict(value)`
  unfoldable pub to_dict_value : Value → Outcome Fields
  to_dict_value (dict fs) = returned fs
  to_dict_value v = py.dict_of v
