-- ===== src/Base/Value.antt =====
-- Python values as far as the program looks into them. A float is a whole number of millionths;
-- `object c` is any instance of another class, named c.
use Prim.Native.String.{String}
use mathlib.Core.Bool.{Bool}
use mathlib.Core.Option.{Option, none, some}
use primal_core.Base.Int.{ℤ}
use primal_core.Base.Tests.{if◌then◌else◌, str_eq}

mutual
  pub data Value : Type 0 where
    null : Value
    bool : Bool → Value
    int float : ℤ → Value
    str : String → Value
    list tuple : Items → Value
    dict : Fields → Value
    object : String → Value

  pub data Items : Type 0 where
    nil : Items
    cons : Value → Items → Items

  pub data Fields : Type 0 where
    end : Fields
    field : String → Value → Fields → Fields

-- `d.get(k)` on the fields of a dict
unfoldable pub field_of : String → Fields → Option Value
field_of k end = none
field_of k (field j v fs) = if str_eq j k then some v else field_of k fs

-- `type(value).__name__`
unfoldable pub type_name : Value → String
type_name null = "NoneType"
type_name (bool b) = "bool"
type_name (int n) = "int"
type_name (float x) = "float"
type_name (str s) = "str"
type_name (list xs) = "list"
type_name (tuple xs) = "tuple"
type_name (dict fs) = "dict"
type_name (object c) = c

-- `d[k] = v` on the fields of a dict
unfoldable pub put_field : String → Value → Fields → Fields
put_field k v end = field k v end
put_field k v (field j w fs) = if str_eq j k then field j v fs else field j w (put_field k v fs)
