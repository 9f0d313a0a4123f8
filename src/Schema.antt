-- ===== src/Schema.antt =====
-- src/primal_ai/_jsonschema.py: the validator of the JSON-Schema subset. A schema is a dict with
-- the keys that the code reads: `type`, `required` and `properties`; an absent key is `none` or an
-- empty list. A `type` is one of the seven texts of `_TYPE_TO_PY`, or another text. An error is the path, from the root, with the message that the code
-- formats there.
pub mod Sound
mod Tests
use primal_core.Base.{
  String, Bool, true, false, Option, none, some, List, [], ◌∷◌, ◌++◌, ◌&&◌, ◌||◌, not,
  if◌then◌else◌, str_eq, is_none, Outcome, returned, raised, exception,
}
use primal_core.Base.Value.{
  Value, null, bool, int, float, str, list, tuple, dict, object, Fields, end, field, field_of,
  type_name,
}

-- The text of a `type`: a key of `_TYPE_TO_PY`, or a text that is none.
pub data TypeText : Type 0 where
  object_text array_text string_text number_text integer_text boolean_text null_text : TypeText
  other_text : String → TypeText

mutual
  pub data Schema : Type 0 where
    schema : Option TypeText → List String → Properties → Schema

  pub data Properties : Type 0 where
    none_left : Properties
    property : String → Schema → Properties → Properties

pub data Message : Type 0 where
  integer_got_boolean : Message
  boolean_got : String → Message
  expected_got : TypeText → String → Message
  required_missing : String → Message

-- `$.a.b: message` is (a ∷ b ∷ [], message).
abbrev pub Error : Type 0
Error = List String × Message

-- `_TYPE_TO_PY.get(t) is not None`
unfoldable pub is_known_type : TypeText → Bool
is_known_type (other_text t) = false
is_known_type _ = true

-- `isinstance(value, _TYPE_TO_PY[t])`; a `bool` is an `int`.
unfoldable pub is_instance : TypeText → Value → Bool
is_instance object_text (dict fs) = true
is_instance array_text (list xs) = true
is_instance array_text (tuple xs) = true
is_instance string_text (str s) = true
is_instance number_text (int n) = true
is_instance number_text (float x) = true
is_instance number_text (bool b) = true
is_instance integer_text (int n) = true
is_instance integer_text (bool b) = true
is_instance boolean_text (bool b) = true
is_instance null_text null = true
is_instance _ _ = false

unfoldable pub is_bool : Value → Bool
is_bool (bool b) = true
is_bool _ = false

abbrev pub is_integer_text : TypeText → Bool
is_integer_text integer_text = true
is_integer_text _ = false

abbrev pub is_boolean_text : TypeText → Bool
is_boolean_text boolean_text = true
is_boolean_text _ = false

abbrev pub is_object_text : TypeText → Bool
is_object_text object_text = true
is_object_text _ = false

-- The three type tests of `_walk`, for a known type.
unfoldable pub type_error : TypeText → Value → Option Message
type_error t v =
    if is_integer_text t && is_bool v
    then some integer_got_boolean
    else if is_boolean_text t && not (is_bool v)
    then some (boolean_got (type_name v))
    else if is_instance t v
    then none
    else some (expected_got t (type_name v))

unfoldable pub first_missing : List String → Fields → Option String
first_missing [] fs = none
first_missing (k ∷ ks) fs = if is_none (field_of k fs) then some k else first_missing ks fs

-- The keys of a dict; the code looks only into dicts.
unfoldable pub fields_of : Value → Fields
fields_of (dict fs) = fs
fields_of _ = end

unfoldable pub is_dict : Value → Bool
is_dict (dict fs) = true
is_dict _ = false

-- The block for `object`: `required` first, then what `properties` gave.
unfoldable pub object_error : List String → Value → List String → Option Error → Option Error
object_error required v path below =
    if is_dict v
    then elim (first_missing required (fields_of v)) [
      | some k ↦ some (path, required_missing k)
      | none ↦ below
    ]
    else none

-- `_walk`; `path` holds the keys from the root.
unfoldable mutual
  pub walk : Schema → Value → List String → Option Error
  walk (schema t required properties) v path =
      let below = walk_properties properties (fields_of v) path in
      elim t [
        | none ↦ none
        | some t ↦
            if is_known_type t
            then elim (type_error t v) [
              | some m ↦ some (path, m)
              | none ↦ if is_object_text t then object_error required v path below else none
            ]
            else none
      ]

  pub walk_properties : Properties → Fields → List String → Option Error
  walk_properties none_left fs path = none
  walk_properties (property k s ps) fs path =
      let rest = walk_properties ps fs path in
      elim (field_of k fs) [
        | none ↦ rest
        | some v ↦
            let found = walk s v (path ++ k ∷ []) in elim found [ none ↦ rest | some e ↦ some e ]
      ]

-- The first error from the root `$`, if any.
unfoldable pub first_error : Schema → Value → Option Error
first_error s v = walk s v []

-- `validate`: the error is raised as a `ValueError` with its text, which `text_of` formats.
unfoldable pub validate : (Error → String) → Schema → Value → Outcome (Unit {0})
validate text_of s v = elim (walk s v []) [
  | none ↦ returned tt
  | some e ↦ raised (exception "ValueError" (text_of e))
]
