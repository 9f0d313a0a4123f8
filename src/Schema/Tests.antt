-- ===== src/Schema/Tests.antt =====
-- Runs of the schema walk (src/primal_ai/_jsonschema.py) on a small schema.
use primal_core.Base.{◌≡◌, refl, true, ◌↔◌, none, some, [], ◌∷◌}
use primal_core.Base.Value.{Value, bool, str, dict, field, end}
use primal_core.Schema.{
  Schema, schema, object_text, string_text, number_text, walk, type_error, is_instance, is_bool,
  is_known_type, none_left, property, first_error,
}
use primal_core.Schema.Sound.{Conforms, Clear, AllClear, first_error-Conforms}

abbrev answer_schema : Schema
answer_schema =
    schema (some object_text) ("answer" ∷ [])
      (property "answer" (schema (some string_text) [] none_left) none_left)

abbrev tokyo : Value
tokyo = dict (field "answer" (str "tokyo") end)

first_error-Conforms_example :
    (first_error answer_schema tokyo ≡ none) ↔ Conforms answer_schema tokyo
unfolding Clear AllClear
first_error-Conforms_example = first_error-Conforms answer_schema tokyo ((λ v there. tt), tt)

-- Without a `type` nothing is asked of an object.
untyped_gap : first_error (schema none ("answer" ∷ []) none_left) (dict end) ≡ none
unfolding first_error walk
untyped_gap = refl

-- A `bool` passes as a number.
number_gap : first_error (schema (some number_text) [] none_left) (bool true) ≡ none
unfolding first_error walk type_error is_instance is_bool is_known_type
number_gap = refl
