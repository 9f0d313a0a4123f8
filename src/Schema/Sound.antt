-- ===== src/Schema/Sound.antt =====
-- src/primal_ai/_jsonschema.py: `first_error` beside a predicate that follows the documentation of
-- the subset, and the two places where the code is laxer than it.
use primal_core.Base.{
  String, ◌≡◌, refl, ◌↔◌, inl, inr, Bool, true, false, none, some, List, [], ◌∷◌, ◌++◌, arith,
  is_none, Option-cases,
}
use primal_core.Base.Int.{ℤ}
use primal_core.Base.Value.{
  Items, Value, null, bool, int, float, str, list, tuple, dict, Fields, field_of,
}
use primal_core.Schema.{
  Schema, schema, Properties, none_left, property, TypeText, object_text, array_text, string_text,
  number_text, integer_text, boolean_text, null_text, other_text, is_object_text, is_known_type,
  is_instance, is_bool, type_error, first_missing, fields_of, is_dict, object_error, walk,
  walk_properties, first_error,
}

-- The values of each JSON type. A `bool` is a boolean and nothing else.
pub data IsA : TypeText → Value → Type 0 where
  an_object : (fs : Fields) → IsA object_text (dict fs)
  an_array : (xs : Items) → IsA array_text (list xs)
  an_array_too : (xs : Items) → IsA array_text (tuple xs)
  a_string : (s : String) → IsA string_text (str s)
  a_number : (n : ℤ) → IsA number_text (int n)
  a_float : (x : ℤ) → IsA number_text (float x)
  an_integer : (n : ℤ) → IsA integer_text (int n)
  a_boolean : (b : Bool) → IsA boolean_text (bool b)
  a_null : IsA null_text null

-- Every required key is present.
abbrev pub HasAll : List String → Fields → Type 0
HasAll [] fs = Unit
HasAll (k ∷ ks) fs = (is_none (field_of k fs) ≡ false) × HasAll ks fs

first_missing-HasAll :
    (ks : List String) (fs : Fields) → (first_missing ks fs ≡ none) ↔ HasAll ks fs
unfolding first_missing
first_missing-HasAll [] fs = ((λ e. tt), (λ h. refl))
first_missing-HasAll (k ∷ ks) fs =
    let (to, from) = first_missing-HasAll ks fs in grind (arith, to, from)

-- No `bool` stands where a number is asked for.
abbrev pub IsTold : TypeText → Value → Type 0
IsTold number_text (bool b) = ⊥
IsTold _ _ = Unit

IsA-instance : {t : TypeText} {v : Value} → IsA t v → type_error t v ≡ none
unfolding type_error is_instance is_bool
IsA-instance (an_object fs) = refl
IsA-instance _ = refl

instance-IsA :
    (t : TypeText) (v : Value)
    → is_known_type t ≡ true
    → IsTold t v
    → type_error t v ≡ none
    → IsA t v
unfolding type_error is_instance is_bool is_known_type
instance-IsA object_text (dict fs) k c e = an_object fs
instance-IsA array_text (list xs) k c e = an_array xs
instance-IsA array_text (tuple xs) k c e = an_array_too xs
instance-IsA string_text (str s) k c e = a_string s
instance-IsA number_text (int n) k c e = a_number n
instance-IsA number_text (float x) k c e = a_float x
instance-IsA number_text (bool b) k c e = absurd c
instance-IsA integer_text (int n) k c e = an_integer n
instance-IsA boolean_text (bool b) k c e = a_boolean b
instance-IsA null_text null k c e = a_null
instance-IsA _ _ k c e = cc

-- A value conforms to a schema: it has the type, if one is asked for; an object has every required
-- key, whether its type is asked for or not, and each property that it has conforms to that
-- property's schema. A schema whose `type` names no type is skipped.
mutual
  pub data Conforms : Schema → Value → Type 0 where
    untyped :
        (ks : List String) (ps : Properties) (v : Value)
        → is_dict v ≡ false
        → Conforms (schema none ks ps) v
    untyped_object :
        (ks : List String) (ps : Properties) (fs : Fields)
        → HasAll ks fs
        → AllConform ps fs
        → Conforms (schema none ks ps) (dict fs)
    unknown :
        (t : String) (ks : List String) (ps : Properties) (v : Value)
        → Conforms (schema (some (other_text t)) ks ps) v
    typed :
        (t : TypeText) (ks : List String) (ps : Properties) (v : Value)
        → is_object_text t ≡ false
        → IsA t v
        → Conforms (schema (some t) ks ps) v
    an_object_with :
        (ks : List String) (ps : Properties) (fs : Fields)
        → HasAll ks fs
        → AllConform ps fs
        → Conforms (schema (some object_text) ks ps) (dict fs)

  pub data AllConform : Properties → Fields → Type 0 where
    no_more : (fs : Fields) → AllConform none_left fs
    absent :
        (k : String) (s : Schema) (ps : Properties) (fs : Fields)
        → field_of k fs ≡ none
        → AllConform ps fs
        → AllConform (property k s ps) fs
    present :
        (k : String) (s : Schema) (ps : Properties) (fs : Fields) (v : Value)
        → field_of k fs ≡ some v
        → Conforms s v
        → AllConform ps fs
        → AllConform (property k s ps) fs

-- The value meets none of the two gaps of the code: an object where the schema has keys or
-- properties and no `type`, and a `bool` where it asks for a number.
unfoldable mutual
  pub Clear : Schema → Value → Type 0
  Clear (schema none ks ps) (dict fs) = (ks ≡ []) × (ps ≡ none_left)
  Clear (schema (some object_text) ks ps) (dict fs) = AllClear ps fs
  Clear (schema (some t) ks ps) v = IsTold t v
  Clear (schema none ks ps) v = Unit

  pub AllClear : Properties → Fields → Type 0
  AllClear none_left fs = Unit
  AllClear (property k s ps) fs =
      ((v : Value) → field_of k fs ≡ some v → Clear s v) × AllClear ps fs

mutual
  unfolding walk walk_properties object_error fields_of is_dict is_known_type type_error is_instance
      is_bool Clear AllClear

  walk-Conforms :
      (s : Schema) (v : Value) (path : List String)
      → Clear s v
      → walk s v path ≡ none
      → Conforms s v
  walk-Conforms (schema none ks ps) (dict fs) path (no_keys, no_properties) e =
      untyped_object ks ps fs (rw no_keys tt) (rw no_properties (no_more fs))
  walk-Conforms (schema none ks ps) v path c e = untyped ks ps v refl
  walk-Conforms (schema (some (other_text t)) ks ps) v path c e = unknown t ks ps v
  walk-Conforms (schema (some object_text) ks ps) (dict fs) path c e =
      an_object_with ks ps fs ((first_missing-HasAll ks fs).0 (ground arith))
        (walk_properties-AllConform ps fs path c (ground arith))
  walk-Conforms (schema (some object_text) ks ps) v path c e = absurd (ground arith)
  walk-Conforms (schema (some t) ks ps) v path c e =
      typed t ks ps v refl (instance-IsA t v refl c (ground arith))

  walk_properties-AllConform :
      (ps : Properties) (fs : Fields) (path : List String)
      → AllClear ps fs
      → walk_properties ps fs path ≡ none
      → AllConform ps fs
  walk_properties-AllConform none_left fs path c e = no_more fs
  walk_properties-AllConform (property k s ps) fs path (c, cs) e =
      elim (Option-cases (field_of k fs)) [
        | inl gone ↦
            absent k s ps fs gone (walk_properties-AllConform ps fs path cs (ground (arith, gone)))
        | inr (v, there) ↦
            present k s ps fs v there
              (walk-Conforms s v (path ++ k ∷ []) (c v there) (ground (arith, there)))
              (walk_properties-AllConform ps fs path cs (ground (arith, there)))
      ]

IsA-known : {t : TypeText} {v : Value} → IsA t v → is_known_type t ≡ true
unfolding is_known_type
IsA-known (an_object fs) = refl
IsA-known _ = refl

other_unknown : (t : String) → is_known_type (other_text t) ≡ false
unfolding is_known_type
other_unknown t = refl

mutual
  unfolding walk walk_properties object_error fields_of is_dict

  Conforms-walk :
      {s : Schema} {v : Value} → Conforms s v → (path : List String) → walk s v path ≡ none
  Conforms-walk (untyped ks ps v other) path = refl
  Conforms-walk (untyped_object ks ps fs has conform) path = refl
  Conforms-walk (unknown t ks ps v) path = ground (arith, other_unknown t)
  Conforms-walk (typed t ks ps v other is) path =
      ground (arith, IsA-known is, IsA-instance is, other)
  Conforms-walk (an_object_with ks ps fs has conform) path = ground (
    arith,
    IsA-known (an_object fs),
    IsA-instance (an_object fs),
    (first_missing-HasAll ks fs).1 has,
    AllConform-walk conform path,
  )

  AllConform-walk :
      {ps : Properties} {fs : Fields}
      → AllConform ps fs
      → (path : List String) → walk_properties ps fs path ≡ none
  AllConform-walk (no_more fs) path = refl
  AllConform-walk (absent k s ps fs gone rest) path =
      ground (arith, gone, AllConform-walk rest path)
  AllConform-walk (present k s ps fs v there first rest) path =
      ground (arith, there, Conforms-walk first (path ++ k ∷ []), AllConform-walk rest path)

-- A value that conforms to a schema as documented gives no error.
pub Conforms-first_error : (s : Schema) (v : Value) → Conforms s v → first_error s v ≡ none
unfolding first_error
Conforms-first_error s v c = Conforms-walk c []

-- `first_error` finds no error exactly if the value conforms to the schema as documented, when the
-- value meets neither of the two gaps of the code: an object where the schema has keys or properties
-- and no `type`, and a `bool` where it asks for a number, anywhere below.
pub first_error-Conforms :
    (s : Schema) (v : Value) → Clear s v → (first_error s v ≡ none) ↔ Conforms s v
unfolding first_error
first_error-Conforms s v clear = (walk-Conforms s v [] clear, Conforms-first_error s v)
