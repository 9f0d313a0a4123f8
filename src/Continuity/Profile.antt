-- ===== src/Continuity/Profile.antt =====
-- src/primal_ai/continuity/profile.py. A confidence is a float, in millionths, and a time is one, in
-- millionths of a second.
use primal_core.Base.{
  String, Option, none, some, List, [], ◌∷◌, Outcome, returned, ◌>>=◌, is_none, if◌then◌else◌,
}
use primal_core.Base.Dict.{Dict, get, put, pop, keys}
use primal_core.Base.Int.{ℤ, pos, ltb_ℤ, is_zero}
use primal_core.Base.Value.{Value, dict, str, float, Fields, field, end, put_field}
use primal_core.Base.Python.{
  Python, either_or, value_at, item_at, as_fields, with_methods, to_float, to_dict_value,
}

pub record ProfileField : Type 0 where
  pub key : String
  pub value : Value
  pub confidence : ℤ
  pub source : String
  pub updated_at : ℤ

pub data MergeStrategy : Type 0 where
  prefer_self prefer_other higher_confidence : MergeStrategy

pub record UserProfile : Type 0 where
  pub user_id : String
  pub fields : Dict ProfileField
  pub metadata : Fields
  pub created_at : ℤ
  pub updated_at : ℤ

-- `ProfileField.to_dict` and `ProfileField.from_dict`; `now` is what `time.time()` answers.
unfoldable pub field_to_dict : ProfileField → Fields
field_to_dict f = field "key" (str f.key) (
    field "value" f.value (
      field "confidence" (float f.confidence)
        (field "source" (str f.source) (field "updated_at" (float f.updated_at) end))))

unfoldable pub field_from_dict : Python → ℤ → Fields → Outcome ProfileField
unfolding value_at item_at either_or to_float
field_from_dict py now payload = do
  key ← item_at "key" payload
  confidence ← to_float py (either_or (value_at "confidence" payload) (float (pos 1000000)))
  updated_at ← to_float py (either_or (value_at "updated_at" payload) (float now))
  returned (record {
    key = py.str_of key;
    value = value_at "value" payload;
    confidence = confidence;
    source = py.str_of (either_or (value_at "source" payload) (str "user"));
    updated_at = updated_at;
  })

-- `get`, `get_field` and `keys`
unfoldable pub value_of : String → Value → UserProfile → Value
unfolding get
value_of k default p = elim (get k p.fields) [ none ↦ default | some f ↦ f.value ]

unfoldable pub get_field : String → UserProfile → Option ProfileField
unfolding get
get_field k p = get k p.fields

unfoldable pub profile_keys : UserProfile → List String
unfolding keys
profile_keys p = keys p.fields

unfoldable pub set : String → Value → String → ℤ → ℤ → UserProfile → UserProfile
unfolding put
set k v source confidence now p = record p {
  fields =
      put k
        (record { key = k; value = v; confidence = confidence; source = source; updated_at = now })
        p.fields;
  updated_at = now;
}

unfoldable pub remove : String → ℤ → UserProfile → UserProfile
unfolding get pop
remove k now p =
    if is_none (get k p.fields) then p else record p { fields = pop k p.fields; updated_at = now }

-- Which of two fields with one key is kept
abbrev pub preferred : MergeStrategy → ProfileField → ProfileField → ProfileField
preferred prefer_self existing incoming = existing
preferred prefer_other existing incoming = incoming
preferred higher_confidence existing incoming =
    if ltb_ℤ existing.confidence incoming.confidence then incoming else existing

-- One round of the loop of `merge`; to write the field that is there changes nothing.
unfoldable pub merge_one :
    MergeStrategy → String → ProfileField → Dict ProfileField → Dict ProfileField
unfolding get put
merge_one prefer k f merged = elim (get k merged) [
  | none ↦ put k f merged
  | some existing ↦ elim prefer [
    | prefer_self ↦ merged
    | prefer_other ↦ put k f merged
    | higher_confidence ↦ if ltb_ℤ existing.confidence f.confidence then put k f merged else merged
  ]
]

unfoldable pub merge_fields :
    MergeStrategy → Dict ProfileField → Dict ProfileField → Dict ProfileField
unfolding merge_one
merge_fields prefer [] merged = merged
merge_fields prefer ((k, f) ∷ other) merged =
    merge_fields prefer other (merge_one prefer k f merged)

-- `{**a, **b}`
unfoldable pub merge_metadata : Fields → Fields → Fields
unfolding put_field
merge_metadata a end = a
merge_metadata a (field k v b) = merge_metadata (put_field k v a) b

-- `min(a, b) or a`
abbrev pub earliest : ℤ → ℤ → ℤ
earliest a b = let m = if ltb_ℤ b a then b else a in if is_zero m then a else m

unfoldable pub merge : MergeStrategy → ℤ → UserProfile → UserProfile → UserProfile
unfolding merge_fields merge_metadata
merge prefer now p other = record {
  user_id = p.user_id;
  fields = merge_fields prefer other.fields p.fields;
  metadata = merge_metadata p.metadata other.metadata;
  created_at = earliest p.created_at other.created_at;
  updated_at = now;
}

-- `{k: f.to_dict() for k, f in self.fields.items()}`
unfoldable pub field_dicts : Dict ProfileField → Fields
unfolding field_to_dict
field_dicts [] = end
field_dicts ((k, f) ∷ fs) = field k (dict (field_to_dict f)) (field_dicts fs)

unfoldable pub to_dict : UserProfile → Fields
unfolding field_dicts
to_dict p = field "user_id" (str p.user_id) (
    field "fields" (dict (field_dicts p.fields)) (
      field "metadata" (dict p.metadata)
        (field "created_at" (float p.created_at) (field "updated_at" (float p.updated_at) end))))

module _ (py : Python) (now : ℤ) where
  -- `{k: ProfileField.from_dict(v) for k, v in fields_raw.items()}`
  unfoldable pub fields_from : Fields → Outcome (Dict ProfileField)
  unfolding field_from_dict
  fields_from end = returned []
  fields_from (field k v fs) = do
    payload ← as_fields v
    f ← field_from_dict py now payload
    rest ← fields_from fs
    returned ((k, f) ∷ rest)

  unfoldable pub from_dict : Fields → Outcome UserProfile
  unfolding value_at item_at either_or to_float to_dict_value fields_from
  from_dict payload = do
    user ← item_at "user_id" payload
    raw ← with_methods (either_or (value_at "fields" payload) (dict end))
    fs ← fields_from raw
    meta ← to_dict_value py (either_or (value_at "metadata" payload) (dict end))
    created ← to_float py (either_or (value_at "created_at" payload) (float (pos 0)))
    updated ← to_float py (either_or (value_at "updated_at" payload) (float (pos 0)))
    returned (record {
      user_id = py.str_of user;
      fields = fs;
      metadata = meta;
      created_at = created;
      updated_at = updated;
    })
