-- ===== src/Guardian/Redact/Clean.antt =====
-- What `PIIRedact` leaves in a result (src/primal_ai/guardian/_builtins/pii_redact.py).
use primal_core.Base.{String, ◌≡◌, refl, List, if◌then◌else◌, contains, Bool-cases, inl, inr}
use primal_core.Base.Value.{
  Value, null, bool, int, float, str, list, tuple, dict, object, Items, nil, cons, Fields, end,
  field,
}
use primal_core.Guardian.Policy.{Call}
use primal_core.Guardian.Redact.{redacted, check_post, redact, redact_fields, redact_items}

-- Below this value, through dicts and lists, every key of `fields` holds `[REDACTED]`.
unfoldable mutual
  pub IsClean : List String → Value → Type 0
  IsClean fields (dict fs) = AreClean fields fs
  IsClean fields (list vs) = AllClean fields vs
  IsClean fields null = Unit
  IsClean fields (bool b) = Unit
  IsClean fields (int n) = Unit
  IsClean fields (float x) = Unit
  IsClean fields (str t) = Unit
  IsClean fields (tuple vs) = Unit
  IsClean fields (object c) = Unit

  pub AreClean : List String → Fields → Type 0
  AreClean fields end = Unit
  AreClean fields (field k v fs) =
      (if contains k fields then (v ≡ redacted) else IsClean fields v) × AreClean fields fs

  pub AllClean : List String → Items → Type 0
  AllClean fields nil = Unit
  AllClean fields (cons v vs) = IsClean fields v × AllClean fields vs

module _ (sub : String → String → String) (patterns : List String) (fields : List String) where
  mutual
    unfolding IsClean AreClean AllClean redact redact_fields redact_items

    redact-IsClean : (v : Value) → IsClean fields (redact sub patterns fields v)
    redact-IsClean (str t) = tt
    redact-IsClean (dict fs) = redact_fields-AreClean fs
    redact-IsClean (list vs) = redact_items-AllClean vs
    redact-IsClean null = tt
    redact-IsClean (bool b) = tt
    redact-IsClean (int n) = tt
    redact-IsClean (float x) = tt
    redact-IsClean (tuple vs) = tt
    redact-IsClean (object c) = tt

    redact_fields-AreClean : (fs : Fields) → AreClean fields (redact_fields sub patterns fields fs)
    redact_fields-AreClean end = tt
    redact_fields-AreClean (field k v fs) = (
      elim (Bool-cases (contains k fields)) [ inl e ↦ rw e refl | inr e ↦ rw e (redact-IsClean v) ],
      redact_fields-AreClean fs,
    )

    redact_items-AllClean : (vs : Items) → AllClean fields (redact_items sub patterns fields vs)
    redact_items-AllClean nil = tt
    redact_items-AllClean (cons v vs) = (redact-IsClean v, redact_items-AllClean vs)

-- After `PIIRedact`, every configured field of every dict in the result, at any depth through dicts
-- and lists, holds `[REDACTED]`, whatever the patterns do.
pub check_post-IsClean :
    (sub : String → String → String) (patterns fields : List String) (c : Call) (result : Value)
    → IsClean fields (check_post sub patterns fields c result)
unfolding check_post
check_post-IsClean sub patterns fields c result = redact-IsClean sub patterns fields result
